-- ===== src/Formats.antt =====
-- The data that the program's parts share: horust/src/horust/formats.
pub mod Status
pub mod Service
pub mod Event
pub mod Signals
mod Examples
pub mod Environment
pub mod User
pub mod Limits
pub mod Text
pub mod Validation
