-- ===== src/Healthcheck.antt =====
-- The health checks: horust/src/horust/healthcheck.
pub mod Host
pub mod Checks
pub mod Workers
mod Examples
