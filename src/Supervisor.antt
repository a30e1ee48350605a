-- ===== src/Supervisor.antt =====
-- The supervisor: horust/src/horust/supervisor. It keeps the state of each service and moves it on.
pub mod ServiceHandler
pub mod Repo
pub mod Next
pub mod Handler
pub mod Reaper
pub mod SignalHandling
pub mod Spawner
pub mod Loop
mod Examples
