-- ===== src/Supervisor/Spawner.antt =====
-- The thread that spawns the process of a service, and the child before it becomes the program:
-- horust/src/horust/supervisor/process_spawner.rs.
pub mod Rotation
pub mod Child
pub mod Exec
pub mod Thread
