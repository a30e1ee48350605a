-- ===== src/Formats/Event.antt =====
-- The messages of the bus, horust/src/horust/formats/mod.rs. A process id is the positive number
-- that the system gives it.
use horust.Prelude.{ℕ, Bool, true, false}
use horust.Prelude.Int.{ℤ}
use horust.Formats.Service.{ServiceName}
use horust.Formats.Status.{ServiceStatus}

abbrev pub Pid : Type 0
Pid = ℕ

pub data ShuttingDown : Type 0 where
  gracefully forcefully : ShuttingDown

pub data HealthinessStatus : Type 0 where
  healthy unhealthy : HealthinessStatus

pub data ExitStatus : Type 0 where
  successful some_service_failed : ExitStatus

pub data Event : Type 0 where
  pid_changed : ServiceName → Pid → Event
  status_update : ServiceName → ServiceStatus → Event
  status_changed : ServiceName → ServiceStatus → Event
  service_exited : ServiceName → ℤ → Event
  force_kill : ServiceName → Event
  kill : ServiceName → Event
  spawn_failed : ServiceName → Event
  run : ServiceName → Event
  shutting_down_initiated : ShuttingDown → Event
  health_check : ServiceName → HealthinessStatus → Event

-- impl From<bool> for HealthinessStatus
abbrev pub of_bool : Bool → HealthinessStatus
of_bool true = healthy
of_bool false = unhealthy

-- LifecycleStatus of horust/src/horust/supervisor/mod.rs
pub data LifecycleStatus : Type 0 where
  running : LifecycleStatus
  shutting_down : ShuttingDown → LifecycleStatus
