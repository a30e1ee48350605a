-- ===== src/Supervisor/Spawner/Thread.antt =====
-- The thread that spawns one service: spawn_fork_exec_handler of
-- horust/src/horust/supervisor/process_spawner.rs. It sleeps for the start delay and the backoff, and
-- looks at the bus every 100 milliseconds meanwhile. The list says what wakes it, in order: a tick, with
-- the events that the bus has delivered since the last one, or the end of its sleep.
pub mod Reports
use horust.Prelude.{ℕ, ◌+◌, ◌*◌, ◌^◌, ◌≡◌, Bool, true, false, List, [], ◌∷◌}
use horust.Prelude.Tests.{ltb, if◌then◌else◌}
use horust.Prelude.Lists.{any}
use horust.Formats.Service.{Service, nanos_per_sec, ServiceName}
use horust.Formats.Event.{Event, pid_changed, spawn_failed, shutting_down_initiated}
use horust.Prelude.Outcome.{Outcome, ok, err, panic}
use horust.Supervisor.Spawner.Exec.{Spawned}

pub data Wake : Type 0 where
  tick : List Event → Wake
  timeout : Wake

-- The event that the thread sends at its end, or its death by a panic; `asleep` when nothing has ended it.
pub data Report : Type 0 where
  sends : Event → Report
  dies : Report
  asleep : Report

abbrev pub is_shutting_down_ev : Event → Bool
is_shutting_down_ev (shutting_down_initiated how) = true
is_shutting_down_ev _ = false

abbrev pub report : ServiceName → Outcome Spawned → Report
report name (ok spawned) = sends (pid_changed name spawned.pid)
report name err = sends (spawn_failed name)
report name panic = dies

-- The loop of the thread.
unfoldable pub sleep : Service → Outcome Spawned → List Wake → Report
sleep service spawned [] = asleep
sleep service spawned (tick evs ∷ wakes) =
    let rest = sleep service spawned wakes in
    if any is_shutting_down_ev evs then sends (spawn_failed service.name) else rest
sleep service spawned (timeout ∷ wakes) = report service.name spawned

-- `start_delay.add(backoff)` panics where the sum is no Duration, of a u64 of seconds.
unfoldable pub spawn_thread : Service → ℕ → Outcome Spawned → List Wake → Report
spawn_thread service backoff spawned wakes =
    if ltb (service.start_delay + backoff) (2 ^ 64 * nanos_per_sec)
    then sleep service spawned wakes
    else dies
