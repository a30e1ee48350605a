-- ===== src/Supervisor/Handler.antt =====
-- Supervisor::handle_event of horust/src/horust/supervisor/mod.rs, with one function for each arm of
-- its match. `System` is what the supervisor does to the world beyond the bus: the signals that it
-- sends to one process or to all, the threads that it starts to spawn a process (with the service and
-- the backoff), the SIGTERM flag, and the table of parsed health-check commands. `none` is a panic.
pub mod Change
pub mod Config
pub mod Settled
pub mod Pids
pub mod Signals
pub mod Healthy
pub mod Stopping
pub mod Admissible
pub mod Sound
pub mod Announced
use horust.Prelude.{
  ℕ, ◌+◌, ◌*◌, ◌%◌, ◌^◌, ◌≡◌, Bool, true, false, not, ◌&&◌, ◌||◌, Option, none, some, List, [], ◌∷◌,
  ◌++◌,
}
use horust.Prelude.Tests.{ltb, ◌==◌, if◌then◌else◌}
use horust.Prelude.Lists.{contains}
use horust.Prelude.Int.{ℤ, u32_mod, Int_eq}
use horust.Prelude.Panic.{◌>>=◌}
use horust.Formats.Status.{
  ServiceStatus, starting, started, running, in_killing, success, finished, finished_failed, failed,
  initial, Status_eq,
}
use horust.Formats.Service.{Service, ServiceName, Duration, nanos_per_sec}
use horust.Formats.Signals.{Signal, sigkill, to_signal}
use horust.Formats.Event.{
  Event, pid_changed, status_update, status_changed, service_exited, force_kill, spawn_failed,
  shutting_down_initiated, health_check, Pid, ShuttingDown, gracefully, forcefully,
  HealthinessStatus, LifecycleStatus, shutting_down,
}
use horust.Healthcheck.Host.{Host}
use horust.Healthcheck.Checks.{Parsed, prepare_service}
use horust.Supervisor.ServiceHandler.{
  ServiceHandler, Instant, sh_name, unwrap_or, is_early_state, is_in_killing, is_initial,
  has_some_failed_healthchecks, add_healthcheck_event, shutting_down_started, change_status,
}
use horust.Supervisor.Repo.{Repo, get_sh, insert_sh_by_name, add_pid, remove_pid, new_repo}

pub record System : Type 0 where
  pub sigterm_received : Bool
  pub signals : List (Pid × Signal)
  pub broadcasts : List Signal
  pub spawned : List (Service × Duration)
  pub parsed : Parsed

pub record Supervisor : Type 0 where
  pub status : LifecycleStatus
  pub repo : Repo
  pub system : System

-- Supervisor::new
abbrev pub new_supervisor : List Service → System → Supervisor
new_supervisor services system = record {
  status = LifecycleStatus.running;
  repo = new_repo services;
  system = system;
}

abbrev pub put_sh : Supervisor → ServiceName → ServiceHandler → Supervisor
put_sh s name sh = record s { repo = insert_sh_by_name s.repo name sh }

-- The free function `kill`: without a process there is nothing to send a signal to.
abbrev send_signal : Option Pid → Signal → System → System
send_signal none s y = y
send_signal (some pid) s y = record y { signals = y.signals ++ (pid, s) ∷ [] }

pub kill : ServiceHandler → Option Signal → System → System
kill sh s y = send_signal sh.pid (unwrap_or s (to_signal sh.service.termination.signal)) y

abbrev pub bit : Bool → ℕ
bit true = 1
bit false = 0

-- The service after its process has gone.
abbrev pub exited_sh : ServiceHandler → ServiceHandler
exited_sh sh = record sh {
  shutting_down_start = none;
  pid = none;
  restart_attempts =
      (sh.restart_attempts + bit (has_some_failed_healthchecks sh && is_early_state sh)) % u32_mod;
}

abbrev pub exited_status : ServiceHandler → ℤ → ServiceStatus
exited_status sh code =
    let has_failed = not (contains sh.service.failure.successful_exit_code code) in
    if has_failed || (sh.status == running && has_some_failed_healthchecks sh)
    then failed
    else success

unfoldable pub on_exited : Supervisor → ServiceName → ℤ → Option (Supervisor × List Event)
on_exited s name code = do
  sh ← get_sh s.repo name
  pid ← sh.pid
  let (new_sh, new_status) = change_status (exited_sh sh) (exited_status (exited_sh sh) code)
  let s' = record s { repo = insert_sh_by_name (remove_pid s.repo pid) name new_sh }
  some (s', status_changed name new_status ∷ [])

-- `Duration::mul` panics past the largest duration, of 2 ^ 64 seconds.
abbrev mul_duration : Duration → ℕ → Option Duration
mul_duration d n = if ltb (d * n) (2 ^ 64 * nanos_per_sec) then some (d * n) else none

-- What happens once the health checks have been prepared.
spawn_or_stop :
    Supervisor → ServiceName → ServiceHandler → Parsed × Bool → Option (Supervisor × List Event)
spawn_or_stop s name sh (parsed, true) = do
  backoff ← mul_duration sh.service.restart.backoff sh.restart_attempts
  let y = record s.system {
    parsed = parsed;
    spawned = s.system.spawned ++ (sh.service, backoff) ∷ [];
  }
  let s' = record s {
    repo = insert_sh_by_name s.repo name (record sh { status = starting });
    system = y;
  }
  some (s', status_changed name starting ∷ [])
spawn_or_stop s name sh (parsed, false) = some (
  record {
    status = shutting_down gracefully;
    repo = insert_sh_by_name s.repo name (record sh { status = finished_failed });
    system = record s.system { parsed = parsed };
  },
  status_update (sh_name sh) finished_failed ∷ shutting_down_initiated gracefully ∷ [],
)

unfoldable pub on_run : Host → Supervisor → ServiceName → Option (Supervisor × List Event)
unfolding spawn_or_stop
on_run host s name = do
  sh ← get_sh s.repo name
  let started_sh = (do
    prepared ← prepare_service host sh.service.healthiness s.system.parsed
    spawn_or_stop s name sh prepared)
  if is_initial sh then started_sh else some (s, [])

unfoldable pub on_spawn_failed : Supervisor → ServiceName → Option (Supervisor × List Event)
on_spawn_failed s name = do
  sh ← get_sh s.repo name
  some (put_sh s name (record sh { status = failed }), status_update name failed ∷ [])

unfoldable pub on_kill : Instant → Supervisor → ServiceName → Option (Supervisor × List Event)
unfolding kill
on_kill now s name = do
  sh ← get_sh s.repo name
  let sh' = shutting_down_started sh now
  let s' = record s { repo = insert_sh_by_name s.repo name sh'; system = kill sh' none s.system }
  some (if is_in_killing sh then s' else s, [])

unfoldable pub on_force_kill : Supervisor → ServiceName → Option (Supervisor × List Event)
unfolding kill
on_force_kill s name = do
  sh ← get_sh s.repo name
  let s' = record s {
    repo = insert_sh_by_name s.repo name (record sh { status = failed });
    system = kill sh (some sigkill) s.system;
  }
  some (if is_in_killing sh then (s', status_changed (sh_name sh) failed ∷ []) else (s, []))

unfoldable pub on_pid_changed :
    Instant → Supervisor → ServiceName → Pid → Option (Supervisor × List Event)
unfolding kill
on_pid_changed now s name pid = do
  sh ← get_sh s.repo name
  let with_pid = record sh { pid = some pid }
  let stopping = shutting_down_started with_pid now
  let repo = add_pid s.repo pid name
  let killed = record s {
    repo = insert_sh_by_name repo name stopping;
    system = kill stopping none s.system;
  }
  let up = record s { repo = insert_sh_by_name repo name (record with_pid { status = started }) }
  some (if is_in_killing sh then (killed, []) else (up, status_changed name started ∷ []))

unfoldable pub on_health_check :
    Supervisor → ServiceName → HealthinessStatus → Option (Supervisor × List Event)
on_health_check s name health = do
  sh ← get_sh s.repo name
  some (put_sh s name (add_healthcheck_event sh health), [])

-- signal_handling::clear_sigtem
abbrev clear_sigterm : System → System
clear_sigterm y = record y { sigterm_received = false }

unfoldable pub on_shutting_down : Supervisor → ShuttingDown → Supervisor × List Event
on_shutting_down s how =
    (record s { status = shutting_down how; system = clear_sigterm s.system }, [])

unfoldable pub on_status_update :
    Supervisor → ServiceName → ServiceStatus → Option (Supervisor × List Event)
on_status_update s name next = do
  sh ← get_sh s.repo name
  let (new_sh, new_status) = change_status sh next
  some (
      if new_status == sh.status
      then (s, [])
      else (put_sh s name new_sh, status_changed name new_status ∷ []))

unfoldable pub handle_event : Host → Instant → Supervisor → Event → Option (Supervisor × List Event)
handle_event host now s (service_exited name code) = on_exited s name code
handle_event host now s (Event.run name) = on_run host s name
handle_event host now s (spawn_failed name) = on_spawn_failed s name
handle_event host now s (Event.kill name) = on_kill now s name
handle_event host now s (force_kill name) = on_force_kill s name
handle_event host now s (pid_changed name pid) = on_pid_changed now s name pid
handle_event host now s (health_check name health) = on_health_check s name health
handle_event host now s (shutting_down_initiated how) = some (on_shutting_down s how)
handle_event host now s (status_update name next) = on_status_update s name next
handle_event host now s (status_changed name status) = some (s, [])
