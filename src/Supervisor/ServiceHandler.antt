-- ===== src/Supervisor/ServiceHandler.antt =====
-- The state machine of one service, horust/src/horust/supervisor/service_handler.rs. An `Instant` is
-- a reading of the monotonic clock in nanoseconds; the clock is read by the caller.
pub mod Transitions
pub mod Killing
pub mod Healthchecks
use horust.Prelude.{
  ℕ, ◌+◌, ◌-◌, ◌%◌, ◌≡◌, Bool, true, false, not, ◌&&◌, ◌||◌, Option, none, some, List, [], ◌∷◌, map,
}
use horust.Prelude.Tests.{ltb, nat_eq, ◌==◌, if◌then◌else◌}
use horust.Prelude.Lists.{contains, find, flat_map}
use horust.Prelude.Int.{ℤ, pos, negsuc, ltb_ℤ, wrapping_add_i32}
use horust.Formats.Status.{
  ServiceStatus, starting, started, running, in_killing, success, finished, finished_failed, failed,
  initial, Status_eq,
}
use horust.Formats.Service.{
  Service, ServiceName, RestartStrategy, always, on_failure, never, FailureStrategy, shutdown,
  kill_dependents, ignore, as_secs,
}
use horust.Formats.Event.{
  Event, status_update, shutting_down_initiated, Pid, ShuttingDown, gracefully, forcefully,
  HealthinessStatus, healthy, unhealthy,
}

abbrev pub Instant : Type 0
Instant = ℕ

pub record ServiceHandler : Type 0 where
  pub service : Service
  pub status : ServiceStatus
  pub pid : Option Pid
  pub restart_attempts : ℕ  -- u32
  pub healthiness_checks_failed : Option ℤ  -- i32
  pub shutting_down_start : Option Instant

-- impl From<Service> for ServiceHandler
abbrev pub of_service : Service → ServiceHandler
of_service s = record {
  service = s;
  status = initial;
  pid = none;
  restart_attempts = 0;
  healthiness_checks_failed = none;
  shutting_down_start = none;
}

abbrev pub unwrap_or {ℓ} : {A : Type ℓ} → Option A → A → A
unwrap_or none d = d
unwrap_or (some a) d = a

abbrev pub sh_name : ServiceHandler → ServiceName
sh_name sh = sh.service.name

abbrev pub is_alive_state : ServiceHandler → Bool
is_alive_state sh = contains (running ∷ started ∷ starting ∷ []) sh.status

abbrev pub is_early_state : ServiceHandler → Bool
is_early_state sh = contains (initial ∷ starting ∷ started ∷ []) sh.status

abbrev pub is_finished_failed : ServiceHandler → Bool
is_finished_failed sh = sh.status == finished_failed

abbrev pub is_in_killing : ServiceHandler → Bool
is_in_killing sh = sh.status == in_killing

abbrev pub is_initial : ServiceHandler → Bool
is_initial sh = initial == sh.status

abbrev pub is_running : ServiceHandler → Bool
is_running sh = running == sh.status

abbrev pub is_finished : ServiceHandler → Bool
is_finished sh = finished == sh.status

-- Without a verdict of the health checker the service counts as unhealthy.
abbrev pub has_some_failed_healthchecks : ServiceHandler → Bool
has_some_failed_healthchecks sh = ltb_ℤ (pos 0) (unwrap_or sh.healthiness_checks_failed (pos 1))

abbrev pub restart_attempts_are_over : ServiceHandler → Bool
restart_attempts_are_over sh =
    nat_eq sh.service.restart.attempts 0 || ltb sh.service.restart.attempts sh.restart_attempts

abbrev pub is_healthy : HealthinessStatus → Bool
is_healthy healthy = true
is_healthy unhealthy = false

unfoldable pub add_healthcheck_event : ServiceHandler → HealthinessStatus → ServiceHandler
add_healthcheck_event sh check =
    let previous_hc = unwrap_or sh.healthiness_checks_failed (pos 0) in
    let new_hc : ℤ = if is_alive_state sh && not (is_healthy check) then pos 1 else pos 0 in
    record sh { healthiness_checks_failed = some (wrapping_add_i32 previous_hc new_hc) }

abbrev pub shutting_down_started : ServiceHandler → Instant → ServiceHandler
shutting_down_started sh now = record sh { shutting_down_start = some now }

-- ALLOWED_TRANSITIONS: a state, and the states from which it may be entered.
abbrev allowed_transitions : List (ServiceStatus × List ServiceStatus)
allowed_transitions =
    (initial, success ∷ failed ∷ [])
    ∷ (starting, initial ∷ [])
    ∷ (started, starting ∷ [])
    ∷ (in_killing, initial ∷ running ∷ starting ∷ started ∷ [])
    ∷ (running, started ∷ [])
    ∷ (finished_failed, starting ∷ started ∷ failed ∷ in_killing ∷ [])
    ∷ (success, starting ∷ started ∷ running ∷ in_killing ∷ [])
    ∷ (failed, starting ∷ started ∷ running ∷ in_killing ∷ [])
    ∷ (finished, success ∷ initial ∷ [])
    ∷ []

abbrev is_valid : ServiceStatus → ServiceStatus → Bool
is_valid current next = elim (find (λ row. row.0 == next) allowed_transitions) [
  | none ↦ false
  | some row ↦ contains row.1 current
]

-- The `match next_status` of a valid transition.
enter : ServiceStatus → ServiceHandler → ServiceHandler
enter started sh = record sh { status = started; restart_attempts = 0 }
enter in_killing sh = record sh { status = if sh.status == initial then success else in_killing }
enter next sh = record sh { status = next }

-- handle_status_change
unfoldable pub change_status : ServiceHandler → ServiceStatus → ServiceHandler × ServiceStatus
unfolding enter
change_status sh next =
    let new_sh = if is_valid sh.status next then enter next sh else sh in
    if next == sh.status then (sh, next) else (new_sh, new_sh.status)

-- The state that the restart strategy asks for.
restart_status : RestartStrategy → Bool → ServiceHandler → ServiceStatus
restart_status never true sh = if restart_attempts_are_over sh then finished_failed else initial
restart_status on_failure true sh = initial
restart_status never false sh = finished
restart_status on_failure false sh = finished
restart_status always is_failed sh = initial

unfoldable pub handle_restart_strategy : ServiceHandler → Bool → Event
unfolding restart_status
handle_restart_strategy sh is_failed =
    status_update (sh_name sh) (restart_status sh.service.restart.strategy is_failed sh)

-- The two events that stop a service.
abbrev pub kill_events : ServiceName → List Event
kill_events name = status_update name in_killing ∷ Event.kill name ∷ []

abbrev pub failed_service_events : FailureStrategy → List ServiceName → List Event
failed_service_events shutdown deps = shutting_down_initiated gracefully ∷ []
failed_service_events kill_dependents deps = flat_map kill_events deps
failed_service_events ignore deps = []

unfoldable pub handle_failed_service : List ServiceName → Service → List Event
handle_failed_service deps failed_sh = failed_service_events failed_sh.failure.strategy deps

-- `Instant::elapsed` is 0 for an instant that is yet to come.
abbrev pub elapsed : Instant → Instant → ℕ
elapsed start now = now - start

abbrev waited_enough : ServiceHandler → Option Instant → Instant → Bool
waited_enough sh none now = false
waited_enough sh (some start) now =
    ltb (as_secs sh.service.termination.wait) (as_secs (elapsed start now))

abbrev is_forced : Option ShuttingDown → Bool
is_forced (some forcefully) = true
is_forced (some gracefully) = false
is_forced none = false

abbrev is_none {ℓ} : {A : Type ℓ} → Option A → Bool
is_none none = true
is_none (some a) = false

unfoldable pub should_force_kill : ServiceHandler → Option ShuttingDown → Instant → Bool
should_force_kill sh shutting_down now =
    if is_none sh.pid
    then false
    else if is_forced shutting_down
    then true
    else waited_enough sh sh.shutting_down_start now
