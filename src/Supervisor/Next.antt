-- ===== src/Supervisor/Next.antt =====
-- The events that move a service on: `next` of horust/src/horust/supervisor/service_handler.rs.
pub mod Legal
pub mod Total
pub mod Started
pub mod Failed
pub mod Forced
pub mod Progress
pub mod Announced
use horust.Prelude.{
  ℕ, ◌≡◌, Bool, true, false, ◌&&◌, ◌||◌, not, Option, none, some, List, [], ◌∷◌, ◌++◌,
}
use horust.Prelude.Tests.{if◌then◌else◌}
use horust.Prelude.Lists.{flat_map}
use horust.Prelude.Int.{ℤ, negsuc, ltb_ℤ}
use horust.Prelude.Panic.{◌>>=◌}
use horust.Formats.Status.{
  ServiceStatus, starting, started, running, in_killing, success, finished, finished_failed, failed,
  initial,
}
use horust.Formats.Event.{
  Event, status_update, status_changed, ShuttingDown, gracefully, forcefully, LifecycleStatus,
}
use horust.Supervisor.ServiceHandler.{
  ServiceHandler, Instant, sh_name, unwrap_or, has_some_failed_healthchecks,
  handle_restart_strategy, handle_failed_service, should_force_kill, kill_events,
}
use horust.Supervisor.Repo.{
  Repo, is_service_runnable, is_service_killable, get_dependents, get_die_if_failed,
}

abbrev has_too_many_failures : ServiceHandler → Bool
has_too_many_failures sh =
    ltb_ℤ sh.service.healthiness.max_failed (unwrap_or sh.healthiness_checks_failed (negsuc 0))

-- What a failed service sends: its failure strategy, its own restart, and the end of the services
-- that die with it.
failed_events : Repo → ServiceHandler → List Event
failed_events repo sh =
    handle_failed_service (get_dependents repo (sh_name sh)) sh.service
    ++ (handle_restart_strategy sh true
        ∷ flat_map kill_events (get_die_if_failed repo (sh_name sh)))

-- The `match service_handler.status` of next_events.
events_at : ServiceStatus → Instant → Repo → ServiceHandler → Option (List Event)
unfolding failed_events
events_at initial now repo sh = do
  runnable ← is_service_runnable repo sh
  some (if runnable then Event.run (sh_name sh) ∷ [] else [])
events_at started now repo sh =
    some (if has_some_failed_healthchecks sh then [] else status_update (sh_name sh) running ∷ [])
events_at running now repo sh =
    some (if has_too_many_failures sh then kill_events (sh_name sh) else [])
events_at success now repo sh = some (handle_restart_strategy sh false ∷ [])
events_at failed now repo sh = some (failed_events repo sh)
events_at in_killing now repo sh = some (
    if should_force_kill sh none now
    then Event.force_kill (sh_name sh) ∷ status_changed (sh_name sh) failed ∷ []
    else [])
events_at _ now repo sh = some []

unfoldable pub next_events : Instant → Repo → ServiceHandler → Option (List Event)
unfolding events_at
next_events now repo sh = events_at sh.status now repo sh

-- The guard of a running or started service: the second test is made only in a graceful shutdown.
may_stop : ShuttingDown → Repo → ServiceHandler → Option Bool
may_stop forcefully repo sh = some true
may_stop gracefully repo sh = is_service_killable repo sh

stop_events : ShuttingDown → Repo → ServiceHandler → Option (List Event)
unfolding may_stop
stop_events how repo sh = do
  stoppable ← may_stop how repo sh
  some (if stoppable then kill_events (sh_name sh) else [])

-- The `match &service_handler.status` of next_events_shutting_down.
stopping_at : ServiceStatus → Instant → ShuttingDown → Repo → ServiceHandler → Option (List Event)
unfolding stop_events
stopping_at running now how repo sh = stop_events how repo sh
stopping_at started now how repo sh = stop_events how repo sh
stopping_at success now how repo sh = some (status_update (sh_name sh) finished ∷ [])
stopping_at initial now how repo sh = some (status_update (sh_name sh) finished ∷ [])
stopping_at failed now how repo sh = some (status_update (sh_name sh) finished_failed ∷ [])
stopping_at in_killing now how repo sh =
    some (if should_force_kill sh (some how) now then Event.force_kill (sh_name sh) ∷ [] else [])
stopping_at _ now how repo sh = some []

unfoldable pub next_events_shutting_down :
    Instant → ServiceHandler → ShuttingDown → Repo → Option (List Event)
unfolding stopping_at
next_events_shutting_down now sh how repo = stopping_at sh.status now how repo sh

unfoldable pub next : Instant → ServiceHandler → Repo → LifecycleStatus → Option (List Event)
next now sh repo LifecycleStatus.running = next_events now repo sh
next now sh repo (LifecycleStatus.shutting_down how) = next_events_shutting_down now sh how repo
