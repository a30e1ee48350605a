-- ===== src/Healthcheck/Workers/Calm.antt =====
-- The thread of the health checker goes on while the system runs.
use horust.Prelude.{◌≡◌, refl, inl, inr, Bool, Option, some, List, [], ◌∷◌, ◌++◌}
use horust.Prelude.Tests.{Bool-cases, String_eq}
use horust.Prelude.Lists.{All}
use horust.Prelude.HashMap.{insert, remove}
use horust.Prelude.Panic.{◌>>=◌}
use horust.Formats.Status.{ServiceStatus, started}
use horust.Formats.Service.{Service, ServiceName, has_any_check_defined}
use horust.Formats.Event.{
  Event, status_changed, service_exited, shutting_down_initiated, health_check, healthy,
}
use horust.Healthcheck.Workers.{
  Workers, Action, sends, starts, Turn, watching, get_service, stop_old, on_started, on_status,
  on_event, go_on, run,
}

-- The start of a service that is known, or any event but a start or a shutdown.
abbrev IsKnownStart : List Service → ServiceName → ServiceStatus → Type 0
IsKnownStart services m started = (s : Service) × (get_service services m ≡ some s)
IsKnownStart services m _ = Unit {0}

abbrev pub IsCalm : List Service → Event → Type 0
IsCalm services (status_changed m status) = IsKnownStart services m status
IsCalm services (shutting_down_initiated how) = ⊥
IsCalm services _ = Unit {0}

-- An event is taken, and the thread goes on.
abbrev pub GoesOn : Option (Turn × List Action) → Type 0
GoesOn o = (workers' : Workers) × (acts : List Action) × (o ≡ some (watching workers', acts))

status-GoesOn :
    (services : List Service) (workers : Workers) (m : ServiceName) (status : ServiceStatus)
    → IsKnownStart services m status
    → GoesOn (on_status services workers m status)
unfolding on_status on_started
status-GoesOn services workers m started (s, e) =
    elim (Bool-cases (has_any_check_defined s.healthiness)) [
      | inl f ↦ (
        insert (remove workers m) m s,
        stop_old workers m ++ starts s ∷ [],
        rw (e, ◌>>=◌) (rw f refl),
      )
      | inr f ↦ (workers, sends (health_check m healthy) ∷ [], rw (e, ◌>>=◌) (rw f refl))
    ]
status-GoesOn services workers m _ h = (workers, [], refl)

event-GoesOn :
    (alive : ServiceName → Bool) (services : List Service) (workers : Workers) (ev : Event)
    → IsCalm services ev
    → GoesOn (on_event alive services workers ev)
unfolding on_event
event-GoesOn alive services workers (status_changed m status) h =
    status-GoesOn services workers m status h
event-GoesOn alive services workers (service_exited m code) h =
    (remove workers m, stop_old workers m, refl)
event-GoesOn alive services workers (shutting_down_initiated how) h = absurd h
event-GoesOn alive services workers _ h = (workers, [], refl)

pub run-GoesOn :
    (alive : ServiceName → Bool) (services : List Service) (evs : List Event) (workers : Workers)
    → All (IsCalm services) evs
    → GoesOn (run alive services evs workers)
unfolding run go_on
run-GoesOn alive services [] workers h = (workers, [], refl)
run-GoesOn alive services (ev ∷ evs) workers h =
    let (mid, first, e) = event-GoesOn alive services workers ev h.0 in
    let (workers', more, f) = run-GoesOn alive services evs mid h.1 in
    (workers', first ++ more, rw (e, ◌>>=◌) (rw (f, ◌>>=◌) refl))
