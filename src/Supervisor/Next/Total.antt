-- ===== src/Supervisor/Next/Total.antt =====
-- No lookup of a dependency fails where the repository has every service that is depended on.
use horust.Prelude.{◌≡◌, refl, true, Option, some, List}
use horust.Prelude.Lists.{All}
use horust.Prelude.Panic.{◌>>=◌}
use horust.Formats.Status.{ServiceStatus, started, running, initial}
use horust.Formats.Service.{Service}
use horust.Formats.Event.{
  Event, ShuttingDown, gracefully, forcefully, LifecycleStatus, shutting_down,
}
use horust.Supervisor.ServiceHandler.{ServiceHandler, Instant}
use horust.Supervisor.Repo.{Repo, is_service_runnable}
use horust.Supervisor.Repo.Readiness.{IsKnown, is_service_runnable_total, is_service_killable_total}
use horust.Supervisor.Next.{
  next, next_events, next_events_shutting_down, events_at, stopping_at, may_stop,
}

-- The services that a service names are in the repository.
abbrev pub KnowsDeps : Repo → Service → Type 0
KnowsDeps repo s = All (IsKnown repo) s.start_after × All (IsKnown repo) s.shutdown_after

abbrev Returns {ℓ} : {A : Type ℓ} → Option A → Type ℓ
Returns {A} m = (a : A) × (m ≡ some a)

Returns-bind {ℓ κ} :
    {A : Type ℓ} {B : Type κ} (m : Option A) (f : A → B)
    → Returns m
    → Returns (m >>= λ a. some (f a))
Returns-bind m f (a, e) = (f a, rw (e, ◌>>=◌))

events_at_total :
    (now : Instant) (repo : Repo) (sh : ServiceHandler) (status : ServiceStatus)
    → KnowsDeps repo sh.service
    → Returns (events_at status now repo sh)
unfolding events_at
events_at_total now repo sh initial k =
    Returns-bind (is_service_runnable repo sh) _ (is_service_runnable_total repo sh k.0)
events_at_total now repo sh _ k = (_, refl)

may_stop_total :
    (repo : Repo) (sh : ServiceHandler) (how : ShuttingDown)
    → KnowsDeps repo sh.service
    → Returns (may_stop how repo sh)
unfolding may_stop
may_stop_total repo sh forcefully k = (true, refl)
may_stop_total repo sh gracefully k = is_service_killable_total repo sh k.1

stopping_at_total :
    (now : Instant) (how : ShuttingDown) (repo : Repo) (sh : ServiceHandler)
    (status : ServiceStatus)
    → KnowsDeps repo sh.service
    → Returns (stopping_at status now how repo sh)
unfolding stopping_at
stopping_at_total now how repo sh running k =
    Returns-bind (may_stop how repo sh) _ (may_stop_total repo sh how k)
stopping_at_total now how repo sh started k =
    Returns-bind (may_stop how repo sh) _ (may_stop_total repo sh how k)
stopping_at_total now how repo sh _ k = (_, refl)

-- The next events of a service are computed without a panic, whatever the state of the system, if the
-- repository has the services that it starts after and shuts down after.
pub next_total :
    (now : Instant) (sh : ServiceHandler) (repo : Repo) (life : LifecycleStatus)
    → KnowsDeps repo sh.service
    → (evs : List Event) × (next now sh repo life ≡ some evs)
unfolding next next_events next_events_shutting_down
next_total now sh repo LifecycleStatus.running k = events_at_total now repo sh sh.status k
next_total now sh repo (shutting_down how) k = stopping_at_total now how repo sh sh.status k
