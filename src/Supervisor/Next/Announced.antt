-- ===== src/Supervisor/Next/Announced.antt =====
-- What the services ask for announces statuses of known services only.
use horust.Prelude.{
  ◌≡◌, subst, not, Bool, true, false, Option, none, some, List, [], ◌∷◌, ◌++◌, arith,
}
use horust.Prelude.Tests.{if◌then◌else◌, String_eq}
use horust.Prelude.Lists.{All, All-append, In, here, there, flat_map}
use horust.Prelude.HashMap.{HashMap}
use horust.Prelude.Panic.{◌>>=◌, >>=-eq-some, try_flat_map}
use horust.Formats.Status.{ServiceStatus, started, running, in_killing, success, failed, initial}
use horust.Formats.Service.{ServiceName, FailureStrategy, shutdown, kill_dependents, ignore}
use horust.Formats.Event.{Event, status_update, ShuttingDown, LifecycleStatus, shutting_down}
use horust.Supervisor.ServiceHandler.{
  ServiceHandler, Instant, sh_name, kill_events, failed_service_events, handle_failed_service,
  handle_restart_strategy, should_force_kill, has_some_failed_healthchecks,
}
use horust.Supervisor.Repo.{Repo, is_service_runnable, get_dependents, get_die_if_failed}
use horust.Supervisor.Next.{
  next, next_events, next_events_shutting_down, has_too_many_failures, failed_events, events_at,
  stopping_at, may_stop,
}
use horust.Supervisor.Handler.Announced.{Announces}

module _ (K : ServiceName → Type 0) where
  kills : (names : List ServiceName) → All (Announces K) (flat_map kill_events names)
  kills [] = tt
  kills (n ∷ ns) = (tt, (tt, kills ns))

  strategy :
      (f : FailureStrategy) (names : List ServiceName)
      → All (Announces K) (failed_service_events f names)
  strategy shutdown names = (tt, tt)
  strategy kill_dependents names = kills names
  strategy ignore names = tt

  restart : (sh : ServiceHandler) (b : Bool) → Announces K (handle_restart_strategy sh b)
  unfolding handle_restart_strategy
  restart sh b = tt

  failing : (repo : Repo) (sh : ServiceHandler) → All (Announces K) (failed_events repo sh)
  unfolding failed_events handle_failed_service
  failing repo sh =
      All-append (Announces K) (handle_failed_service (get_dependents repo (sh_name sh)) sh.service)
        (handle_restart_strategy sh true
          ∷ flat_map kill_events (get_die_if_failed repo (sh_name sh)))
        (strategy sh.service.failure.strategy (get_dependents repo (sh_name sh)))
        (restart sh true, kills (get_die_if_failed repo (sh_name sh)))

  module _ {evs : List Event} where
    these : (xs : List Event) → some xs ≡ some evs → All (Announces K) xs → All (Announces K) evs
    these xs e h = let p : xs ≡ evs = cc in subst (All (Announces K)) p h

    these_if :
        (b : Bool) (xs : List Event)
        → some (if b then xs else []) ≡ some evs
        → All (Announces K) xs
        → All (Announces K) evs
    these_if true xs e h = these xs e h
    these_if false xs e h = these [] e tt

    these_bind :
        (m : Option Bool) (xs : List Event)
        → (m >>= λ b. some (if b then xs else [])) ≡ some evs
        → All (Announces K) xs
        → All (Announces K) evs
    these_bind none xs e h = cc
    these_bind (some b) xs e h = these_if b xs e h

    events_at-Announces :
        (now : Instant) (repo : Repo) (sh : ServiceHandler) (status : ServiceStatus)
        → K (sh_name sh)
        → events_at status now repo sh ≡ some evs
        → All (Announces K) evs
    unfolding events_at
    events_at-Announces now repo sh initial k h =
        these_bind (is_service_runnable repo sh) _ h (tt, tt)
    events_at-Announces now repo sh started k h =
        these_if (not (has_some_failed_healthchecks sh)) (status_update (sh_name sh) running ∷ [])
          (ground arith) (tt, tt)
    events_at-Announces now repo sh running k h =
        these_if (has_too_many_failures sh) _ h (tt, (tt, tt))
    events_at-Announces now repo sh success k h = these _ h (restart sh false, tt)
    events_at-Announces now repo sh in_killing k h =
        these_if (should_force_kill sh none now) _ h (tt, (k, tt))
    events_at-Announces now repo sh failed k h = these _ h (failing repo sh)
    events_at-Announces now repo sh _ k h = these [] h tt

    stopping_at-Announces :
        (now : Instant) (how : ShuttingDown) (repo : Repo) (sh : ServiceHandler)
        (status : ServiceStatus)
        → stopping_at status now how repo sh ≡ some evs
        → All (Announces K) evs
    unfolding stopping_at
    stopping_at-Announces now how repo sh running h =
        these_bind (may_stop how repo sh) _ h (tt, (tt, tt))
    stopping_at-Announces now how repo sh started h =
        these_bind (may_stop how repo sh) _ h (tt, (tt, tt))
    stopping_at-Announces now how repo sh success h = these _ h (tt, tt)
    stopping_at-Announces now how repo sh initial h = these _ h (tt, tt)
    stopping_at-Announces now how repo sh failed h = these _ h (tt, tt)
    stopping_at-Announces now how repo sh in_killing h =
        these_if (should_force_kill sh (some how) now) _ h (tt, tt)
    stopping_at-Announces now how repo sh _ h = these [] h tt

    next-Announces :
        (now : Instant) (sh : ServiceHandler) (repo : Repo) (life : LifecycleStatus)
        → K (sh_name sh)
        → next now sh repo life ≡ some evs
        → All (Announces K) evs
    unfolding next next_events next_events_shutting_down
    next-Announces now sh repo LifecycleStatus.running k h =
        events_at-Announces now repo sh sh.status k h
    next-Announces now sh repo (shutting_down how) k h =
        stopping_at-Announces now how repo sh sh.status h

  pub next_entries-Announces :
      (now : Instant) (repo : Repo) (life : LifecycleStatus)
      (m : HashMap ServiceName ServiceHandler) {evs : List Event}
      → ((n : ServiceName) (d : ServiceHandler) → In (n, d) m → K (sh_name d))
      → try_flat_map (λ entry. next now entry.1 repo life) m ≡ some evs
      → All (Announces K) evs
  next_entries-Announces now repo life [] k h = these [] h tt
  next_entries-Announces now repo life ((n, d) ∷ m) k h =
      let (xs, e, h₁) = >>=-eq-some (next now d repo life) _ h in
      let (ys, f, h₂) = >>=-eq-some (try_flat_map (λ entry. next now entry.1 repo life) m) _ h₁ in
      these (xs ++ ys) h₂ (
        All-append (Announces K) xs ys (next-Announces now d repo life (k n d here) e)
          (next_entries-Announces now repo life m (λ j x i. k j x (there i)) f))
