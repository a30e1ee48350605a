-- ===== src/Supervisor/Next/Legal.antt =====
-- What a service asks of itself is possible: `next` and the restart strategy.
use horust.Prelude.{
  ◌<◌, ◌≤◌, ◌↔◌, not, subst, ◌≡◌, ◌≢◌, refl, ◌⊎◌, inl, inr, Bool, true, false, Option, none, some,
  List, [], ◌∷◌, arith,
}
use horust.Prelude.Tests.{if◌then◌else◌}
use horust.Prelude.Lists.{All}
use horust.Prelude.Panic.{◌>>=◌}
use horust.Formats.Status.{
  ServiceStatus, started, running, in_killing, success, finished, finished_failed, failed, initial,
}
use horust.Formats.Service.{RestartStrategy, always, on_failure, never}
use horust.Formats.Event.{
  Event, status_update, status_changed, force_kill, ShuttingDown, LifecycleStatus, shutting_down,
}
use horust.Supervisor.ServiceHandler.{
  ServiceHandler, Instant, sh_name, change_status, restart_attempts_are_over, should_force_kill,
  handle_restart_strategy, has_some_failed_healthchecks, kill_events,
}
use horust.Supervisor.Repo.{Repo, is_service_runnable}
use horust.Supervisor.Next.{
  next, next_events, next_events_shutting_down, has_too_many_failures, events_at, stopping_at,
  may_stop,
}

-- The event is about the service, and it can be obeyed: an update of the status is a change that is
-- allowed, a run wants a service that was not started, a kill one that is on its way to be stopped.
abbrev pub Obeyable : ServiceHandler → Event → Type 0
Obeyable sh (status_update name s) =
    (name ≡ sh_name sh) × (s ≢ sh.status) × ((change_status sh s).0.status ≡ s)
Obeyable sh (Event.run name) = (name ≡ sh_name sh) × (sh.status ≡ initial)
Obeyable sh (Event.kill name) =
    (name ≡ sh_name sh) × ((change_status sh in_killing).0.status ≡ in_killing)
Obeyable sh (force_kill name) = (name ≡ sh_name sh) × (sh.status ≡ in_killing)
Obeyable sh (status_changed name s) = (name ≡ sh_name sh) × (s ≡ failed) × (sh.status ≡ in_killing)
Obeyable sh _ = ⊥

-- What the restart strategy asks for, by its cases.
abbrev pub wanted : RestartStrategy → Bool → Bool → ServiceStatus
wanted always is_failed over = initial
wanted on_failure true over = initial
wanted on_failure false over = finished
wanted never true true = finished_failed
wanted never true false = initial
wanted never false over = finished

-- What is asked for is one of the table, and a status that the service may change to.
handle_restart_strategy-wanted :
    (sh : ServiceHandler) (is_failed : Bool)
    → sh.status ≡ (if is_failed then failed else success)
    → let s = wanted sh.service.restart.strategy is_failed (restart_attempts_are_over sh) in
      (handle_restart_strategy sh is_failed ≡ status_update (sh_name sh) s)
      × ((change_status sh s).0.status ≡ s)
unfolding handle_restart_strategy change_status
handle_restart_strategy-wanted sh is_failed h = (ground arith, ground arith)

-- The service is to run again: its strategy is `always`, or it has failed and its strategy is
-- `on_failure`, or `never` with attempts that are left.
abbrev pub IsRestarted : ServiceHandler → Bool → Type 0
IsRestarted sh is_failed =
    (sh.service.restart.strategy ≡ always)
    ⊎ ((sh.service.restart.strategy ≡ on_failure) × (is_failed ≡ true))
    ⊎ ((sh.service.restart.strategy ≡ never)
        × (is_failed ≡ true)
        × (0 < sh.service.restart.attempts)
        × (sh.restart_attempts ≤ sh.service.restart.attempts))

-- It has failed for good: its strategy is `never`, and it has no attempts or has made more.
abbrev pub IsGivenUp : ServiceHandler → Bool → Type 0
IsGivenUp sh is_failed =
    (sh.service.restart.strategy ≡ never)
    × (is_failed ≡ true)
    × ((sh.service.restart.attempts ≡ 0) ⊎ (sh.service.restart.attempts < sh.restart_attempts))

-- It has ended well, and its strategy is not `always`.
abbrev pub IsDone : ServiceHandler → Bool → Type 0
IsDone sh is_failed = (is_failed ≡ false) × (sh.service.restart.strategy ≢ always)

-- A service that has ended asks for exactly one status, to which it may change: to start anew if its
-- strategy is `always`, if it has failed and it is `on_failure`, or if it has failed, it is `never` and
-- there are attempts, not exceeded by those made; to be failed for good if it has failed with `never` and
-- there are none or more were made; and to be finished if it has not failed and the strategy is another
-- than `always`.
pub handle_restart_strategy_lem :
    (sh : ServiceHandler) (is_failed : Bool)
    → sh.status ≡ (if is_failed then failed else success)
    → (s : ServiceStatus) × (handle_restart_strategy sh is_failed ≡ status_update (sh_name sh) s)
      × ((change_status sh s).0.status ≡ s)
      × (s ≡ initial ↔ IsRestarted sh is_failed)
      × (s ≡ finished_failed ↔ IsGivenUp sh is_failed)
      × (s ≡ finished ↔ IsDone sh is_failed)
handle_restart_strategy_lem sh is_failed h =
    let (asks, fits) = handle_restart_strategy-wanted sh is_failed h in
    (
      wanted sh.service.restart.strategy is_failed (restart_attempts_are_over sh),
      asks,
      fits,
      ground arith,
      ground arith,
      ground arith,
    )

-- The two events that stop a service are obeyable where it is starting, started or running.
kill_events-Obeyable :
    (sh : ServiceHandler)
    → (sh.status ≡ started) ⊎ (sh.status ≡ running)
    → All (Obeyable sh) (kill_events (sh_name sh))
unfolding change_status
kill_events-Obeyable sh h = ((refl, ground arith, ground arith), ((refl, ground arith), tt))

module _ (sh : ServiceHandler) {evs : List Event} where
  -- The events are these ones, or these or none by a test.
  these : (xs : List Event) → some xs ≡ some evs → All (Obeyable sh) xs → All (Obeyable sh) evs
  these xs e h = let p : xs ≡ evs = cc in subst (All (Obeyable sh)) p h

  these_if :
      (b : Bool) (xs : List Event)
      → some (if b then xs else []) ≡ some evs
      → (b ≡ true → All (Obeyable sh) xs)
      → All (Obeyable sh) evs
  these_if true xs e h = these xs e (h refl)
  these_if false xs e h = these [] e tt

  these_bind :
      (m : Option Bool) (xs : List Event)
      → (m >>= λ b. some (if b then xs else [])) ≡ some evs
      → All (Obeyable sh) xs
      → All (Obeyable sh) evs
  these_bind none xs e h = cc
  these_bind (some b) xs e h = these_if b xs e (λ _. h)

running-Obeyable :
    (now : Instant) (repo : Repo) (sh : ServiceHandler) (status : ServiceStatus) {evs : List Event}
    → sh.status ≡ status
    → status ≢ failed
    → events_at status now repo sh ≡ some evs
    → All (Obeyable sh) evs
unfolding events_at change_status
running-Obeyable now repo sh initial e f h =
    these_bind sh (is_service_runnable repo sh) _ h ((refl, e), tt)
running-Obeyable now repo sh started e f h =
    these_if sh (not (has_some_failed_healthchecks sh)) (status_update (sh_name sh) running ∷ [])
      (ground arith) (λ _. ((refl, ground arith, ground arith), tt))
running-Obeyable now repo sh running e f h =
    these_if sh (has_too_many_failures sh) _ h (λ _. kill_events-Obeyable sh (inr e))
running-Obeyable now repo sh success e f h =
    let (asks, fits) = handle_restart_strategy-wanted sh false e in
    these sh _ h (rw asks ((refl, ground arith, fits), tt))
running-Obeyable now repo sh in_killing e f h =
    these_if sh (should_force_kill sh none now) _ h (λ _. ((refl, e), ((refl, refl, e), tt)))
running-Obeyable now repo sh failed e f h = absurd (f refl)
running-Obeyable now repo sh _ e f h = these sh [] h tt

stopping-Obeyable :
    (now : Instant) (how : ShuttingDown) (repo : Repo) (sh : ServiceHandler)
    (status : ServiceStatus) {evs : List Event}
    → sh.status ≡ status
    → stopping_at status now how repo sh ≡ some evs
    → All (Obeyable sh) evs
unfolding stopping_at change_status
stopping-Obeyable now how repo sh running e h =
    these_bind sh (may_stop how repo sh) _ h (kill_events-Obeyable sh (inr e))
stopping-Obeyable now how repo sh started e h =
    these_bind sh (may_stop how repo sh) _ h (kill_events-Obeyable sh (inl e))
stopping-Obeyable now how repo sh success e h =
    these sh _ h ((refl, ground arith, ground arith), tt)
stopping-Obeyable now how repo sh initial e h =
    these sh _ h ((refl, ground arith, ground arith), tt)
stopping-Obeyable now how repo sh failed e h = these sh _ h ((refl, ground arith, ground arith), tt)
stopping-Obeyable now how repo sh in_killing e h =
    these_if sh (should_force_kill sh (some how) now) _ h (λ _. ((refl, e), tt))
stopping-Obeyable now how repo sh _ e h = these sh [] h tt

-- While the system runs, a service that has not failed, and while it shuts down any service, sends
-- events about itself only, and each can be obeyed: every change of status that it asks for is a
-- change to another status, and an allowed one.
pub next-Obeyable :
    (now : Instant) (sh : ServiceHandler) (repo : Repo) (life : LifecycleStatus) {evs : List Event}
    → (sh.status ≡ failed → life ≢ LifecycleStatus.running)
    → next now sh repo life ≡ some evs
    → All (Obeyable sh) evs
unfolding next next_events next_events_shutting_down
next-Obeyable now sh repo LifecycleStatus.running f h =
    running-Obeyable now repo sh sh.status refl (λ e. f e refl) h
next-Obeyable now sh repo (shutting_down how) f h =
    stopping-Obeyable now how repo sh sh.status refl h
