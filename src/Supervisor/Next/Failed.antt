-- ===== src/Supervisor/Next/Failed.antt =====
-- Whom a failed service takes with it.
use horust.Prelude.{
  ◌≡◌, ◌↔◌, refl, sym, subst, ◌⊎◌, inl, inr, Bool, true, some, List, [], ◌∷◌, ◌++◌, arith,
}
use horust.Prelude.Tests.{Bool-cases, String_eq}
use horust.Prelude.Lists.{
  In, In-cons, here, there, In-append, In-append_left, In-append_right, In-flat_map,
  In-flat_map_inv, filter, flat_map, contains,
}
use horust.Prelude.HashMap.{HashMap, keys}
use horust.Formats.Status.{failed, in_killing}
use horust.Formats.Service.{ServiceName, FailureStrategy, shutdown, kill_dependents, ignore}
use horust.Formats.Event.{Event, status_update, LifecycleStatus}
use horust.Supervisor.ServiceHandler.{
  ServiceHandler, Instant, sh_name, kill_events, handle_restart_strategy, handle_failed_service,
  failed_service_events,
}
use horust.Supervisor.Repo.{Repo, get_dependents, get_die_if_failed}
use horust.Supervisor.Next.{next, next_events, failed_events}

-- An entry of the repository under this name, for which the test holds.
abbrev pub Entry :
    (ServiceHandler → Bool) → HashMap ServiceName ServiceHandler → ServiceName → Type 0
Entry p m n = (d : ServiceHandler) × In (n, d) m × (p d ≡ true)

module _ (p : ServiceHandler → Bool) where
  abbrev chosen : HashMap ServiceName ServiceHandler → List ServiceName
  chosen m = keys (filter (λ entry. p entry.1) m)

  In-chosen :
      (m : HashMap ServiceName ServiceHandler) (n : ServiceName) → In n (chosen m) → Entry p m n
  In-chosen [] n i = elim i [ ]
  In-chosen ((k, d) ∷ m) n i = elim (Bool-cases (p d)) [
    | inr e ↦ let (x, j, h) = In-chosen m n (rw e at i) in (x, there j, h)
    | inl e ↦ elim (In-cons (rw e at i)) [
      | inl q ↦ (d, rw q here, e)
      | inr i' ↦ let (x, j, h) = In-chosen m n i' in (x, there j, h)
    ]
  ]

  chosen-In :
      {n : ServiceName} {d : ServiceHandler} {m : HashMap ServiceName ServiceHandler}
      → In (n, d) m
      → p d ≡ true
      → In n (chosen m)
  chosen-In here h = rw h here
  chosen-In (there {x = x} i) h = elim (Bool-cases (p x.1)) [
    | inl e ↦ rw e (there (chosen-In i h))
    | inr e ↦ rw e (chosen-In i h)
  ]

-- The kill events of some services stop those and no others.
kill-kill_events :
    {n : ServiceName} (names : List ServiceName)
    → In (Event.kill n) (flat_map kill_events names)
    → In n names
kill-kill_events {n} names i =
    let (m, j, k) = In-flat_map_inv kill_events names i in
    subst (λ (x : ServiceName). In x names) (sym (one k)) j
  where
    one : {m : ServiceName} → In (Event.kill n) (kill_events m) → n ≡ m
    one {m} k = elim (In-cons k) [
      | inl e ↦ cc
      | inr k' ↦ elim (In-cons k') [ inl e ↦ cc | inr k'' ↦ elim k'' [ ] ]
    ]

-- A service that the failed one takes with it.
abbrev pub Doomed : Repo → ServiceHandler → ServiceName → Type 0
Doomed repo sh n =
    ((sh.service.failure.strategy ≡ kill_dependents)
      × Entry (λ d. contains d.service.start_after (sh_name sh)) repo.services n)
    ⊎ Entry (λ d. contains d.service.termination.die_if_failed (sh_name sh)) repo.services n

kill-failed_service :
    (f : FailureStrategy) (names : List ServiceName) {n : ServiceName}
    → In (Event.kill n) (failed_service_events f names)
    → (f ≡ kill_dependents) × In n names
kill-failed_service shutdown names i = elim (In-cons i) [ inl e ↦ cc | inr j ↦ elim j [ ] ]
kill-failed_service kill_dependents names i = (refl, kill-kill_events names i)
kill-failed_service ignore names i = elim i [ ]

failed_service-In :
    (f : FailureStrategy) (names : List ServiceName) {n : ServiceName} {ev : Event}
    → f ≡ kill_dependents
    → In n names
    → In ev (kill_events n)
    → In ev (failed_service_events f names)
failed_service-In shutdown names e i k = cc
failed_service-In kill_dependents names e i k = In-flat_map kill_events i k
failed_service-In ignore names e i k = cc

-- A stop event is one of the two events that stop the service.
Doomed-In :
    (repo : Repo) (sh : ServiceHandler) (n : ServiceName) {ev : Event}
    → Doomed repo sh n
    → In ev (kill_events n)
    → In ev (failed_events repo sh)
unfolding failed_events handle_failed_service get_dependents get_die_if_failed
Doomed-In repo sh n (inl (e, (d, i, h))) k = In-append_left _ (
    failed_service-In sh.service.failure.strategy _ e
      (chosen-In (λ x. contains x.service.start_after (sh_name sh)) i h) k)
Doomed-In repo sh n (inr (d, i, h)) k =
    In-append_right
      (failed_service_events sh.service.failure.strategy (get_dependents repo (sh_name sh)))
      (there (
        In-flat_map kill_events
          (chosen-In (λ x. contains x.service.termination.die_if_failed (sh_name sh)) i h) k))

kill-Doomed :
    (repo : Repo) (sh : ServiceHandler) (n : ServiceName)
    → In (Event.kill n) (failed_events repo sh)
    → Doomed repo sh n
unfolding failed_events handle_failed_service get_dependents get_die_if_failed
    handle_restart_strategy
kill-Doomed repo sh n i =
    elim (In-append
      (failed_service_events sh.service.failure.strategy (get_dependents repo (sh_name sh))) _ i) [
        | inl j ↦
            let (e, k) =
              kill-failed_service sh.service.failure.strategy (get_dependents repo (sh_name sh))
                j in
            inl (e, In-chosen (λ x. contains x.service.start_after (sh_name sh)) repo.services n k)
        | inr j ↦ elim (In-cons j) [
          | inl e ↦ cc
          | inr k ↦ inr (
              In-chosen (λ x. contains x.service.termination.die_if_failed (sh_name sh))
                repo.services n (kill-kill_events (get_die_if_failed repo (sh_name sh)) k))
        ]
      ]

-- Somewhere among the events is the request to stop the service, and right after it the kill.
pub data Asked (n : ServiceName) : List Event → Type 0 where
  asks : {evs : List Event} → Asked n (status_update n in_killing ∷ Event.kill n ∷ evs)
  later : {ev : Event} {evs : List Event} → Asked n evs → Asked n (ev ∷ evs)

Asked-append_left :
    {n : ServiceName} {xs : List Event} (ys : List Event) → Asked n xs → Asked n (xs ++ ys)
Asked-append_left ys asks = asks
Asked-append_left ys (later a) = later (Asked-append_left ys a)

Asked-append_right :
    {n : ServiceName} (xs : List Event) {ys : List Event} → Asked n ys → Asked n (xs ++ ys)
Asked-append_right [] a = a
Asked-append_right (x ∷ xs) a = later (Asked-append_right xs a)

kill_events-Asked :
    {n : ServiceName} {names : List ServiceName} → In n names → Asked n (flat_map kill_events names)
kill_events-Asked here = asks
kill_events-Asked (there i) = later (later (kill_events-Asked i))

failed_service-Asked :
    (f : FailureStrategy) {names : List ServiceName} {n : ServiceName}
    → f ≡ kill_dependents
    → In n names
    → Asked n (failed_service_events f names)
failed_service-Asked shutdown e i = cc
failed_service-Asked kill_dependents e i = kill_events-Asked i
failed_service-Asked ignore e i = cc

Doomed-Asked :
    (repo : Repo) (sh : ServiceHandler) (n : ServiceName)
    → Doomed repo sh n
    → Asked n (failed_events repo sh)
unfolding failed_events handle_failed_service get_dependents get_die_if_failed
Doomed-Asked repo sh n (inl (e, (d, i, h))) = Asked-append_left _ (
    failed_service-Asked sh.service.failure.strategy e
      (chosen-In (λ x. contains x.service.start_after (sh_name sh)) i h))
Doomed-Asked repo sh n (inr (d, i, h)) =
    Asked-append_right
      (failed_service_events sh.service.failure.strategy (get_dependents repo (sh_name sh)))
      (later (
        kill_events-Asked
          (chosen-In (λ x. contains x.service.termination.die_if_failed (sh_name sh)) i h)))

-- While the system runs, a failed service kills exactly the services that die with it: those that name
-- it as a service with which they die, and, if its failure strategy is to kill the dependents, those
-- that start after it. For each of them the kill comes right after a request to change its status to the
-- one in which it is stopped.
pub next-failed_kill_iff :
    (now : Instant) (repo : Repo) (sh : ServiceHandler) (n : ServiceName) {evs : List Event}
    → sh.status ≡ failed
    → next now sh repo LifecycleStatus.running ≡ some evs
    → (In (Event.kill n) evs ↔ Doomed repo sh n) × (Doomed repo sh n → Asked n evs)
unfolding next next_events
next-failed_kill_iff now repo sh n {evs} st h =
    let e : failed_events repo sh ≡ evs = ground arith in
    (
      (
        λ i. kill-Doomed repo sh n (subst (In (Event.kill n)) (sym e) i),
        λ d. subst (In (Event.kill n)) e (Doomed-In repo sh n d (there here)),
      ),
      λ d. subst (Asked n) e (Doomed-Asked repo sh n d),
    )
