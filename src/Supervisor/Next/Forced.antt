-- ===== src/Supervisor/Next/Forced.antt =====
-- What the services ask for in a forced shutdown.
use horust.Prelude.{◌≡◌, refl, subst, ap, inl, inr, true, Option, some, List, [], ◌∷◌, ◌++◌, arith}
use horust.Prelude.Lists.{In, In-cons, here, there, In-append_left, In-append_right}
use horust.Prelude.HashMap.{HashMap}
use horust.Prelude.Panic.{◌>>=◌, try_flat_map}
use horust.Formats.Status.{
  ServiceStatus, started, running, in_killing, success, finished, finished_failed, failed, initial,
}
use horust.Formats.Service.{ServiceName}
use horust.Formats.Event.{Event, status_update, forcefully, shutting_down}
use horust.Supervisor.ServiceHandler.{
  ServiceHandler, Instant, sh_name, kill_events, should_force_kill,
}
use horust.Supervisor.Repo.{Repo}
use horust.Supervisor.Next.{next, next_events_shutting_down, stopping_at}
use horust.Supervisor.Handler.Stopping.{IsStoppable, ask}

In-first {ℓ} : {A : Type ℓ} {x y : A} (xs : List A) → some x ≡ some y → In y (x ∷ xs)
In-first {x = x} {y = y} xs e = let same : x ≡ y = cc in subst (λ z. In z (x ∷ xs)) same here

-- In a forced shutdown a process that is being stopped is killed at once.
should_force_kill-forced :
    (now : Instant) (d : ServiceHandler)
    → IsStoppable d
    → d.status ≡ in_killing
    → should_force_kill d (some forcefully) now ≡ true
unfolding should_force_kill
should_force_kill-forced now d k e = ground arith

-- The events of a service, what it asks for among them.
abbrev Answers : ServiceHandler → ServiceStatus → Option (List Event) → Type 0
Answers d status m =
    (evs : List Event) × (m ≡ some evs)
    × ((ev : Event) → ask (sh_name d) status ≡ some ev → In ev evs)

stopping_at-forced :
    (now : Instant) (repo : Repo) (d : ServiceHandler) (status : ServiceStatus)
    → IsStoppable d
    → d.status ≡ status
    → Answers d status (stopping_at status now forcefully repo d)
unfolding stopping_at
stopping_at-forced now repo d in_killing k e =
    let x = Event.force_kill (sh_name d) in
    (x ∷ [], rw (should_force_kill-forced now d k e) refl, λ ev a. In-first [] a)
stopping_at-forced now repo d running k e =
    (kill_events (sh_name d), refl, λ ev a. In-first (Event.kill (sh_name d) ∷ []) a)
stopping_at-forced now repo d started k e =
    (kill_events (sh_name d), refl, λ ev a. In-first (Event.kill (sh_name d) ∷ []) a)
stopping_at-forced now repo d success k e =
    (status_update (sh_name d) finished ∷ [], refl, λ ev a. In-first [] a)
stopping_at-forced now repo d initial k e =
    (status_update (sh_name d) finished ∷ [], refl, λ ev a. In-first [] a)
stopping_at-forced now repo d failed k e =
    (status_update (sh_name d) finished_failed ∷ [], refl, λ ev a. In-first [] a)
stopping_at-forced now repo d _ k e = ([], refl, λ ev a. absurd (ground arith))

module _ (now : Instant) (repo : Repo) where
  next-Answers :
      (d : ServiceHandler)
      → IsStoppable d
      → Answers d d.status (next now d repo (shutting_down forcefully))
  unfolding next next_events_shutting_down
  next-Answers d k = stopping_at-forced now repo d d.status k refl

  -- The next events of all services are computed without a panic, and what each service asks for is
  -- among them.
  pub next_entries-forced :
      (m : HashMap ServiceName ServiceHandler)
      → ((n : ServiceName) (d : ServiceHandler) → In (n, d) m → IsStoppable d)
      → (evs : List Event) × (try_flat_map
            (λ entry. next now entry.1 repo (shutting_down forcefully))
            m
          ≡ some evs)
        × ((n : ServiceName) (d : ServiceHandler) (ev : Event)
            → In (n, d) m
            → ask (sh_name d) d.status ≡ some ev
            → In ev evs)
  next_entries-forced [] k = ([], refl, λ n d ev i. elim i [ ])
  next_entries-forced ((n, d) ∷ m) k =
      let (xs, e, own) = next-Answers d (k n d here) in
      let (ys, f, others) = next_entries-forced m (λ j x i. k j x (there i)) in
      (
        xs ++ ys,
        rw (e, ◌>>=◌) (rw (f, ◌>>=◌) refl),
        λ j x ev i a. elim (In-cons i) [
          | inl same ↦
              let is : x ≡ d = ap (λ (y : ServiceName × ServiceHandler). y.1) same in
              In-append_left ys (own ev (rw (← is) a))
          | inr later ↦ In-append_right xs (others j x ev later a)
        ],
      )
