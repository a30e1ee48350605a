-- ===== src/Supervisor/Next/Progress.antt =====
-- Services that wait for one another get to start and to stop, unless they wait in a circle.
use horust.Prelude.{ℕ, ◌≡◌, refl, ap, ◌∙◌, ◌⊎◌, inl, inr, true, some, List, [], ◌∷◌, arith}
use horust.Prelude.Tests.{Bool-cases, String_eq}
use horust.Prelude.Lists.{All, All-In, In}
use horust.Prelude.Panic.{◌>>=◌}
use horust.Formats.Status.{
  ServiceStatus, initial, starting, started, running, in_killing, success, failed, finished,
  finished_failed,
}
use horust.Formats.Service.{ServiceName}
use horust.Formats.Event.{Event, status_update, LifecycleStatus, shutting_down, gracefully}
use horust.Supervisor.ServiceHandler.{ServiceHandler, Instant, sh_name}
use horust.Supervisor.Repo.{Repo, get_sh, is_service_runnable, is_service_killable}
use horust.Supervisor.Repo.Lowest.{IsOrdered, open-Lowest}
use horust.Supervisor.Repo.Readiness.{
  IsTerminal, is_service_killable_iff, IsKnown, StatusIn, IsReady, is_service_runnable_iff,
  is_service_runnable_total,
}
use horust.Supervisor.Next.{
  next, next_events, events_at, next_events_shutting_down, stopping_at, stop_events, may_stop,
}

-- Each service has not started yet, or runs, or has finished with success.
abbrev pub IsStarting : Repo → Type 0
IsStarting repo =
    (n : ServiceName) (d : ServiceHandler)
    → get_sh repo n ≡ some d
    → (d.status ≡ initial) ⊎ IsReady d.status

-- A service that waits for no other.
abbrev pub IsDue : Repo → Type 0
IsDue repo =
    (n : ServiceName) × (d : ServiceHandler) × (get_sh repo n ≡ some d)
    × (d.status ≡ initial)
    × ((now : Instant)
        → next now d repo LifecycleStatus.running ≡ some (Event.run (sh_name d) ∷ []))

runnable-next :
    (repo : Repo) (d : ServiceHandler)
    → is_service_runnable repo d ≡ some true
    → d.status ≡ initial
    → (now : Instant) → next now d repo LifecycleStatus.running ≡ some (Event.run (sh_name d) ∷ [])
unfolding next next_events events_at
runnable-next repo d h e now =
    let runs : events_at initial now repo d ≡ some (Event.run (sh_name d) ∷ []) =
      rw (h, ◌>>=◌) refl in
    ap (λ (status : ServiceStatus). events_at status now repo d) e ∙ runs

-- The start makes progress: where the services start after one another without a circle, and each
-- runs, has finished with success or has not started yet, then as long as some service has not
-- started there is one that asks to be run at once.
pub initial-IsDue :
    (level : ServiceName → ℕ) (repo : Repo) (n : ServiceName) (d : ServiceHandler)
    → IsOrdered (λ sh. sh.service.start_after) level repo
    → IsStarting repo
    → get_sh repo n ≡ some d
    → d.status ≡ initial
    → IsDue repo
initial-IsDue level repo n d ordered up e i =
    let (m, x, f, j, ready) =
      open-Lowest (λ s. s ≡ initial) IsReady (λ sh. sh.service.start_after) level repo ordered up n
        d e i in
    (m, x, f, j, runnable-next repo x ((is_service_runnable_iff repo x).1 (j, ready)) j)

-- A service that has not ended, and does not wait for another: its process is being spawned or
-- stopped, or it asks for its next step at any time.
abbrev pub IsMoving : Repo → Type 0
IsMoving repo =
    (n : ServiceName) × (d : ServiceHandler) × (get_sh repo n ≡ some d)
    × ((d.status ≡ starting)
        ⊎ (d.status ≡ in_killing)
        ⊎ ((ev : Event) × (evs : List Event) × ((now : Instant)
              → next now d repo (shutting_down gracefully) ≡ some (ev ∷ evs))))

-- What a service that may be stopped asks for in a graceful shutdown.
killable-next :
    (repo : Repo) (d : ServiceHandler) (status : ServiceStatus)
    → is_service_killable repo d ≡ some true
    → d.status ≡ status
    → ¬ IsTerminal status
    → (status ≡ starting)
      ⊎ (status ≡ in_killing)
      ⊎ ((ev : Event) × (evs : List Event) × ((now : Instant)
            → stopping_at status now gracefully repo d ≡ some (ev ∷ evs)))
unfolding stopping_at stop_events may_stop
killable-next repo d starting h e t = inl refl
killable-next repo d in_killing h e t = inr (inl refl)
killable-next repo d running h e t = inr (
    inr (
      status_update (sh_name d) in_killing,
      Event.kill (sh_name d) ∷ [],
      λ now. rw (h, ◌>>=◌) refl,
    ))
killable-next repo d started h e t = inr (
    inr (
      status_update (sh_name d) in_killing,
      Event.kill (sh_name d) ∷ [],
      λ now. rw (h, ◌>>=◌) refl,
    ))
killable-next repo d success h e t = inr (inr (_, _, λ now. refl))
killable-next repo d initial h e t = inr (inr (_, _, λ now. refl))
killable-next repo d failed h e t = inr (inr (_, _, λ now. refl))
killable-next repo d finished h e t = absurd (t (inl refl))
killable-next repo d finished_failed h e t = absurd (t (inr refl))

IsTerminal-cases : (s : ServiceStatus) → (¬ IsTerminal s) ⊎ IsTerminal s
IsTerminal-cases finished = inr (inl refl)
IsTerminal-cases finished_failed = inr (inr refl)
IsTerminal-cases _ = inl (λ t. ground arith)

-- A graceful shutdown makes progress: where the services shut down after one another without a
-- circle, then as long as some service has not ended there is one whose process is being spawned or
-- stopped, or that asks for its next step at once.
pub shutdown-IsMoving :
    (level : ServiceName → ℕ) (repo : Repo) (n : ServiceName) (d : ServiceHandler)
    → IsOrdered (λ sh. sh.service.shutdown_after) level repo
    → get_sh repo n ≡ some d
    → ¬ IsTerminal d.status
    → IsMoving repo
unfolding next next_events_shutting_down
shutdown-IsMoving level repo n d ordered e i =
    let (m, x, f, j, done) =
      open-Lowest (λ s. ¬ IsTerminal s) IsTerminal (λ sh. sh.service.shutdown_after) level repo
        ordered (λ k y g. IsTerminal-cases y.status) n d e i in
    (m, x, f, killable-next repo x x.status ((is_service_killable_iff repo x).1 done) refl j)

-- Services that wait for one another in a circle: each has not started yet, and starts after another
-- of them, though the services that it starts after are known.
abbrev pub IsStuck : (ServiceName → Type 0) → Repo → Type 0
IsStuck C repo =
    (n : ServiceName) (d : ServiceHandler)
    → C n
    → get_sh repo n ≡ some d
    → (d.status ≡ initial)
      × All (IsKnown repo) d.service.start_after
      × ((m : ServiceName) × In m d.service.start_after × C m)

unready : (s : ServiceStatus) → s ≡ initial → ¬ IsReady s
unready s e r = ground arith

-- While the system runs, services that wait for one another in a circle ask for nothing: each has not
-- started yet, and starts after one of them.
pub next-IsStuck :
    (C : ServiceName → Type 0) (repo : Repo) (n : ServiceName) (d : ServiceHandler) (now : Instant)
    → IsStuck C repo
    → C n
    → get_sh repo n ≡ some d
    → next now d repo LifecycleStatus.running ≡ some []
unfolding next next_events events_at
next-IsStuck C repo n d now stuck c e =
    let (i, known, (m, at, c')) = stuck n d c e in
    let (b, f) = is_service_runnable_total repo d known in
    elim (Bool-cases b) [
      | inl free ↦
          let g : is_service_runnable repo d ≡ some true = f ∙ ap some free in
          let ready = ((is_service_runnable_iff repo d).0 g).1 in
          let (x, found, r) = All-In (StatusIn IsReady repo) d.service.start_after ready at in
          absurd (unready x.status (stuck m x c' found).0 r)
      | inr shut ↦
          let none_yet : events_at initial now repo d ≡ some [] = rw (f, ◌>>=◌) (rw shut refl) in
          ap (λ (status : ServiceStatus). events_at status now repo d) i ∙ none_yet
    ]
