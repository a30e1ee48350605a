-- ===== src/Supervisor/Handler/Admissible.antt =====
-- The events of a forced shutdown: each is handled, and leaves each service as near to its end.
use horust.Prelude.{
  ◌≤◌, ◌≡◌, ◌≢◌, refl, sym, subst, ap, ◌∙◌, inl, inr, Option, none, some, List, [], arith,
}
use horust.Prelude.Tests.{String_eq}
use horust.Prelude.HashMap.{IsDistinct, insert-IsDistinct}
use horust.Formats.Service.{Service, ServiceName}
use horust.Formats.Event.{
  Event, status_update, status_changed, service_exited, force_kill, shutting_down_initiated,
  health_check, Pid, forcefully, shutting_down,
}
use horust.Healthcheck.Host.{Host}
use horust.Supervisor.ServiceHandler.{ServiceHandler, Instant, sh_name}
use horust.Supervisor.Repo.{get_sh}
use horust.Supervisor.Repo.Readiness.{IsKnown}
use horust.Supervisor.Handler.{
  Supervisor, handle_event, on_status_update, on_force_kill, on_exited, on_kill, on_health_check,
  on_shutting_down,
}
use horust.Supervisor.Handler.Change.{Touches, nothing, one, Touches-get_inv, handle_event-Touches}
use horust.Supervisor.Handler.Config.{Change-service}
use horust.Supervisor.Handler.Stopping.{IsStoppable, IsStop, Stops, rank, Change-Nearer}

-- A service of the repository, by its own name.
abbrev pub IsOwn : Supervisor → ServiceName → ServiceHandler → Type 0
IsOwn s n d = IsStoppable d × (sh_name d ≡ n)

-- The system is shut down by force, each service has one entry, and can be stopped.
abbrev pub IsForced : Supervisor → Type 0
IsForced s =
    (s.status ≡ shutting_down forcefully)
    × IsDistinct s.repo.services
    × ((n : ServiceName) (d : ServiceHandler) → get_sh s.repo n ≡ some d → IsOwn s n d)

-- What may come in during the shutdown: events that stop a service that is known, or tell of it; an
-- exit is that of a service with a process.
abbrev pub IsAdmissible : Supervisor → Event → Type 0
IsAdmissible s (status_update n next) = IsKnown s.repo n × IsStop next
IsAdmissible s (status_changed n next) = Unit
IsAdmissible s (service_exited n code) =
    (d : ServiceHandler) × (p : Pid) × (get_sh s.repo n ≡ some d) × (d.pid ≡ some p)
IsAdmissible s (force_kill n) = IsKnown s.repo n
IsAdmissible s (Event.kill n) = IsKnown s.repo n
IsAdmissible s (health_check n h) = IsKnown s.repo n
IsAdmissible s (shutting_down_initiated how) = how ≡ forcefully
IsAdmissible s _ = ⊥

IsAdmissible-Stops : (s : Supervisor) (ev : Event) → IsAdmissible s ev → Stops ev
IsAdmissible-Stops s (status_update n next) a = a.1
IsAdmissible-Stops s (shutting_down_initiated how) a = a
IsAdmissible-Stops s (status_changed n next) a = tt
IsAdmissible-Stops s (service_exited n code) a = tt
IsAdmissible-Stops s (force_kill n) a = tt
IsAdmissible-Stops s (Event.kill n) a = tt
IsAdmissible-Stops s (health_check n h) a = tt
IsAdmissible-Stops s _ a = elim a [ ]

-- Such an event is handled, and the shutdown stays as it is.
abbrev IsHandled : Supervisor → Option (Supervisor × List Event) → Type 0
IsHandled s m =
    (s' : Supervisor) × (out : List Event) × (m ≡ some (s', out))
    × (s'.status ≡ shutting_down forcefully)
    × (s'.repo.sent ≡ s.repo.sent)

module _ (s : Supervisor) (forced : s.status ≡ shutting_down forcefully) where
  -- A handler that finds its service, and keeps the rest.
  handled :
      (m : Option (Supervisor × List Event))
      → m ≢ none
      → ((s' : Supervisor) (out : List Event)
          → m ≡ some (s', out)
          → (s'.status ≡ s.status) × (s'.repo.sent ≡ s.repo.sent))
      → IsHandled s m
  handled none h k = absurd (h refl)
  handled (some (s', out)) h k = let (a, b) = k s' out refl in (s', out, refl, a ∙ forced, b)

  pub handle_event-IsHandled :
      (host : Host) (now : Instant) (ev : Event)
      → IsAdmissible s ev
      → IsHandled s (handle_event host now s ev)
  unfolding handle_event on_status_update on_exited on_force_kill on_kill on_health_check
      on_shutting_down
  handle_event-IsHandled host now (status_update n next) ((d, e), i) =
      handled (handle_event host now s (status_update n next)) (λ x. ground arith)
        (λ s' out x. (ground arith, ground arith))
  handle_event-IsHandled host now (status_changed n next) a = (s, [], refl, forced, refl)
  handle_event-IsHandled host now (service_exited n code) (d, p, e, f) =
      handled (handle_event host now s (service_exited n code)) (λ x. ground arith)
        (λ s' out x. (ground arith, ground arith))
  handle_event-IsHandled host now (force_kill n) (d, e) =
      handled (handle_event host now s (force_kill n)) (λ x. ground arith)
        (λ s' out x. (ground arith, ground arith))
  handle_event-IsHandled host now (Event.kill n) (d, e) =
      handled (handle_event host now s (Event.kill n)) (λ x. ground arith)
        (λ s' out x. (ground arith, ground arith))
  handle_event-IsHandled host now (health_check n h) (d, e) =
      handled (handle_event host now s (health_check n h)) (λ x. ground arith)
        (λ s' out x. (ground arith, ground arith))
  handle_event-IsHandled host now (shutting_down_initiated how) a =
      (_, _, refl, ap shutting_down a, refl)
  handle_event-IsHandled host now _ a = elim a [ ]

pub Touches-IsDistinct :
    {ev : Event} {s s' : Supervisor}
    → Touches ev s s'
    → IsDistinct s.repo.services
    → IsDistinct s'.repo.services
Touches-IsDistinct (nothing e) d = subst IsDistinct (sym e) d
Touches-IsDistinct {s = s} (one name sh sh' e f c) d =
    subst IsDistinct (sym f) (insert-IsDistinct s.repo.services name sh' d)

-- Each service of the new state was there before, no nearer to its end.
abbrev pub Falls : Supervisor → Supervisor → Type 0
Falls s s' =
    (n : ServiceName) (d' : ServiceHandler)
    → get_sh s'.repo n ≡ some d'
    → (d : ServiceHandler) × (get_sh s.repo n ≡ some d) × (rank d'.status ≤ rank d.status)

module _ (host : Host) (now : Instant) (s : Supervisor) (ev : Event) {s' : Supervisor}
    {out : List Event} (h : handle_event host now s ev ≡ some (s', out)) (a : IsAdmissible s ev)
    (forced : IsForced s) where
  pub handle_event-IsForced : s'.status ≡ shutting_down forcefully → IsForced s'
  handle_event-IsForced e = (
    e,
    Touches-IsDistinct (handle_event-Touches host now s ev h) forced.1,
    λ n d' g.
        let (d, f, c) = Touches-get_inv (handle_event-Touches host now s ev h) n d' g in
        let (k, named) = forced.2 n d f in
        elim c [
          | inl same ↦ subst (IsOwn s' n) (sym same) (k, named)
          | inr ch ↦ (
            (Change-Nearer ch (IsAdmissible-Stops s ev a) k).0,
            ap (λ (x : Service). x.name) (Change-service ch) ∙ named,
          )
        ],
  )

  pub handle_event-Falls : Falls s s'
  handle_event-Falls n d' g =
      let (d, f, c) = Touches-get_inv (handle_event-Touches host now s ev h) n d' g in
      (
        d,
        f,
        elim c [
          | inl same ↦
              let level : rank d'.status ≡ rank d.status =
                ap (λ (x : ServiceHandler). rank x.status) same in
              omega arith
          | inr ch ↦ (Change-Nearer ch (IsAdmissible-Stops s ev a) (forced.2 n d f).0).1
        ],
      )
