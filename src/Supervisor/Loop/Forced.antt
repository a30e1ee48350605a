-- ===== src/Supervisor/Loop/Forced.antt =====
-- The events that a forced shutdown takes in one round bring the services nearer to their end.
pub mod Rounds
pub mod Shutdown
use horust.Prelude.{
  ℕ, zero, suc, ◌<◌, ◌≤◌, ◌≡◌, refl, sym, subst, ap, ◌∙◌, inl, inr, true, false, Option, none, some,
  List, [], ◌∷◌, ◌++◌, map, arith,
}
use horust.Prelude.Tests.{Bool-cases, String_eq}
use horust.Prelude.Lists.{All, In, In-cons, here, there, length, drop}
use horust.Prelude.Panic.{◌>>=◌}
use horust.Formats.Service.{ServiceName}
use horust.Formats.Event.{Event, forcefully, shutting_down}
use horust.Healthcheck.Host.{Host}
use horust.Supervisor.ServiceHandler.{ServiceHandler, Instant}
use horust.Supervisor.Repo.{get_sh}
use horust.Supervisor.Handler.{Supervisor, handle_event}
use horust.Supervisor.Handler.Stopping.{rank, ask, rank-cases, asked-Lowers}
use horust.Supervisor.Handler.Admissible.{
  IsForced, IsAdmissible, handle_event-IsHandled, handle_event-IsForced, handle_event-Falls, Falls,
}
use horust.Supervisor.Loop.{handle_all}

-- What holds of the result, if there is no panic.
abbrev pub After {ℓ κ} : {A : Type ℓ} → Option A → (A → Type κ) → Type κ
After none P = Unit
After (some a) P = P a

-- Each event is admissible when it is handled.
abbrev pub AllAdmissible : Host → List (Instant × Event) → Supervisor → Type 0
AllAdmissible host [] s = Unit
AllAdmissible host ((now, ev) ∷ evs) s =
    IsAdmissible s ev × After (handle_event host now s ev) (λ r. AllAdmissible host evs r.0)

abbrev pub events : List (Instant × Event) → List Event
events evs = map (λ e. e.1) evs

-- Each service is no further from its end, and a service whose request is among the events is nearer.
abbrev pub Descends : List Event → Supervisor → Supervisor → Type 0
Descends evs s s' =
    (n : ServiceName) (d' : ServiceHandler)
    → get_sh s'.repo n ≡ some d'
    → (d : ServiceHandler) × (get_sh s.repo n ≡ some d)
      × (rank d'.status ≤ rank d.status)
      × ((ev : Event) → ask n d.status ≡ some ev → In ev evs → rank d'.status < rank d.status)

Descends-cons :
    (host : Host) (now : Instant) (s s₁ s₂ : Supervisor) (ev : Event) (evs : List Event)
    {out : List Event}
    → handle_event host now s ev ≡ some (s₁, out)
    → Falls s s₁
    → Descends evs s₁ s₂
    → Descends (ev ∷ evs) s s₂
Descends-cons host now s s₁ s₂ ev evs h falls rest n d₂ g₂ =
    let (d₁, g₁, le₂, strict) = rest n d₂ g₂ in
    let (d, g, le₁) = falls n d₁ g₁ in
    (
      d,
      g,
      omega arith,
      λ x a i. elim (rank-cases n d₁.status d.status le₁ a) [
        | inl lt ↦ omega arith
        | inr same ↦ elim (In-cons i) [
          | inl e ↦
              let (d', g', lt) = asked-Lowers host now s n d g ev (a ∙ ap some e) h in
              let found : d₁ ≡ d' = ground arith in
              let level : rank d₁.status ≡ rank d'.status =
                ap (λ (x : ServiceHandler). rank x.status) found in
              omega arith
          | inr later ↦ let lt = strict x (rw same a) later in omega arith
        ]
      ],
    )

-- The state in which a list of events leaves a forced shutdown.
abbrev pub IsLeft : Host → List (Instant × Event) → Supervisor → Supervisor → Type 0
IsLeft host evs s s' = IsForced s' × (s'.repo.sent ≡ s.repo.sent) × Descends (events evs) s s'

pub handle_all-IsLeft :
    (host : Host) (evs : List (Instant × Event)) (s : Supervisor)
    → IsForced s
    → AllAdmissible host evs s
    → (s' : Supervisor) × (out : List Event) × (handle_all host evs s ≡ some (s', out))
      × IsLeft host evs s s'
unfolding handle_all
handle_all-IsLeft host [] s forced a =
    (s, [], refl, (forced, refl, λ n d g. (d, g, omega arith, λ ev q i. elim i [ ])))
handle_all-IsLeft host ((now, ev) ∷ evs) s forced (a, rest) =
    let (s₁, out₁, h, life, kept) = handle_event-IsHandled s forced.0 host now ev a in
    let forced₁ = handle_event-IsForced host now s ev h a forced life in
    let rest₁ : AllAdmissible host evs s₁ =
      subst (λ (m : Option (Supervisor × List Event)). After m (λ r. AllAdmissible host evs r.0)) h
        rest in
    let (s₂, out₂, h₂, (forced₂, kept₂, falls)) = handle_all-IsLeft host evs s₁ forced₁ rest₁ in
    (
      s₂,
      out₁ ++ out₂,
      rw (h, ◌>>=◌) (rw (h₂, ◌>>=◌) refl),
      (
        forced₂,
        kept₂ ∙ kept,
        Descends-cons host now s s₁ s₂ ev (events evs) h
            (handle_event-Falls host now s ev h a forced) falls,
      ),
    )
