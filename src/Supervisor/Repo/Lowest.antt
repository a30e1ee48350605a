-- ===== src/Supervisor/Repo/Lowest.antt =====
-- Services that wait for one another without a circle: one of them waits for none of the others.
use horust.Prelude.{ℕ, zero, suc, ◌<◌, ◌≡◌, ◌⊎◌, inl, inr, some, List, [], ◌∷◌, arith}
use horust.Prelude.Tests.{String_eq}
use horust.Prelude.Lists.{All}
use horust.Formats.Status.{ServiceStatus}
use horust.Formats.Service.{ServiceName}
use horust.Supervisor.ServiceHandler.{ServiceHandler}
use horust.Supervisor.Repo.{Repo, get_sh}
use horust.Supervisor.Repo.Readiness.{IsKnown, StatusIn}

-- The services that a service waits for are known and of a lower level: it waits neither directly nor
-- through others for itself.
abbrev pub IsOrdered : (ServiceHandler → List ServiceName) → (ServiceName → ℕ) → Repo → Type 0
IsOrdered waits level repo =
    (n : ServiceName) (d : ServiceHandler)
    → get_sh repo n ≡ some d
    → All (λ m. IsKnown repo m × (level m < level n)) (waits d)

module _ (Open Done : ServiceStatus → Type 0) (waits : ServiceHandler → List ServiceName)
    (level : ServiceName → ℕ) (repo : Repo) (ordered : IsOrdered waits level repo)
    (split : (n : ServiceName) (d : ServiceHandler)
      → get_sh repo n ≡ some d
      → Open d.status ⊎ Done d.status) where
  -- A service that is open, and waits only for services that are done.
  abbrev pub Lowest : Type 0
  Lowest =
      (n : ServiceName) × (d : ServiceHandler) × (get_sh repo n ≡ some d)
      × Open d.status
      × All (StatusIn Done repo) (waits d)

  waits-cases :
      (k : ℕ) (names : List ServiceName)
      → All (λ m. IsKnown repo m × (level m < k)) names
      → All (StatusIn Done repo) names ⊎ ((m : ServiceName) × StatusIn Open repo m × (level m < k))
  waits-cases k [] h = inl tt
  waits-cases k (m ∷ ms) (((d, e), lt), h) = elim (split m d e) [
    | inl waiting ↦ inr (m, (d, e, waiting), lt)
    | inr done ↦ elim (waits-cases k ms h) [
      | inl rest ↦ inl ((d, e, done), rest)
      | inr found ↦ inr found
    ]
  ]

  below-Lowest :
      (bound : ℕ) (n : ServiceName) (d : ServiceHandler)
      → get_sh repo n ≡ some d
      → Open d.status
      → level n < bound
      → Lowest
  below-Lowest zero n d e i lt = absurd (omega arith)
  below-Lowest (suc bound) n d e i lt = elim (waits-cases (level n) (waits d) (ordered n d e)) [
    | inl done ↦ (n, d, e, i, done)
    | inr (m, (x, f, j), lower) ↦ below-Lowest bound m x f j (omega arith)
  ]

  pub open-Lowest :
      (n : ServiceName) (d : ServiceHandler) → get_sh repo n ≡ some d → Open d.status → Lowest
  open-Lowest n d e i = below-Lowest (suc (level n)) n d e i (omega arith)
