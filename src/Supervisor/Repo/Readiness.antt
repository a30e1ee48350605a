-- ===== src/Supervisor/Repo/Readiness.antt =====
-- When a service may start or stop: the tests of the repository, against what they mean.
use horust.Prelude.{◌≡◌, refl, ◌⊎◌, ◌↔◌, inl, inr, Bool, true, false, some, List, [], ◌∷◌, arith}
use horust.Prelude.Tests.{Option-cases, Bool-cases, String_eq}
use horust.Prelude.Lists.{All}
use horust.Prelude.Panic.{try_all}
use horust.Formats.Status.{ServiceStatus, running, finished, finished_failed, initial}
use horust.Formats.Service.{ServiceName}
use horust.Supervisor.ServiceHandler.{ServiceHandler, is_initial}
use horust.Supervisor.Repo.{
  Repo, get_sh, is_ready, is_terminal, test_service, is_service_runnable, is_service_killable,
}

-- The service is in the repository.
abbrev pub IsKnown : Repo → ServiceName → Type 0
IsKnown repo name = (d : ServiceHandler) × (get_sh repo name ≡ some d)

abbrev pub StatusIn : (ServiceStatus → Type 0) → Repo → ServiceName → Type 0
StatusIn P repo name = (d : ServiceHandler) × (get_sh repo name ≡ some d) × P d.status

abbrev pub IsReady : ServiceStatus → Type 0
IsReady s = (s ≡ running) ⊎ (s ≡ finished)

abbrev pub IsTerminal : ServiceStatus → Type 0
IsTerminal s = (s ≡ finished) ⊎ (s ≡ finished_failed)

pub is_ready_iff : (d : ServiceHandler) → (is_ready d ≡ true) ↔ IsReady d.status
is_ready_iff d = (λ h. ground arith, λ h. ground arith)

pub is_terminal_iff : (d : ServiceHandler) → (is_terminal d ≡ true) ↔ IsTerminal d.status
is_terminal_iff d = (λ h. ground arith, λ h. ground arith)

module _ (P : ServiceStatus → Type 0) (p : ServiceHandler → Bool)
    (meaning : (d : ServiceHandler) → (p d ≡ true) ↔ P d.status) (repo : Repo) where
  sound :
      (names : List ServiceName)
      → try_all (test_service p repo) names ≡ some true
      → All (StatusIn P repo) names
  sound [] h = tt
  sound (n ∷ ns) h = elim (Option-cases (get_sh repo n)) [
    | inl e ↦ absurd (ground arith)
    | inr (d, e) ↦ elim (Bool-cases (p d)) [
      | inl q ↦ ((d, e, (meaning d).0 q), sound ns (ground arith))
      | inr q ↦ absurd (ground arith)
    ]
  ]

  complete :
      (names : List ServiceName)
      → All (StatusIn P repo) names
      → try_all (test_service p repo) names ≡ some true
  complete [] h = refl
  complete (n ∷ ns) ((d, e, q), h) = ground (arith, (meaning d).1 q, complete ns h)

module _ (p : ServiceHandler → Bool) (repo : Repo) where
  -- With every name known no lookup panics.
  pub try_all_total :
      (names : List ServiceName)
      → All (IsKnown repo) names
      → (b : Bool) × (try_all (test_service p repo) names ≡ some b)
  try_all_total [] h = (true, refl)
  try_all_total (n ∷ ns) h =
      let (d, e) = h.0 in
      let (b, f) = try_all_total ns h.1 in
      elim (Bool-cases (p d)) [ inl q ↦ (b, ground arith) | inr q ↦ (false, ground arith) ]

-- A service is runnable exactly if it has not been started yet and each service that it starts
-- after is known and is running or finished.
pub is_service_runnable_iff :
    (repo : Repo) (sh : ServiceHandler)
    → (is_service_runnable repo sh ≡ some true)
      ↔ ((sh.status ≡ initial) × All (StatusIn IsReady repo) sh.service.start_after)
unfolding is_service_runnable
is_service_runnable_iff repo sh = (
  λ h. (
    ground arith,
    sound IsReady is_ready is_ready_iff repo sh.service.start_after (ground arith),
  ),
  λ h. ground (arith, complete IsReady is_ready is_ready_iff repo sh.service.start_after h.1),
)

-- A service may be stopped in a graceful shutdown exactly if each service that it shuts down after
-- is known and has finished, successfully or not.
pub is_service_killable_iff :
    (repo : Repo) (sh : ServiceHandler)
    → (is_service_killable repo sh ≡ some true)
      ↔ All (StatusIn IsTerminal repo) sh.service.shutdown_after
unfolding is_service_killable
is_service_killable_iff repo sh = (
  sound IsTerminal is_terminal is_terminal_iff repo sh.service.shutdown_after,
  complete IsTerminal is_terminal is_terminal_iff repo sh.service.shutdown_after,
)

pub is_service_runnable_total :
    (repo : Repo) (sh : ServiceHandler)
    → All (IsKnown repo) sh.service.start_after
    → (b : Bool) × (is_service_runnable repo sh ≡ some b)
unfolding is_service_runnable
is_service_runnable_total repo sh h =
    let (b, e) = try_all_total is_ready repo sh.service.start_after h in
    elim (Bool-cases (is_initial sh)) [ inl q ↦ (b, rw q e) | inr q ↦ (false, rw q) ]

pub is_service_killable_total :
    (repo : Repo) (sh : ServiceHandler)
    → All (IsKnown repo) sh.service.shutdown_after
    → (b : Bool) × (is_service_killable repo sh ≡ some b)
unfolding is_service_killable
is_service_killable_total repo sh h = try_all_total is_terminal repo sh.service.shutdown_after h
