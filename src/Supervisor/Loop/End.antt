-- ===== src/Supervisor/Loop/End.antt =====
-- How the loop ends.
use horust.Prelude.{◌≡◌, ◌↔◌, ap, subst, inl, inr, Bool, true, ◌&&◌, some, List, [], ◌∷◌, arith}
use horust.Prelude.Tests.{Bool-cases}
use horust.Prelude.Lists.{All, In, In-cons, here, there, all, any}
use horust.Prelude.HashMap.{HashMap}
use horust.Prelude.Panic.{◌>>=◌, >>=-eq-some}
use horust.Formats.Status.{finished_failed, Status_eq}
use horust.Formats.Service.{ServiceName}
use horust.Formats.Event.{ExitStatus, some_service_failed, Pid}
use horust.Supervisor.ServiceHandler.{ServiceHandler, is_finished_failed}
use horust.Supervisor.Repo.{is_terminal, all_have_finished, any_finished_failed}
use horust.Supervisor.Repo.Readiness.{IsTerminal, is_terminal_iff}
use horust.Supervisor.Handler.{Supervisor}
use horust.Supervisor.Loop.{Round, round, exit_status, finish, ended, run}

-- Some service has ended in failure.
abbrev pub SomeFailed : HashMap ServiceName ServiceHandler → Type 0
SomeFailed m = (n : ServiceName) × (d : ServiceHandler) × In (n, d) m × (d.status ≡ finished_failed)

and_left : (a b : Bool) → (a && b) ≡ true → a ≡ true
and_left a b h = ground arith

and_right : (a b : Bool) → (a && b) ≡ true → b ≡ true
and_right a b h = ground arith

all-IsTerminal :
    (m : HashMap ServiceName ServiceHandler)
    → all (λ entry. is_terminal entry.1) m ≡ true
    → All (λ entry. IsTerminal entry.1.status) m
all-IsTerminal [] h = tt
all-IsTerminal ((n, d) ∷ m) h =
    ((is_terminal_iff d).0 (and_left _ _ h), all-IsTerminal m (and_right (is_terminal d) _ h))

any-SomeFailed :
    (m : HashMap ServiceName ServiceHandler)
    → (any (λ entry. is_finished_failed entry.1) m ≡ true) ↔ SomeFailed m
any-SomeFailed [] = (λ h. absurd (ground arith), λ (n, d, i, e). elim i [ ])
any-SomeFailed ((n, d) ∷ m) = (
  λ h. elim (Bool-cases (is_finished_failed d)) [
    | inl e ↦ (n, d, here, ground arith)
    | inr e ↦ let (k, x, i, f) = (any-SomeFailed m).0 (ground arith) in (k, x, there i, f)
  ],
  λ (k, x, i, f). elim (In-cons i) [
    | inl e ↦ let same : x ≡ d = ap (λ (y : ServiceName × ServiceHandler). y.1) e in ground arith
    | inr j ↦ let rest = (any-SomeFailed m).1 (k, x, j, f) in ground arith
  ],
)

-- The exit status of services that have all finished, and the state that the loop leaves.
ended_now :
    (getpid : Pid) (s : Supervisor) {status : ExitStatus} {s' : Supervisor}
    → all_have_finished s.repo ≡ true
    → some (ended (exit_status s.repo) (finish getpid s)) ≡ some (ended status s')
    → All (λ entry. IsTerminal entry.1.status) s'.repo.services
      × ((status ≡ some_service_failed) ↔ SomeFailed s'.repo.services)
unfolding finish exit_status all_have_finished any_finished_failed
ended_now getpid s {status} {s'} done h =
    let services : s.repo.services ≡ s'.repo.services = ground arith in
    let at_end : exit_status s.repo ≡ status = ground arith in
    subst
      (λ (m : HashMap ServiceName ServiceHandler).
        All (λ entry. IsTerminal entry.1.status) m
        × ((status ≡ some_service_failed) ↔ SomeFailed m))
      services
      (
        all-IsTerminal s.repo.services done,
        (
          λ e. (any-SomeFailed s.repo.services).0 (ground arith),
          λ f. let found = (any-SomeFailed s.repo.services).1 f in ground arith,
        ),
      )

-- When the loop has ended, every service has finished, successfully or not, and the exit status says
-- whether one has failed.
pub run-ended :
    (getpid : Pid) (rs : List Round) (s : Supervisor) {status : ExitStatus} {s' : Supervisor}
    → run getpid rs s ≡ some (ended status s')
    → All (λ entry. IsTerminal entry.1.status) s'.repo.services
      × ((status ≡ some_service_failed) ↔ SomeFailed s'.repo.services)
unfolding run
run-ended getpid [] s {status} {s'} h = elim (Bool-cases (all_have_finished s.repo)) [
  | inl e ↦ ended_now getpid s {status = status} {s' = s'} e (ground arith)
  | inr e ↦ absurd (ground arith)
]
run-ended getpid (r ∷ rs) s {status} {s'} h = elim (Bool-cases (all_have_finished s.repo)) [
  | inl e ↦ ended_now getpid s {status = status} {s' = s'} e (ground arith)
  | inr e ↦
      let g : (round r s >>= run getpid rs) ≡ some (ended status s') = ground arith in
      let (s₁, f, h₁) = >>=-eq-some (round r s) (run getpid rs) g in run-ended getpid rs s₁ h₁
]
