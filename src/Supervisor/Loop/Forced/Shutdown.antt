-- ===== src/Supervisor/Loop/Forced/Shutdown.antt =====
-- How a forced shutdown ends: the rounds of the loop, with a bus that brings back what was sent.
use horust.Prelude.{
  ℕ, ◌-◌, ◌≤◌, ◌≡◌, refl, subst, ap, ◌∙◌, ◌⊎◌, inl, inr, true, false, Option, some, List, [], ◌∷◌,
  arith,
}
use horust.Prelude.Tests.{Bool-cases, Option-cases, String_eq}
use horust.Prelude.Lists.{All, All-In, In, length, all_of_In}
use horust.Prelude.HashMap.{get-In}
use horust.Prelude.Panic.{◌>>=◌}
use horust.Formats.Service.{ServiceName}
use horust.Formats.Event.{Event, ExitStatus, Pid}
use horust.Supervisor.ServiceHandler.{ServiceHandler}
use horust.Supervisor.Repo.{get_sh, is_terminal, all_have_finished}
use horust.Supervisor.Repo.Readiness.{IsTerminal}
use horust.Supervisor.Handler.{Supervisor}
use horust.Supervisor.Handler.Stopping.{IsStoppable, rank, ask}
use horust.Supervisor.Handler.Admissible.{IsForced}
use horust.Supervisor.Loop.{Round, round, exit_status, finish, ended, run}
use horust.Supervisor.Loop.End.{run-ended}
use horust.Supervisor.Loop.Forced.{After, AllAdmissible, events}
use horust.Supervisor.Loop.Forced.Rounds.{sent_since, IsAsked, round-IsForced}

-- Each round receives all that the last one has sent, and nothing but what is admissible.
abbrev pub IsServed : Supervisor → List Event → List Round → Type 0
IsServed s pending [] = Unit
IsServed s pending (r ∷ rs) =
    All (λ ev. In ev (events r.received)) pending
    × AllAdmissible r.host r.received s
    × After (round r s) (λ s'. IsServed s' (sent_since s s') rs)

After-eq {ℓ κ} : {A : Type ℓ} (P : A → Type κ) {m : Option A} {a : A} → m ≡ some a → After m P → P a
After-eq P e h = subst (λ m. After m P) e h

-- A service that is not at its end asks for something.
ask-cases :
    (n : ServiceName) (d : ServiceHandler)
    → IsStoppable d
    → (rank d.status ≡ 0) ⊎ ((ev : Event) × (ask n d.status ≡ some ev))
ask-cases n d k = elim (Option-cases (ask n d.status)) [
  | inr found ↦ inr found
  | inl e ↦ inl (ground arith)
]

IsStoppable-rank : (d : ServiceHandler) → IsStoppable d → rank d.status ≤ 6
IsStoppable-rank d k = ground arith

rank-is_terminal : (d : ServiceHandler) → rank d.status ≡ 0 → is_terminal d ≡ true
rank-is_terminal d e = ground arith

-- How far the services are from their end at most.
abbrev Within : ℕ → Supervisor → Type 0
Within k s = (n : ServiceName) (d : ServiceHandler) → get_sh s.repo n ≡ some d → rank d.status ≤ k

all_have_finished-Within :
    (s : Supervisor) → IsForced s → Within 0 s → all_have_finished s.repo ≡ true
unfolding all_have_finished
all_have_finished-Within s (life, distinct, own) h =
    all_of_In (λ entry. is_terminal entry.1) s.repo.services
      (λ (n, d) i.
        let at = get-In s.repo.services n d distinct i in
        rank-is_terminal d (omega (arith, h n d at)))

-- The loop ends.
abbrev Ends : Pid → List Round → Supervisor → Type 0
Ends getpid rs s =
    (status : ExitStatus) × (s' : Supervisor) × (run getpid rs s ≡ some (ended status s'))

-- The loop, one step at a time.
run-done :
    (getpid : Pid) (rs : List Round) (s : Supervisor)
    → all_have_finished s.repo ≡ true
    → run getpid rs s ≡ some (ended (exit_status s.repo) (finish getpid s))
unfolding run
run-done getpid [] s done = rw done
run-done getpid (r ∷ rs) s done = rw (done, run) refl

run-round :
    (getpid : Pid) (r : Round) (rs : List Round) (s : Supervisor) {s' : Supervisor}
    → all_have_finished s.repo ≡ false
    → round r s ≡ some s'
    → run getpid (r ∷ rs) s ≡ run getpid rs s'
unfolding run
run-round getpid r rs s more e =
    let step = ap (λ (m : Option Supervisor). m >>= run getpid rs) e in rw (more, run) step

run-Within :
    (getpid : Pid) (k : ℕ) (rs : List Round) (s : Supervisor) (pending : List Event)
    → IsForced s
    → Within k s
    → IsAsked s pending
    → IsServed s pending rs
    → k ≤ length rs
    → Ends getpid rs s
run-Within getpid k [] s pending forced w asked served le =
    let done = all_have_finished-Within s forced (λ n d at. omega (arith, w n d at)) in
    (exit_status s.repo, finish getpid s, run-done getpid [] s done)
run-Within getpid k (r ∷ rs) s pending forced w asked (all, ok, later) le =
    elim (Bool-cases (all_have_finished s.repo)) [
      | inl done ↦ (exit_status s.repo, finish getpid s, run-done getpid (r ∷ rs) s done)
      | inr more ↦
          let (s', e, forced', falls, asked') = round-IsForced r s forced ok in
          let served' = After-eq (λ (x : Supervisor). IsServed x (sent_since s x) rs) e later in
          let w' : Within (k - 1) s' = λ n d' at'.
            let (d, at, le', strict) = falls n d' at' in
            elim (ask-cases n d (forced.2 n d at).0) [
              | inl zero_rank ↦ omega arith
              | inr (ev, a) ↦
                  let lt =
                    strict ev a
                      (All-In (λ x. In x (events r.received)) pending all (asked n d ev at a)) in
                  omega (arith, w n d at)
            ] in
          let (status, s'', f) =
            run-Within getpid (k - 1) rs s' (sent_since s s') forced' w' asked' served'
              (omega arith) in
          (status, s'', run-round getpid r rs s more e ∙ f)
    ]

-- A forced shutdown ends: from a state in which each service has one entry, under its own name, and
-- where it runs, is started or is being stopped has a process, and none is waiting for its process,
-- the loop ends, without a panic, within seven rounds, and every service has finished, successfully
-- or not. This holds if each round receives all that the last one has sent, and nothing but events
-- that stop a service that is known or tell of it, exits only of services with a process. No process
-- has to end for it.
pub run-forced :
    (getpid : Pid) (rs : List Round) (s : Supervisor)
    → IsForced s
    → IsServed s [] rs
    → 7 ≤ length rs
    → (status : ExitStatus) × (s' : Supervisor) × (run getpid rs s ≡ some (ended status s'))
      × All (λ entry. IsTerminal entry.1.status) s'.repo.services
run-forced getpid [] s forced served le = absurd (omega arith)
run-forced getpid (r ∷ rs) s forced (all, ok, later) le =
    elim (Bool-cases (all_have_finished s.repo)) [
      | inl done ↦
          let e = run-done getpid (r ∷ rs) s done in
          (exit_status s.repo, finish getpid s, e, (run-ended getpid (r ∷ rs) s e).0)
      | inr more ↦
          let (s', e, forced', falls, asked') = round-IsForced r s forced ok in
          let served' = After-eq (λ (x : Supervisor). IsServed x (sent_since s x) rs) e later in
          let (status, s'', f) =
            run-Within getpid 6 rs s' (sent_since s s') forced'
              (λ n d at. IsStoppable-rank d (forced'.2 n d at).0) asked' served' (omega arith) in
          (status, s'', run-round getpid r rs s more e ∙ f, (run-ended getpid rs s' f).0)
    ]
