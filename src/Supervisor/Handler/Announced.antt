-- ===== src/Supervisor/Handler/Announced.antt =====
-- The statuses that are announced are those of known services.
use horust.Prelude.{◌≡◌, subst, inl, inr, Bool, true, false, some, List, [], ◌∷◌, arith}
use horust.Prelude.Tests.{◌==◌, if◌then◌else◌, Bool-cases, String_eq}
use horust.Prelude.Lists.{All}
use horust.Prelude.Int.{ℤ}
use horust.Prelude.Panic.{>>=-eq-some}
use horust.Formats.Status.{Status_eq, ServiceStatus, starting, finished_failed}
use horust.Formats.Service.{ServiceName}
use horust.Formats.Event.{
  Event, pid_changed, status_update, status_changed, service_exited, force_kill, spawn_failed,
  shutting_down_initiated, health_check, Pid, HealthinessStatus, gracefully,
}
use horust.Healthcheck.Host.{Host}
use horust.Supervisor.Handler.Change.{prepare-cases}
use horust.Supervisor.ServiceHandler.{Instant, sh_name, is_initial, is_in_killing, change_status}
use horust.Supervisor.Repo.{Repo, get_sh}
use horust.Supervisor.Repo.Readiness.{IsKnown}
use horust.Supervisor.Handler.{
  Supervisor, on_exited, on_run, on_spawn_failed, on_kill, on_force_kill, on_pid_changed,
  on_health_check, on_shutting_down, on_status_update, handle_event,
}
use horust.Supervisor.Handler.Sound.{IsSound}

-- A status is announced of one of these services only.
abbrev pub Announces : (ServiceName → Type 0) → Event → Type 0
Announces K (status_changed n x) = K n
Announces K _ = Unit {0}

abbrev pub IsAnnounced : Repo → Event → Type 0
IsAnnounced repo = Announces (IsKnown repo)

module _ (s : Supervisor) {s' : Supervisor} {evs : List Event} where
  -- What one of two outcomes produces.
  those :
      (m : Supervisor × List Event)
      → some m ≡ some (s', evs)
      → All (IsAnnounced s.repo) m.1
      → All (IsAnnounced s.repo) evs
  those m e h = let same : m.1 ≡ evs = ground arith in subst (All (IsAnnounced s.repo)) same h

  those_if :
      (b : Bool) (m m' : Supervisor × List Event)
      → some (if b then m else m') ≡ some (s', evs)
      → All (IsAnnounced s.repo) m.1
      → All (IsAnnounced s.repo) m'.1
      → All (IsAnnounced s.repo) evs
  those_if true m m' e h h' = those m e h
  those_if false m m' e h h' = those m' e h'

  module _ (name : ServiceName) where
    status_update-IsAnnounced :
        (next : ServiceStatus)
        → on_status_update s name next ≡ some (s', evs)
        → All (IsAnnounced s.repo) evs
    unfolding on_status_update
    status_update-IsAnnounced next h =
        let (sh, e, h') = >>=-eq-some (get_sh s.repo name) _ h in
        those_if ((change_status sh next).1 == sh.status) _ _ h' tt ((sh, e), tt)

    exited-IsAnnounced :
        (code : ℤ) → on_exited s name code ≡ some (s', evs) → All (IsAnnounced s.repo) evs
    unfolding on_exited
    exited-IsAnnounced code h =
        let (sh, e, h') = >>=-eq-some (get_sh s.repo name) _ h in
        let (p, f, h'') = >>=-eq-some sh.pid _ h' in those _ h'' ((sh, e), tt)

    kill-IsAnnounced :
        (now : Instant) → on_kill now s name ≡ some (s', evs) → All (IsAnnounced s.repo) evs
    unfolding on_kill
    kill-IsAnnounced now h = let (sh, e, h') = >>=-eq-some (get_sh s.repo name) _ h in those _ h' tt

    force_kill-IsAnnounced :
        IsSound s → on_force_kill s name ≡ some (s', evs) → All (IsAnnounced s.repo) evs
    unfolding on_force_kill
    force_kill-IsAnnounced (distinct, each) h =
        let (sh, e, h') = >>=-eq-some (get_sh s.repo name) _ h in
        let named : sh_name sh ≡ name = (each name sh e).0 in
        those_if (is_in_killing sh) _ _ h' (rw named (sh, e), tt) tt

    spawn_failed-IsAnnounced :
        on_spawn_failed s name ≡ some (s', evs) → All (IsAnnounced s.repo) evs
    unfolding on_spawn_failed
    spawn_failed-IsAnnounced h =
        let (sh, e, h') = >>=-eq-some (get_sh s.repo name) _ h in those _ h' (tt, tt)

    health_check-IsAnnounced :
        (verdict : HealthinessStatus)
        → on_health_check s name verdict ≡ some (s', evs)
        → All (IsAnnounced s.repo) evs
    unfolding on_health_check
    health_check-IsAnnounced verdict h =
        let (sh, e, h') = >>=-eq-some (get_sh s.repo name) _ h in those _ h' tt

    pid_changed-IsAnnounced :
        (now : Instant) (p : Pid)
        → on_pid_changed now s name p ≡ some (s', evs)
        → All (IsAnnounced s.repo) evs
    unfolding on_pid_changed
    pid_changed-IsAnnounced now p h =
        let (sh, e, h') = >>=-eq-some (get_sh s.repo name) _ h in
        those_if (is_in_killing sh) _ _ h' tt ((sh, e), tt)

    run-IsAnnounced :
        (host : Host) → on_run host s name ≡ some (s', evs) → All (IsAnnounced s.repo) evs
    unfolding on_run
    run-IsAnnounced host h =
        let (sh, e, h') = >>=-eq-some (get_sh s.repo name) _ h in
        elim (Bool-cases (is_initial sh)) [
          | inr q ↦ those (s, []) (ground arith) tt
          | inl q ↦ elim (prepare-cases host s sh) [
            | inl f ↦ absurd (ground arith)
            | inr (inl (parsed, f)) ↦
                let same : status_changed name starting ∷ [] ≡ evs = ground arith in
                subst (All (IsAnnounced s.repo)) same ((sh, e), tt)
            | inr (inr (parsed, f)) ↦
                let same : status_update (sh_name sh) finished_failed
                      ∷ shutting_down_initiated gracefully
                      ∷ []
                    ≡ evs =
                  ground arith in
                subst (All (IsAnnounced s.repo)) same (tt, (tt, tt))
          ]
        ]

-- Every event that is handled announces statuses of known services only.
pub handle_event-IsAnnounced :
    (host : Host) (now : Instant) (s : Supervisor) (ev : Event) {s' : Supervisor} {evs : List Event}
    → IsSound s
    → handle_event host now s ev ≡ some (s', evs)
    → All (IsAnnounced s.repo) evs
unfolding handle_event
handle_event-IsAnnounced host now s (service_exited name code) k h =
    exited-IsAnnounced s name code h
handle_event-IsAnnounced host now s (Event.run name) k h = run-IsAnnounced s name host h
handle_event-IsAnnounced host now s (spawn_failed name) k h = spawn_failed-IsAnnounced s name h
handle_event-IsAnnounced host now s (Event.kill name) k h = kill-IsAnnounced s name now h
handle_event-IsAnnounced host now s (force_kill name) k h = force_kill-IsAnnounced s name k h
handle_event-IsAnnounced host now s (pid_changed name pid) k h =
    pid_changed-IsAnnounced s name now pid h
handle_event-IsAnnounced host now s (health_check name v) k h = health_check-IsAnnounced s name v h
handle_event-IsAnnounced host now s (shutting_down_initiated how) k h =
    those s _ h (unfold on_shutting_down in tt)
handle_event-IsAnnounced host now s (status_update name next) k h =
    status_update-IsAnnounced s name next h
handle_event-IsAnnounced host now s (status_changed name status) k h = those s _ h tt
