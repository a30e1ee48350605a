-- ===== src/Supervisor/Loop/Induction.antt =====
-- What every event and every message sent keeps holds throughout the loop.
use horust.Prelude.{◌≡◌, subst, Bool, true, false, some, List, [], ◌∷◌, ◌++◌, inl, inr, arith}
use horust.Prelude.Tests.{Bool-cases}
use horust.Prelude.Panic.{>>=-eq-some}
use horust.Formats.Event.{Event, gracefully, forcefully, LifecycleStatus, shutting_down, Pid}
use horust.Healthcheck.Host.{Host}
use horust.Supervisor.ServiceHandler.{Instant}
use horust.Supervisor.Repo.{all_have_finished}
use horust.Supervisor.Handler.{Supervisor, handle_event}
use horust.Supervisor.Reaper.{reap}
use horust.Supervisor.Loop.{
  Round, max_process_reaps_iters, send, interrupted, sigterm_at, on_sigterm, handle_all, next_all,
  send_all, round, going, run,
}

module _ (P : Supervisor → Type 0)
    (handled : (host : Host) (now : Instant) (s : Supervisor) (ev : Event) (s' : Supervisor)
        (evs : List Event)
      → handle_event host now s ev ≡ some (s', evs)
      → P s
      → P s')
    (sent : (s : Supervisor) (ev : Event) → P s → P (send s ev))
    (signalled : (s : Supervisor) (b : Bool) → P s → P (interrupted b s)) where
  pub handle_all_induction :
      (host : Host) (evs : List (Instant × Event)) (s : Supervisor) {s' : Supervisor}
      {out : List Event}
      → handle_all host evs s ≡ some (s', out)
      → P s
      → P s'
  unfolding handle_all
  handle_all_induction host [] s {s'} h c = let p : s ≡ s' = ground arith in subst P p c
  handle_all_induction host ((now, ev) ∷ evs) s {s'} h c =
      let ((s₁, p), e, h₁) = >>=-eq-some (handle_event host now s ev) _ h in
      let ((s₂, q), f, h₂) = >>=-eq-some (handle_all host evs s₁) _ h₁ in
      let same : s₂ ≡ s' = ground arith in
      subst P same (handle_all_induction host evs s₁ f (handled host now s ev s₁ p e c))

  send_all_induction : (s : Supervisor) (evs : List Event) → P s → P (send_all s evs)
  send_all_induction s [] c = c
  send_all_induction s (ev ∷ evs) c = send_all_induction (send s ev) evs (sent s ev c)

  sigterm_induction :
      (life : LifecycleStatus) (b : Bool) (s : Supervisor) → P s → P (sigterm_at life b s)
  unfolding sigterm_at
  sigterm_induction LifecycleStatus.running true s c = sent s _ c
  sigterm_induction LifecycleStatus.running false s c = c
  sigterm_induction (shutting_down gracefully) true s c = sent s _ c
  sigterm_induction (shutting_down gracefully) false s c = c
  sigterm_induction (shutting_down forcefully) b s c = c

  pub round_induction :
      (r : Round) (s : Supervisor) {s' : Supervisor} → round r s ≡ some s' → P s → P s'
  unfolding round on_sigterm
  round_induction r s {s'} h c =
      let ((s₁, produced), e, h₁) = >>=-eq-some (handle_all r.host r.received (on_sigterm s)) _ h in
      let (next_evs, f, h₂) = >>=-eq-some (next_all r.now s₁) _ h₁ in
      let all = produced ++ next_evs ++ reap s₁.repo max_process_reaps_iters r.answers in
      let same : interrupted r.sigterm (send_all s₁ all) ≡ s' = ground arith in
      subst P same (
        signalled (send_all s₁ all) r.sigterm (
          send_all_induction s₁ all (
            handle_all_induction r.host r.received (on_sigterm s) e
              (sigterm_induction s.status s.system.sigterm_received s c))))

  -- It holds of every state that the loop reaches.
  pub run_induction :
      (getpid : Pid) (rs : List Round) (s : Supervisor) {s' : Supervisor}
      → run getpid rs s ≡ some (going s')
      → P s
      → P s'
  unfolding run
  run_induction getpid [] s {s'} h c = let same : s ≡ s' = ground arith in subst P same c
  run_induction getpid (r ∷ rs) s h c = elim (Bool-cases (all_have_finished s.repo)) [
    | inl e ↦ absurd (ground arith)
    | inr e ↦
        let (s₁, f, h₁) = >>=-eq-some (round r s) (run getpid rs) (ground arith) in
        run_induction getpid rs s₁ h₁ (round_induction r s f c)
  ]
