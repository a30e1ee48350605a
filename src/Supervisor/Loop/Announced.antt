-- ===== src/Supervisor/Loop/Announced.antt =====
-- What the supervisor sends announces statuses of its services only.
pub mod Commands
use horust.Prelude.{
  ◌≡◌, ◌≢◌, refl, sym, subst, ap, ◌∙◌, inl, inr, Bool, true, false, Option, none, some, List, [],
  ◌∷◌, ◌++◌, map, arith,
}
use horust.Prelude.Tests.{Bool-cases, String_eq, Nat_eq, Option-cases}
use horust.Prelude.Lists.{All, All-map, All-append, In, filter_map, take}
use horust.Prelude.HashMap.{get-In}
use horust.Prelude.Panic.{◌>>=◌, >>=-eq-some}
use horust.Formats.Service.{Service, ServiceName}
use horust.Formats.Event.{
  Event, pid_changed, status_update, status_changed, service_exited, force_kill, spawn_failed,
  shutting_down_initiated, health_check, gracefully, forcefully, LifecycleStatus, shutting_down,
  Pid,
}
use horust.Healthcheck.Host.{Host}
use horust.Supervisor.Handler.Change.{prepare-cases}
use horust.Supervisor.ServiceHandler.{ServiceHandler, Instant, is_initial}
use horust.Supervisor.Repo.{Repo, get_sh, get_service_by_pid, all_have_finished}
use horust.Supervisor.Repo.Readiness.{IsKnown}
use horust.Supervisor.Reaper.{
  WaitStatus, exited, signaled, other, error, killed_code, reap_one, reap,
}
use horust.Supervisor.Handler.{
  Supervisor, on_exited, on_run, on_spawn_failed, on_kill, on_force_kill, on_pid_changed,
  on_health_check, on_shutting_down, on_status_update, handle_event,
}
use horust.Supervisor.Handler.Change.{Touches-get_inv, handle_event-Touches}
use horust.Supervisor.Handler.Sound.{IsSound, handle_event-IsSound}
use horust.Supervisor.Handler.Announced.{Announces, handle_event-IsAnnounced}
use horust.Supervisor.Next.Announced.{next_entries-Announces}
use horust.Supervisor.Loop.{
  Round, max_process_reaps_iters, send, interrupted, sigterm_at, on_sigterm, handle_all, next_all,
  send_all, round, going, run,
}

sent-handle_event :
    (host : Host) (now : Instant) (s : Supervisor) (ev : Event) {s' : Supervisor} {evs : List Event}
    → handle_event host now s ev ≡ some (s', evs)
    → s'.repo.sent ≡ s.repo.sent
unfolding handle_event on_exited on_run on_spawn_failed on_kill on_force_kill on_pid_changed
    on_health_check on_shutting_down on_status_update
sent-handle_event host now s (service_exited name code) h = ground arith
sent-handle_event host now s (Event.run name) h =
    let (sh, e, h') = >>=-eq-some (get_sh s.repo name) _ h in
    elim (prepare-cases host s sh) [
      | inl f ↦ ground arith
      | inr (inl (parsed, f)) ↦ ground arith
      | inr (inr (parsed, f)) ↦ ground arith
    ]
sent-handle_event host now s (spawn_failed name) h = ground arith
sent-handle_event host now s (Event.kill name) h = ground arith
sent-handle_event host now s (force_kill name) h = ground arith
sent-handle_event host now s (pid_changed name pid) h = ground arith
sent-handle_event host now s (health_check name v) h = ground arith
sent-handle_event host now s (shutting_down_initiated how) h = ground arith
sent-handle_event host now s (status_update name next) h = ground arith
sent-handle_event host now s (status_changed name status) h = ground arith

Announces-map :
    (J K : ServiceName → Type 0)
    → ((n : ServiceName) → J n → K n)
    → (ev : Event) → Announces J ev
    → Announces K ev
Announces-map J K f (status_changed n x) h = f n h
Announces-map J K f _ h = tt

module _ (K : ServiceName → Type 0) where
  -- The supervisor has no other services, and has announced statuses of these only.
  abbrev pub Keeps : Supervisor → Type 0
  Keeps s = IsSound s × ((n : ServiceName) → IsKnown s.repo n → K n) × All (Announces K) s.repo.sent

  send_all-Keeps :
      (s : Supervisor) (evs : List Event) → Keeps s → All (Announces K) evs → Keeps (send_all s evs)
  send_all-Keeps s [] k h = k
  send_all-Keeps s (ev ∷ evs) (sound, known, sent) h =
      send_all-Keeps (send s ev) evs
        (sound, known, All-append (Announces K) s.repo.sent (ev ∷ []) sent (h.0, tt)) h.1

  event-Keeps :
      (host : Host) (now : Instant) (s : Supervisor) (ev : Event) {s' : Supervisor}
      {evs : List Event}
      → handle_event host now s ev ≡ some (s', evs)
      → Keeps s
      → Keeps s' × All (Announces K) evs
  event-Keeps host now s ev h (sound, known, sent) = (
    (
      handle_event-IsSound host now s ev h sound,
      λ n (d', at).
          let (d, f, c) = Touches-get_inv (handle_event-Touches host now s ev h) n d' at in
          known n (d, f),
      subst (All (Announces K)) (sym (sent-handle_event host now s ev h)) sent,
    ),
    All-map _ _ (Announces-map (IsKnown s.repo) K known) _
        (handle_event-IsAnnounced host now s ev sound h),
  )

  handle_all-Keeps :
      (host : Host) (evs : List (Instant × Event)) (s : Supervisor) {s' : Supervisor}
      {out : List Event}
      → handle_all host evs s ≡ some (s', out)
      → Keeps s
      → Keeps s' × All (Announces K) out
  unfolding handle_all
  handle_all-Keeps host [] s {s'} {out} h k =
      let p : s ≡ s' = ground arith in
      let q : [] ≡ out = ground arith in (subst Keeps p k, subst (All (Announces K)) q tt)
  handle_all-Keeps host ((now, ev) ∷ evs) s {s'} {out} h k =
      let ((s₁, xs), e, h₁) = >>=-eq-some (handle_event host now s ev) _ h in
      let ((s₂, ys), f, h₂) = >>=-eq-some (handle_all host evs s₁) _ h₁ in
      let (k₁, a) = event-Keeps host now s ev e k in
      let (k₂, b) = handle_all-Keeps host evs s₁ f k₁ in
      let p : s₂ ≡ s' = ground arith in
      let q : xs ++ ys ≡ out = ground arith in
      (subst Keeps p k₂, subst (All (Announces K)) q (All-append (Announces K) xs ys a b))

  reap-Announces :
      (repo : Repo) (answers : List WaitStatus)
      → All (Announces K) (filter_map (reap_one repo) answers)
  reap-Announces repo [] = tt
  reap-Announces repo (a ∷ answers) = elim (Option-cases (reap_one repo a)) [
    | inl e ↦ rw (e, filter_map) (reap-Announces repo answers)
    | inr (ev, e) ↦ rw (e, filter_map) (one a ev e, reap-Announces repo answers)
  ]
    where
      one : (a : WaitStatus) (ev : Event) → reap_one repo a ≡ some ev → Announces K ev
      one (exited p code) ev e =
          let (name, f, g) = >>=-eq-some (get_service_by_pid repo p) _ e in
          let same : service_exited name code ≡ ev = ground arith in subst (Announces K) same tt
      one (signaled p) ev e =
          let (name, f, g) = >>=-eq-some (get_service_by_pid repo p) _ e in
          let same : service_exited name killed_code ≡ ev = ground arith in
          subst (Announces K) same tt
      one other ev e = absurd (ground arith)
      one error ev e = absurd (ground arith)

  sigterm_at-Keeps :
      (life : LifecycleStatus) (b : Bool) (s : Supervisor) → Keeps s → Keeps (sigterm_at life b s)
  unfolding sigterm_at
  sigterm_at-Keeps LifecycleStatus.running true s k =
      send_all-Keeps s (shutting_down_initiated gracefully ∷ []) k (tt, tt)
  sigterm_at-Keeps LifecycleStatus.running false s k = k
  sigterm_at-Keeps (shutting_down gracefully) true s k =
      send_all-Keeps s (shutting_down_initiated forcefully ∷ []) k (tt, tt)
  sigterm_at-Keeps (shutting_down gracefully) false s k = k
  sigterm_at-Keeps (shutting_down forcefully) b s k = k

  round-Keeps :
      (r : Round) (s : Supervisor) {s' : Supervisor} → round r s ≡ some s' → Keeps s → Keeps s'
  unfolding round on_sigterm next_all reap
  round-Keeps r s {s'} h k =
      let ((s₁, out), e, h₁) = >>=-eq-some (handle_all r.host r.received (on_sigterm s)) _ h in
      let (evs, f, h₂) = >>=-eq-some (next_all r.now s₁) _ h₁ in
      let (k₁, a) =
        handle_all-Keeps r.host r.received (on_sigterm s) e
          (sigterm_at-Keeps s.status s.system.sigterm_received s k) in
      let (sound, known, sent) = k₁ in
      let b =
        next_entries-Announces K r.now s₁.repo s₁.status s₁.repo.services
          (λ n d i.
            let at = get-In s₁.repo.services n d sound.0 i in
            subst K (sym (sound.1 n d at).0) (known n (d, at)))
          f in
      let reaped = reap s₁.repo max_process_reaps_iters r.answers in
      let all =
        All-append (Announces K) (out ++ evs) reaped (All-append (Announces K) out evs a b)
          (reap-Announces s₁.repo (take max_process_reaps_iters r.answers)) in
      let same : interrupted r.sigterm (send_all s₁ (out ++ evs ++ reaped)) ≡ s' = ground arith in
      subst Keeps same (send_all-Keeps s₁ (out ++ evs ++ reaped) k₁ all)

  pub run-Keeps :
      (getpid : Pid) (rs : List Round) (s : Supervisor) {s' : Supervisor}
      → run getpid rs s ≡ some (going s')
      → Keeps s
      → Keeps s'
  unfolding run
  run-Keeps getpid [] s {s'} h k = let same : s ≡ s' = ground arith in subst Keeps same k
  run-Keeps getpid (r ∷ rs) s {s'} h k = elim (Bool-cases (all_have_finished s.repo)) [
    | inl e ↦ absurd (ground arith)
    | inr e ↦
        let g : (round r s >>= run getpid rs) ≡ some (going s') = ground arith in
        let (s₁, f, h₁) = >>=-eq-some (round r s) (run getpid rs) g in
        run-Keeps getpid rs s₁ h₁ (round-Keeps r s f k)
  ]
