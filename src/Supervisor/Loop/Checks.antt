-- ===== src/Supervisor/Loop/Checks.antt =====
-- What becomes of a failed health check while events are handled.
use horust.Prelude.{
  ℕ, suc, ◌+◌, ◌<◌, ◌≤◌, ◌≡◌, subst, ◌∙◌, inl, inr, true, some, List, [], ◌∷◌, arith,
}
use horust.Prelude.Lists.{length}
use horust.Prelude.Int.{pos}
use horust.Prelude.Panic.{>>=-eq-some}
use horust.Formats.Status.{ServiceStatus, started}
use horust.Formats.Service.{ServiceName}
use horust.Formats.Event.{Event, HealthinessStatus, LifecycleStatus}
use horust.Healthcheck.Host.{Host}
use horust.Supervisor.ServiceHandler.{ServiceHandler, Instant, has_some_failed_healthchecks}
use horust.Supervisor.ServiceHandler.Transitions.{change_status_frame}
use horust.Supervisor.ServiceHandler.Healthchecks.{counted, add_healthcheck_event_lem}
use horust.Supervisor.Repo.{Repo, get_sh}
use horust.Supervisor.Next.{next}
use horust.Supervisor.Next.Started.{next_started_unhealthy}
use horust.Supervisor.Handler.{Supervisor, exited_sh, exited_status, handle_event}
use horust.Supervisor.Loop.{handle_all}
use horust.Supervisor.Handler.Change.{
  Change, requested, exits, starts, unprepared, unspawned, asked, killed, up, up_too_late, checked,
  Touches-get, handle_event-Touches,
}

counted_le : (s : ServiceStatus) (h : HealthinessStatus) → counted s h ≤ 1
counted_le s h = ground arith

Change-failed_check :
    {ev : Event} {n : ServiceName} {d d' : ServiceHandler}
    → Change ev n d d'
    → (k : ℕ) → d.healthiness_checks_failed ≡ some (pos (suc k))
    → suc k < 2147483647
    → (j : ℕ) × (d'.healthiness_checks_failed ≡ some (pos (suc j))) × (j ≤ suc k)
Change-failed_check {d = d} (requested next e) k h b =
    (k, (change_status_frame d next).2 ∙ h, omega arith)
Change-failed_check {d = d} (exits code e) k h b =
    (k, (change_status_frame (exited_sh d) (exited_status (exited_sh d) code)).2 ∙ h, omega arith)
Change-failed_check (starts e i) k h b = (k, h, omega arith)
Change-failed_check (unprepared e i) k h b = (k, h, omega arith)
Change-failed_check (unspawned e) k h b = (k, h, omega arith)
Change-failed_check (asked now e i) k h b = (k, h, omega arith)
Change-failed_check (killed e i) k h b = (k, h, omega arith)
Change-failed_check (up p e) k h b = (k, h, omega arith)
Change-failed_check (up_too_late p now e i) k h b = (k, h, omega arith)
Change-failed_check {d = d} (checked v e) k h b = (
  k + counted d.status v,
  ground (arith, (add_healthcheck_event_lem d (suc k) v (inr h) b).0),
  omega (arith, counted_le d.status v),
)

event-failed_check :
    (host : Host) (now : Instant) (s : Supervisor) (ev : Event) (n : ServiceName)
    (d : ServiceHandler) (k : ℕ) {s' : Supervisor} {evs : List Event}
    → handle_event host now s ev ≡ some (s', evs)
    → get_sh s.repo n ≡ some d
    → d.healthiness_checks_failed ≡ some (pos (suc k))
    → suc k < 2147483647
    → (d' : ServiceHandler) × (j : ℕ) × (get_sh s'.repo n ≡ some d')
      × (d'.healthiness_checks_failed ≡ some (pos (suc j)))
      × (j ≤ suc k)
event-failed_check host now s ev n d k h g f b =
    let (d', g', c) = Touches-get (handle_event-Touches host now s ev h) n d g in
    elim c [
      | inl e ↦ (d', k, g', rw e f, omega arith)
      | inr c' ↦ let (j, f', le) = Change-failed_check c' k f b in (d', j, g', f', le)
    ]

all-failed_check :
    (host : Host) (evs : List (Instant × Event)) (s : Supervisor) (n : ServiceName)
    (d : ServiceHandler) (k : ℕ) {s' : Supervisor} {out : List Event}
    → handle_all host evs s ≡ some (s', out)
    → get_sh s.repo n ≡ some d
    → d.healthiness_checks_failed ≡ some (pos (suc k))
    → suc k + length evs < 2147483648
    → (d' : ServiceHandler) × (j : ℕ) × (get_sh s'.repo n ≡ some d')
      × (d'.healthiness_checks_failed ≡ some (pos (suc j)))
unfolding handle_all
all-failed_check host [] s n d k {s'} h g f b =
    let same : s ≡ s' = ground arith in
    (d, k, subst (λ (x : Supervisor). get_sh x.repo n ≡ some d) same g, f)
all-failed_check host ((now, ev) ∷ evs) s n d k {s'} h g f b =
    let ((s₁, p), e, h₁) = >>=-eq-some (handle_event host now s ev) _ h in
    let ((s₂, q), e₂, h₂) = >>=-eq-some (handle_all host evs s₁) _ h₁ in
    let (d₁, j, g₁, f₁, le) = event-failed_check host now s ev n d k e g f (omega arith) in
    let (d₂, i, g₂, f₂) = all-failed_check host evs s₁ n d₁ j e₂ g₁ f₁ (omega arith) in
    let same : s₂ ≡ s' = ground arith in
    (d₂, i, subst (λ (x : Supervisor). get_sh x.repo n ≡ some d₂) same g₂, f₂)

-- Once a health check of a service has failed, no sequence of events, short of the largest `i32`,
-- clears that, the end and the restart of its process included: from then on, whenever the service is
-- started, it sends nothing while the system runs, so it is never asked to become running.
pub handle_all-failed_check :
    (host : Host) (evs : List (Instant × Event)) (s : Supervisor) (n : ServiceName)
    (d : ServiceHandler) (k : ℕ) {s' : Supervisor} {out : List Event}
    → handle_all host evs s ≡ some (s', out)
    → get_sh s.repo n ≡ some d
    → d.healthiness_checks_failed ≡ some (pos (suc k))
    → suc k + length evs < 2147483648
    → (d' : ServiceHandler) × (get_sh s'.repo n ≡ some d')
      × (has_some_failed_healthchecks d' ≡ true)
      × ((now : Instant) (repo : Repo)
          → d'.status ≡ started
          → next now d' repo LifecycleStatus.running ≡ some [])
handle_all-failed_check host evs s n d k h g f b =
    let (d', j, g', f') = all-failed_check host evs s n d k h g f b in
    let bad : has_some_failed_healthchecks d' ≡ true = ground arith in
    (d', g', bad, λ now repo st. next_started_unhealthy now d' repo st bad)
