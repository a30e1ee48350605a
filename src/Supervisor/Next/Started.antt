-- ===== src/Supervisor/Next/Started.antt =====
-- A started service becomes running when it is healthy.
use horust.Prelude.{◌≡◌, true, false, some, [], ◌∷◌}
use horust.Formats.Status.{started, running}
use horust.Formats.Event.{status_update, LifecycleStatus}
use horust.Supervisor.ServiceHandler.{
  ServiceHandler, Instant, sh_name, has_some_failed_healthchecks,
}
use horust.Supervisor.Repo.{Repo}
use horust.Supervisor.Next.{next, next_events, events_at}

module _ (now : Instant) (sh : ServiceHandler) (repo : Repo) (st : sh.status ≡ started) where
  pub next_started_unhealthy :
      has_some_failed_healthchecks sh ≡ true → next now sh repo LifecycleStatus.running ≡ some []
  unfolding next next_events
  next_started_unhealthy h = rw (st, events_at) (rw h)

  pub next_started_healthy :
      has_some_failed_healthchecks sh ≡ false
      → next now sh repo LifecycleStatus.running ≡ some (status_update (sh_name sh) running ∷ [])
  unfolding next next_events
  next_started_healthy h = rw (st, events_at) (rw h)
