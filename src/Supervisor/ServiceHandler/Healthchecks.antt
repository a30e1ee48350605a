-- ===== src/Supervisor/ServiceHandler/Healthchecks.antt =====
-- How the verdicts of the health checker are counted: add_healthcheck_event.
use horust.Prelude.{ℕ, ◌+◌, ◌<◌, ◌≡◌, refl, ◌⊎◌, Option, none, some, arith}
use horust.Prelude.Int.{ℤ, pos}
use horust.Formats.Status.{ServiceStatus, starting, started, running}
use horust.Formats.Event.{HealthinessStatus, unhealthy}
use horust.Supervisor.ServiceHandler.{ServiceHandler, add_healthcheck_event}

-- The count is `n`; before the first verdict there is none, which stands for 0.
abbrev pub IsCount : ℕ → Option ℤ → Type 0
IsCount n o = ((o ≡ none) × (n ≡ 0)) ⊎ (o ≡ some (pos n))

-- A verdict counts if it is bad and the service has been started and has not ended.
abbrev pub counted : ServiceStatus → HealthinessStatus → ℕ
counted starting unhealthy = 1
counted started unhealthy = 1
counted running unhealthy = 1
counted _ _ = 0

-- Below the largest `i32`, a verdict adds one to the count exactly if it is unhealthy and the service
-- is starting, started or running, and otherwise leaves the count as it is, so no verdict lowers it.
-- Nothing else of the service changes.
pub add_healthcheck_event_lem :
    (sh : ServiceHandler) (n : ℕ) (check : HealthinessStatus)
    → IsCount n sh.healthiness_checks_failed
    → n < 2147483647
    → let sh' = add_healthcheck_event sh check in
      (sh'.healthiness_checks_failed ≡ some (pos (n + counted sh.status check)))
      × (sh'.status ≡ sh.status)
      × (sh'.service ≡ sh.service)
      × (sh'.pid ≡ sh.pid)
      × (sh'.restart_attempts ≡ sh.restart_attempts)
      × (sh'.shutting_down_start ≡ sh.shutting_down_start)
unfolding add_healthcheck_event
add_healthcheck_event_lem sh n check h b = (ground arith, refl, refl, refl, refl, refl)
