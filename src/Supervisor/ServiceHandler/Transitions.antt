-- ===== src/Supervisor/ServiceHandler/Transitions.antt =====
-- The transitions of a service: what a request to change the status does, against a description of
-- a service's life that does not mention the code's table.
use horust.Prelude.{◌≡◌, ◌≢◌, ◌⊎◌, arith}
use horust.Formats.Status.{
  ServiceStatus, starting, started, running, in_killing, success, finished, finished_failed, failed,
  initial,
}
use horust.Supervisor.ServiceHandler.{ServiceHandler, change_status}

-- The steps that a service's life may take.
pub data Edge : ServiceStatus → ServiceStatus → Type 0 where
  spawn : Edge initial starting
  never_ran : Edge initial finished
  skip : Edge initial success
  got_pid : Edge starting started
  healthy : Edge started running
  stop : {s : ServiceStatus} → (s ≡ starting) ⊎ (s ≡ started) ⊎ (s ≡ running) → Edge s in_killing
  exit :
      {s t : ServiceStatus}
      → (s ≡ starting) ⊎ (s ≡ started) ⊎ (s ≡ running) ⊎ (s ≡ in_killing)
      → (t ≡ success) ⊎ (t ≡ failed)
      → Edge s t
  give_up :
      {s : ServiceStatus}
      → (s ≡ starting) ⊎ (s ≡ started) ⊎ (s ≡ in_killing) ⊎ (s ≡ failed)
      → Edge s finished_failed
  done : Edge success finished
  again : {s : ServiceStatus} → (s ≡ success) ⊎ (s ≡ failed) → Edge s initial

ruleset edges = (spawn, never_ran, skip, got_pid, healthy, stop, exit, give_up, done, again)

-- Whatever status is requested, the service keeps its status or takes one step of its life, and the
-- status that is reported is the one that it has.
pub change_status-Edge :
    (sh : ServiceHandler) (next : ServiceStatus)
    → (((change_status sh next).0.status ≡ sh.status)
        ⊎ Edge sh.status (change_status sh next).0.status)
      × ((change_status sh next).1 ≡ (change_status sh next).0.status)
unfolding change_status
change_status-Edge sh next = (grind (arith, edges), ground arith)

-- The request that leads along a step: a service that never ran is skipped by a request to kill it.
abbrev pub request : ServiceStatus → ServiceStatus → ServiceStatus
request initial success = in_killing
request _ t = t

-- Each step of a service's life is taken when it is requested.
pub Edge-change_status :
    {s t : ServiceStatus}
    → Edge s t
    → (sh : ServiceHandler) → sh.status ≡ s
    → (change_status sh (request s t)).0.status ≡ t
unfolding change_status
Edge-change_status spawn sh e = ground arith
Edge-change_status never_ran sh e = ground arith
Edge-change_status skip sh e = ground arith
Edge-change_status got_pid sh e = ground arith
Edge-change_status healthy sh e = ground arith
Edge-change_status (stop h) sh e = ground arith
Edge-change_status (exit h k) sh e = ground arith
Edge-change_status (give_up h) sh e = ground arith
Edge-change_status done sh e = ground arith
Edge-change_status (again h) sh e = ground arith

-- A change of status touches nothing else, but that the attempts to restart are counted from 0
-- again when the service becomes started.
pub change_status_frame :
    (sh : ServiceHandler) (next : ServiceStatus)
    → let sh' = (change_status sh next).0 in
      (sh'.service ≡ sh.service)
      × (sh'.pid ≡ sh.pid)
      × (sh'.healthiness_checks_failed ≡ sh.healthiness_checks_failed)
      × (sh'.shutting_down_start ≡ sh.shutting_down_start)
      × ((sh'.restart_attempts ≡ sh.restart_attempts)
          ⊎ ((sh.status ≡ starting) × (sh'.status ≡ started) × (sh'.restart_attempts ≡ 0)))
unfolding change_status
change_status_frame sh next = (ground arith, ground arith, ground arith, ground arith, ground arith)

-- A finished service stays as it is, whatever status is requested.
pub change_status_terminal :
    (sh : ServiceHandler) (next : ServiceStatus)
    → (sh.status ≡ finished) ⊎ (sh.status ≡ finished_failed)
    → (change_status sh next).0 ≡ sh
unfolding change_status
change_status_terminal sh next h = ground arith

-- The attempts are kept by every request but that to become started.
pub restart_attempts-change_status :
    (sh : ServiceHandler) (next : ServiceStatus)
    → next ≢ started
    → (change_status sh next).0.restart_attempts ≡ sh.restart_attempts
unfolding change_status
restart_attempts-change_status sh next h = ground arith
