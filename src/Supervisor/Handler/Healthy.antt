-- ===== src/Supervisor/Handler/Healthy.antt =====
-- How a started service gets to run: the health checker and the supervisor together.
use horust.Prelude.{Bool, ◌≡◌, refl, ap, ◌∙◌, inl, inr, false, some, List, [], ◌∷◌, ◌++◌, arith}
use horust.Prelude.Tests.{Bool-cases, String_eq}
use horust.Prelude.Lists.{In, here, flat_map, In-append_right, In-flat_map}
use horust.Prelude.HashMap.{insert, remove, get-insert_self}
use horust.Prelude.Panic.{◌>>=◌}
use horust.Formats.Status.{started, running}
use horust.Formats.Service.{Service, ServiceName, has_any_check_defined}
use horust.Formats.Event.{
  Event, status_changed, status_update, health_check, healthy, LifecycleStatus,
}
use horust.Healthcheck.Host.{Host}
use horust.Healthcheck.Checks.{check_health}
use horust.Healthcheck.Workers.{
  Workers, Action, sends, starts, stops, watching, get_service, stop_old, on_event, on_started,
  worker_run,
}
use horust.Healthcheck.Workers as Workers
use horust.Healthcheck.Workers.Watched.{find-name}
use horust.Supervisor.ServiceHandler.{
  ServiceHandler, Instant, sh_name, has_some_failed_healthchecks, add_healthcheck_event,
  change_status,
}
use horust.Supervisor.ServiceHandler.Healthchecks.{IsCount, add_healthcheck_event_lem}
use horust.Supervisor.ServiceHandler.Transitions.{Edge, Edge-change_status, change_status-Edge}
use horust.Supervisor.Repo.{get_sh}
use horust.Supervisor.Next.{next}
use horust.Supervisor.Next.Started.{next_started_healthy}
use horust.Supervisor.Handler.{Supervisor, put_sh, handle_event, on_health_check, on_status_update}

-- What comes of an action: the worker that it starts goes through the given rounds.
abbrev pub answers : List Workers.Round → Action → List Event
answers rounds (sends ev) = ev ∷ []
answers rounds (starts service) = worker_run service rounds
answers rounds (stops m) = []

-- The health checker takes the start of a service, and answers that it is healthy.
abbrev pub IsAnswered : List Service → Workers → ServiceName → List Workers.Round → Type 0
IsAnswered services workers n rounds =
    (workers' : Workers) × (acts : List Action) × ((alive : ServiceName → Bool)
      → on_event alive services workers (status_changed n started) ≡ some (watching workers', acts))
    × In (health_check n healthy) (flat_map (answers rounds) acts)

-- An update of the service to running is taken, and it runs.
abbrev pub Runs : Host → Instant → Supervisor → ServiceName → Type 0
Runs host now s n =
    (s' : Supervisor) × (sh' : ServiceHandler) × (handle_event host now s (status_update n running)
      ≡ some (s', status_changed n running ∷ []))
    × (get_sh s'.repo n ≡ some sh')
    × (sh'.status ≡ running)

-- The answer of the health checker is taken at the first time; then the service asks to run at the
-- second, and runs when that is taken at the third.
abbrev pub GetsToRun : Host → Instant → Instant → Instant → Supervisor → ServiceName → Type 0
GetsToRun host now now' now'' s n =
    (s' : Supervisor) × (sh' : ServiceHandler) × (handle_event host now s (health_check n healthy)
      ≡ some (s', []))
    × (get_sh s'.repo n ≡ some sh')
    × (next now' sh' s'.repo s'.status ≡ some (status_update n running ∷ []))
    × Runs host now'' s' n

worker_run-first :
    (service : Service) (r : Workers.Round) (rs : List Workers.Round)
    → check_health r.host r.parsed service.healthiness ≡ some healthy
    → In (health_check service.name healthy) (worker_run service (r ∷ rs))
unfolding worker_run
worker_run-first service r rs h = elim (Bool-cases r.stop) [
  | inl e ↦ rw (worker_run, h) (rw e here)
  | inr e ↦ rw (worker_run, h) (rw e here)
]

-- The health checker answers to the start of a service whose checks pass.
answered :
    (services : List Service) (workers : Workers) (n : ServiceName) (service : Service)
    (r : Workers.Round) (rs : List Workers.Round)
    → get_service services n ≡ some service
    → check_health r.host r.parsed service.healthiness ≡ some healthy
    → IsAnswered services workers n (r ∷ rs)
unfolding on_event on_started
answered services workers n service r rs e h =
    elim (Bool-cases (has_any_check_defined service.healthiness)) [
      | inr f ↦
          (workers, sends (health_check n healthy) ∷ [], λ alive. rw (e, ◌>>=◌) (rw f refl), here)
      | inl f ↦
          let named : service.name ≡ n = find-name services n e in
          let first : In (health_check n healthy) (worker_run service (r ∷ rs)) =
            rw (← named) (worker_run-first service r rs h) in
          (
            insert (remove workers n) n service,
            stop_old workers n ++ starts service ∷ [],
            λ alive. rw (e, ◌>>=◌) (rw f refl),
            In-flat_map (answers (r ∷ rs)) {a = starts service}
                (In-append_right (stop_old workers n) {ys = starts service ∷ []} here) first,
          )
    ]

-- The supervisor takes such an answer, and the service asks to run.
taken :
    (host : Host) (now now' : Instant) (s : Supervisor) (n : ServiceName) (sh : ServiceHandler)
    → get_sh s.repo n ≡ some sh
    → sh_name sh ≡ n
    → sh.status ≡ started
    → IsCount 0 sh.healthiness_checks_failed
    → s.status ≡ LifecycleStatus.running
    → let sh' = add_healthcheck_event sh healthy in
      (handle_event host now s (health_check n healthy) ≡ some (put_sh s n sh', []))
      × (get_sh (put_sh s n sh').repo n ≡ some sh')
      × (next now' sh' (put_sh s n sh').repo s.status ≡ some (status_update n running ∷ []))
unfolding handle_event on_health_check
taken host now now' s n sh e named st count life =
    let sh' = add_healthcheck_event sh healthy in
    let (counted, status, service, pid, attempts, start) =
      add_healthcheck_event_lem sh 0 healthy count (omega arith) in
    let fine : has_some_failed_healthchecks sh' ≡ false = rw counted (rw st refl) in
    let name' : sh_name sh' ≡ n = ap (λ (x : Service). x.name) service ∙ named in
    (
      rw (e, ◌>>=◌) refl,
      get-insert_self s.repo.services n sh',
      rw life (
          next_started_healthy now' sh' (put_sh s n sh').repo (status ∙ st) fine
          ∙ ap (λ m. some (status_update m running ∷ [])) name'),
    )

-- The service runs when the supervisor takes its own update.
runs :
    (host : Host) (now : Instant) (s : Supervisor) (n : ServiceName) (sh : ServiceHandler)
    → get_sh s.repo n ≡ some sh
    → sh.status ≡ started
    → Runs host now s n
unfolding handle_event on_status_update
runs host now s n sh e st =
    let sh' = (change_status sh running).0 in
    let reached : sh'.status ≡ running = Edge-change_status Edge.healthy sh st in
    let told : (change_status sh running).1 ≡ running =
      (change_status-Edge sh running).1 ∙ reached in
    (
      put_sh s n sh',
      sh',
      rw (e, ◌>>=◌) (rw told (rw st refl)),
      get-insert_self s.repo.services n sh',
      reached,
    )

-- A started service whose checks pass, and that has no failed check on record, gets to run: the health
-- checker answers to its start that it is healthy, by itself if the service has no checks and else
-- through a new worker; when the supervisor has taken the answer, the service asks to run in the next
-- round, and when the supervisor takes that, the service runs.
pub started-running :
    (services : List Service) (workers : Workers) (n : ServiceName) (service : Service)
    (r : Workers.Round) (rs : List Workers.Round) (host : Host) (now now' now'' : Instant)
    (s : Supervisor) (sh : ServiceHandler)
    → get_service services n ≡ some service
    → check_health r.host r.parsed service.healthiness ≡ some healthy
    → get_sh s.repo n ≡ some sh
    → sh_name sh ≡ n
    → sh.status ≡ started
    → IsCount 0 sh.healthiness_checks_failed
    → s.status ≡ LifecycleStatus.running
    → IsAnswered services workers n (r ∷ rs) × GetsToRun host now now' now'' s n
started-running services workers n service r rs host now now' now'' s sh found good e named st count
      life =
    let sh' = add_healthcheck_event sh healthy in
    let (counted, status, service_kept, pid, attempts, start) =
      add_healthcheck_event_lem sh 0 healthy count (omega arith) in
    let (handled, at, asks) = taken host now now' s n sh e named st count life in
    (
      answered services workers n service r rs found good,
      (
        put_sh s n sh',
        sh',
        handled,
        at,
        asks,
        runs host now'' (put_sh s n sh') n sh' at (status ∙ st),
      ),
    )
