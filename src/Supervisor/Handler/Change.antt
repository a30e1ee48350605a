-- ===== src/Supervisor/Handler/Change.antt =====
-- What an event may do to the services: it changes one of them, in one of a few ways, or none.
use horust.Prelude.{true, false, subst, ◌≡◌, refl, ◌⊎◌, inl, inr, ◌≢◌, none, some, List, arith}
use horust.Prelude.Tests.{◌==◌, Option-cases, Bool-cases, eq_of_beq, String_eq, Nat_eq}
use horust.Prelude.Int.{ℤ}
use horust.Prelude.HashMap.{insert, get-insert_self, get-insert_ne}
use horust.Formats.Status.{
  Status_eq, ServiceStatus, starting, started, in_killing, finished_failed, failed, initial,
}
use horust.Formats.Service.{ServiceName}
use horust.Formats.Event.{
  Event, pid_changed, status_update, status_changed, service_exited, force_kill, spawn_failed,
  shutting_down_initiated, health_check, Pid, HealthinessStatus,
}
use horust.Healthcheck.Host.{Host}
use horust.Healthcheck.Checks.{Parsed, prepare_service}
use horust.Supervisor.ServiceHandler.{
  ServiceHandler, Instant, is_initial, is_in_killing, add_healthcheck_event, change_status,
}
use horust.Supervisor.Repo.{get_sh}
use horust.Supervisor.Handler.{
  Supervisor, exited_sh, exited_status, on_exited, on_run, on_spawn_failed, on_kill, on_force_kill,
  on_pid_changed, on_health_check, on_shutting_down, on_status_update, handle_event,
}

-- The preparation of a service panics, succeeds, or ends with an error.
pub prepare-cases :
    (host : Host) (s : Supervisor) (sh : ServiceHandler)
    → let prepared = prepare_service host sh.service.healthiness s.system.parsed in
      (prepared ≡ none)
      ⊎ ((parsed : Parsed) × (prepared ≡ some (parsed, true)))
      ⊎ ((parsed : Parsed) × (prepared ≡ some (parsed, false)))
prepare-cases host s sh =
    elim (Option-cases (prepare_service host sh.service.healthiness s.system.parsed)) [
      | inl e ↦ inl e
      | inr ((parsed, ready), e) ↦ elim (Bool-cases ready) [
        | inl f ↦ inr (inl (parsed, rw f at e))
        | inr f ↦ inr (inr (parsed, rw f at e))
      ]
    ]

-- How the handler of one service may change.
pub data Change (ev : Event) (name : ServiceName) (sh : ServiceHandler)
    : ServiceHandler → Type 0 where
  requested :
      (next : ServiceStatus)
      → ev ≡ status_update name next
      → Change ev name sh (change_status sh next).0
  exits :
      (code : ℤ)
      → ev ≡ service_exited name code
      → Change ev name sh (change_status (exited_sh sh) (exited_status (exited_sh sh) code)).0
  starts :
      ev ≡ Event.run name
      → sh.status ≡ initial
      → Change ev name sh (record sh { status = starting })
  unprepared :
      ev ≡ Event.run name
      → sh.status ≡ initial
      → Change ev name sh (record sh { status = finished_failed })
  unspawned : ev ≡ spawn_failed name → Change ev name sh (record sh { status = failed })
  asked :
      (now : Instant)
      → ev ≡ Event.kill name
      → sh.status ≡ in_killing
      → Change ev name sh (record sh { shutting_down_start = some now })
  killed :
      ev ≡ force_kill name
      → sh.status ≡ in_killing
      → Change ev name sh (record sh { status = failed })
  up :
      (p : Pid)
      → ev ≡ pid_changed name p
      → Change ev name sh (record sh { pid = some p; status = started })
  up_too_late :
      (p : Pid) (now : Instant)
      → ev ≡ pid_changed name p
      → sh.status ≡ in_killing
      → Change ev name sh (record sh { pid = some p; shutting_down_start = some now })
  checked :
      (h : HealthinessStatus)
      → ev ≡ health_check name h
      → Change ev name sh (add_healthcheck_event sh h)

-- One service changed, or none.
pub data Touches (ev : Event) (s s' : Supervisor) : Type 0 where
  nothing : s'.repo.services ≡ s.repo.services → Touches ev s s'
  one :
      (name : ServiceName) (sh sh' : ServiceHandler)
      → get_sh s.repo name ≡ some sh
      → s'.repo.services ≡ insert s.repo.services name sh'
      → Change ev name sh sh'
      → Touches ev s s'

module _ {s s' : Supervisor} {evs : List Event} (name : ServiceName) where
  exited-Touches :
      (code : ℤ) → on_exited s name code ≡ some (s', evs) → Touches (service_exited name code) s s'
  unfolding on_exited
  exited-Touches code h = elim (Option-cases (get_sh s.repo name)) [
    | inl e ↦ absurd (ground arith)
    | inr (sh, e) ↦ elim (Option-cases sh.pid) [
      | inl f ↦ absurd (ground arith)
      | inr (p, f) ↦ one name sh _ e (ground arith) (exits code refl)
    ]
  ]

  spawn_failed-Touches : on_spawn_failed s name ≡ some (s', evs) → Touches (spawn_failed name) s s'
  unfolding on_spawn_failed
  spawn_failed-Touches h = elim (Option-cases (get_sh s.repo name)) [
    | inl e ↦ absurd (ground arith)
    | inr (sh, e) ↦ one name sh _ e (ground arith) (unspawned refl)
  ]

  health_check-Touches :
      (health : HealthinessStatus)
      → on_health_check s name health ≡ some (s', evs)
      → Touches (health_check name health) s s'
  unfolding on_health_check
  health_check-Touches health h = elim (Option-cases (get_sh s.repo name)) [
    | inl e ↦ absurd (ground arith)
    | inr (sh, e) ↦ one name sh _ e (ground arith) (checked health refl)
  ]

  kill-Touches :
      (now : Instant) → on_kill now s name ≡ some (s', evs) → Touches (Event.kill name) s s'
  unfolding on_kill
  kill-Touches now h = elim (Option-cases (get_sh s.repo name)) [
    | inl e ↦ absurd (ground arith)
    | inr (sh, e) ↦ elim (Bool-cases (is_in_killing sh)) [
      | inl q ↦ one name sh _ e (ground arith) (asked now refl (ground arith))
      | inr q ↦ nothing (ground arith)
    ]
  ]

  force_kill-Touches : on_force_kill s name ≡ some (s', evs) → Touches (force_kill name) s s'
  unfolding on_force_kill
  force_kill-Touches h = elim (Option-cases (get_sh s.repo name)) [
    | inl e ↦ absurd (ground arith)
    | inr (sh, e) ↦ elim (Bool-cases (is_in_killing sh)) [
      | inl q ↦ one name sh _ e (ground arith) (killed refl (ground arith))
      | inr q ↦ nothing (ground arith)
    ]
  ]

  pid_changed-Touches :
      (now : Instant) (p : Pid)
      → on_pid_changed now s name p ≡ some (s', evs)
      → Touches (pid_changed name p) s s'
  unfolding on_pid_changed
  pid_changed-Touches now p h = elim (Option-cases (get_sh s.repo name)) [
    | inl e ↦ absurd (ground arith)
    | inr (sh, e) ↦ elim (Bool-cases (is_in_killing sh)) [
      | inl q ↦ one name sh _ e (ground arith) (up_too_late p now refl (ground arith))
      | inr q ↦ one name sh _ e (ground arith) (up p refl)
    ]
  ]

  status_update-Touches :
      (next : ServiceStatus)
      → on_status_update s name next ≡ some (s', evs)
      → Touches (status_update name next) s s'
  unfolding on_status_update
  status_update-Touches next h = elim (Option-cases (get_sh s.repo name)) [
    | inl e ↦ absurd (ground arith)
    | inr (sh, e) ↦ elim (Bool-cases ((change_status sh next).1 == sh.status)) [
      | inl q ↦ nothing (ground arith)
      | inr q ↦ one name sh _ e (ground arith) (requested next refl)
    ]
  ]

  run-Touches : (host : Host) → on_run host s name ≡ some (s', evs) → Touches (Event.run name) s s'
  unfolding on_run
  run-Touches host h = elim (Option-cases (get_sh s.repo name)) [
    | inl e ↦ absurd (ground arith)
    | inr (sh, e) ↦ elim (Bool-cases (is_initial sh)) [
      | inr q ↦ nothing (ground arith)
      | inl q ↦ elim (prepare-cases host s sh) [
        | inl f ↦ absurd (ground arith)
        | inr (inl (parsed, f)) ↦ one name sh _ e (ground arith) (starts refl (ground arith))
        | inr (inr (parsed, f)) ↦ one name sh _ e (ground arith) (unprepared refl (ground arith))
      ]
    ]
  ]

-- An event that is handled changes one service in a way that it stands for, or none.
pub handle_event-Touches :
    (host : Host) (now : Instant) (s : Supervisor) (ev : Event) {s' : Supervisor} {evs : List Event}
    → handle_event host now s ev ≡ some (s', evs)
    → Touches ev s s'
unfolding handle_event
handle_event-Touches host now s (service_exited name code) h = exited-Touches name code h
handle_event-Touches host now s (Event.run name) h = run-Touches name host h
handle_event-Touches host now s (spawn_failed name) h = spawn_failed-Touches name h
handle_event-Touches host now s (Event.kill name) h = kill-Touches name now h
handle_event-Touches host now s (force_kill name) h = force_kill-Touches name h
handle_event-Touches host now s (pid_changed name pid) h = pid_changed-Touches name now pid h
handle_event-Touches host now s (health_check name health) h = health_check-Touches name health h
handle_event-Touches host now s (shutting_down_initiated how) h =
    nothing (unfold on_shutting_down in ground arith)
handle_event-Touches host now s (status_update name next) h = status_update-Touches name next h
handle_event-Touches host now s (status_changed name status) h = nothing (ground arith)

-- The same, seen from one service.
pub Touches-get :
    {ev : Event} {s s' : Supervisor}
    → Touches ev s s'
    → (n : ServiceName) (d : ServiceHandler) → get_sh s.repo n ≡ some d
    → (d' : ServiceHandler) × (get_sh s'.repo n ≡ some d') × ((d' ≡ d) ⊎ Change ev n d d')
Touches-get (nothing e) n d h = (d, ground arith, inl refl)
Touches-get {ev} {s} {s'} (one name sh sh' e f c) n d h = elim (Bool-cases (name == n)) [
  | inr miss ↦ (d, rw f (rw (get-insert_ne s.repo.services name n sh' miss) h), inl refl)
  | inl hit ↦
      let same : name ≡ n = eq_of_beq hit in
      (
        sh',
        rw f (rw (← same) (get-insert_self s.repo.services name sh')),
        inr (
            subst (λ (x : ServiceName). Change ev x d sh') same
              (subst (λ (x : ServiceHandler). Change ev name x sh') (ground arith) c)),
      )
]

-- No service comes out of nothing.
Touches-none :
    {ev : Event} {s s' : Supervisor}
    → Touches ev s s'
    → (n : ServiceName) → get_sh s.repo n ≡ none
    → (d' : ServiceHandler) → get_sh s'.repo n ≢ some d'
Touches-none (nothing e) n h d' g = ground arith
Touches-none {ev} {s} {s'} (one name sh sh' e f c) n h d' g = elim (Bool-cases (name == n)) [
  | inr miss ↦ ground (arith, get-insert_ne s.repo.services name n sh' miss)
  | inl hit ↦ let same : name ≡ n = eq_of_beq hit in ground arith
]

-- The other way round: where a service of the new state comes from.
pub Touches-get_inv :
    {ev : Event} {s s' : Supervisor}
    → Touches ev s s'
    → (n : ServiceName) (d' : ServiceHandler) → get_sh s'.repo n ≡ some d'
    → (d : ServiceHandler) × (get_sh s.repo n ≡ some d) × ((d' ≡ d) ⊎ Change ev n d d')
Touches-get_inv {ev} {s} {s'} t n d' h = elim (Option-cases (get_sh s.repo n)) [
  | inr (d, e) ↦
      let (x, g, c) = Touches-get t n d e in
      let same : x ≡ d' = ground arith in
      (d, e, subst (λ (y : ServiceHandler). (y ≡ d) ⊎ Change ev n d y) same c)
  | inl e ↦ absurd (Touches-none t n e d' h)
]
