-- ===== src/Supervisor/Handler/Stopping.antt =====
-- How events bring a service nearer to its end, once the system is shut down by force.
use horust.Prelude.{ℕ, ◌<◌, ◌≤◌, ◌≡◌, ◌≢◌, subst, ◌⊎◌, false, Option, none, some, List, arith}
use horust.Prelude.Tests.{◌==◌, beq_ne, String_eq}
use horust.Prelude.HashMap.{HashMap, get, insert, get-insert_self}
use horust.Prelude.Int.{ℤ}
use horust.Formats.Status.{
  Status_eq, ServiceStatus, starting, started, running, in_killing, success, finished,
  finished_failed, failed, initial,
}
use horust.Formats.Service.{ServiceName}
use horust.Formats.Event.{
  Event, status_update, status_changed, service_exited, force_kill, shutting_down_initiated,
  health_check, Pid, forcefully,
}
use horust.Healthcheck.Host.{Host}
use horust.Supervisor.ServiceHandler.{ServiceHandler, Instant, change_status, add_healthcheck_event}
use horust.Supervisor.Repo.{get_sh}
use horust.Supervisor.Handler.{
  Supervisor, put_sh, exited_sh, exited_status, handle_event, on_status_update, on_force_kill,
}
use horust.Supervisor.Handler.Change.{
  Change, requested, exits, starts, unprepared, unspawned, asked, killed, up, up_too_late, checked,
}

-- How far a service is from its end.
abbrev pub rank : ServiceStatus → ℕ
rank starting = 7
rank running = 6
rank started = 5
rank in_killing = 4
rank initial = 3
rank success = 2
rank failed = 1
rank finished = 0
rank finished_failed = 0

-- A service whose process is known where it has one: it is not waiting for a process to be spawned.
abbrev pub IsStoppable : ServiceHandler → Type 0
IsStoppable d =
    (((d.status ≡ running) ⊎ (d.status ≡ started) ⊎ (d.status ≡ in_killing))
      × ((p : Pid) × (d.pid ≡ some p)))
    ⊎ ((d.status ≡ initial)
        ⊎ (d.status ≡ success)
        ⊎ (d.status ≡ failed)
        ⊎ (d.status ≡ finished)
        ⊎ (d.status ≡ finished_failed))

-- The statuses that a shutdown asks for.
abbrev pub IsStop : ServiceStatus → Type 0
IsStop s = (s ≡ in_killing) ⊎ (s ≡ finished) ⊎ (s ≡ finished_failed)

-- The events that stop services, or tell of them.
abbrev pub Stops : Event → Type 0
Stops (status_update n s) = IsStop s
Stops (status_changed n s) = Unit
Stops (service_exited n code) = Unit
Stops (force_kill n) = Unit
Stops (Event.kill n) = Unit
Stops (health_check n h) = Unit
Stops (shutting_down_initiated how) = how ≡ forcefully
Stops _ = ⊥

-- No further from the end than before.
abbrev pub Nearer : ServiceHandler → ServiceHandler → Type 0
Nearer d d' = IsStoppable d' × (rank d'.status ≤ rank d.status)

change_status-Nearer :
    (d : ServiceHandler) (next : ServiceStatus)
    → IsStop next
    → IsStoppable d
    → Nearer d (change_status d next).0
unfolding change_status
change_status-Nearer d next i k = (ground arith, ground arith)

exited_sh-Nearer :
    (d : ServiceHandler) (next : ServiceStatus)
    → (next ≡ success) ⊎ (next ≡ failed)
    → IsStoppable d
    → Nearer d (change_status (exited_sh d) next).0
unfolding change_status
exited_sh-Nearer d next i k = (ground arith, ground arith)

exited_status-cases :
    (sh : ServiceHandler) (code : ℤ)
    → (exited_status sh code ≡ success) ⊎ (exited_status sh code ≡ failed)
exited_status-cases sh code = ground arith

-- A change by such an event brings a service no further from its end.
pub Change-Nearer :
    {ev : Event} {n : ServiceName} {d d' : ServiceHandler}
    → Change ev n d d'
    → Stops ev
    → IsStoppable d
    → Nearer d d'
unfolding add_healthcheck_event
Change-Nearer {d = d} (requested next e) s k = change_status-Nearer d next (subst Stops e s) k
Change-Nearer {d = d} (exits code e) s k =
    exited_sh-Nearer d (exited_status (exited_sh d) code) (exited_status-cases (exited_sh d) code) k
Change-Nearer (starts e i) s k = elim (subst Stops e s) [ ]
Change-Nearer (unprepared e i) s k = elim (subst Stops e s) [ ]
Change-Nearer (unspawned e) s k = elim (subst Stops e s) [ ]
Change-Nearer (asked now e i) s k = (k, omega arith)
Change-Nearer (killed e i) s k = (ground arith, ground arith)
Change-Nearer (up p e) s k = elim (subst Stops e s) [ ]
Change-Nearer (up_too_late p now e i) s k = elim (subst Stops e s) [ ]
Change-Nearer (checked h e) s k = (k, omega arith)

-- What a service asks for in a forced shutdown.
abbrev pub ask : ServiceName → ServiceStatus → Option Event
ask n running = some (status_update n in_killing)
ask n started = some (status_update n in_killing)
ask n in_killing = some (force_kill n)
ask n initial = some (status_update n finished)
ask n success = some (status_update n finished)
ask n failed = some (status_update n finished_failed)
ask n _ = none

change_status-asked :
    (d : ServiceHandler) (n : ServiceName) (next : ServiceStatus)
    → ask n d.status ≡ some (status_update n next)
    → ((change_status d next).1 ≢ d.status) × (rank (change_status d next).0.status < rank d.status)
unfolding change_status
change_status-asked d n next e = (λ q. ground arith, ground arith)

-- The service is in the new state, nearer to its end.
abbrev pub Lowers : Supervisor → ServiceName → ServiceHandler → Type 0
Lowers s' n d =
    (d' : ServiceHandler) × (get_sh s'.repo n ≡ some d') × (rank d'.status < rank d.status)

module _ (host : Host) (now : Instant) (s : Supervisor) (n : ServiceName) (d : ServiceHandler)
    {s' : Supervisor} {out : List Event} (at : get_sh s.repo n ≡ some d) where
  updated :
      (next : ServiceStatus)
      → ask n d.status ≡ some (status_update n next)
      → handle_event host now s (status_update n next) ≡ some (s', out)
      → Lowers s' n d
  unfolding handle_event on_status_update
  updated next a h =
      let (moves, lower) = change_status-asked d n next a in
      let same : ((change_status d next).1 == d.status) ≡ false = beq_ne moves in
      let new : put_sh s n (change_status d next).0 ≡ s' = ground arith in
      (
        (change_status d next).0,
        subst (λ (x : Supervisor). get_sh x.repo n ≡ some (change_status d next).0) new
            (get-insert_self s.repo.services n (change_status d next).0),
        lower,
      )

  force_killed :
      d.status ≡ in_killing
      → handle_event host now s (force_kill n) ≡ some (s', out)
      → Lowers s' n d
  unfolding handle_event on_force_kill
  force_killed a h =
      let new : insert s.repo.services n (record d { status = failed }) ≡ s'.repo.services =
        ground arith in
      (
        record d { status = failed },
        subst
            (λ (m : HashMap ServiceName ServiceHandler).
              get m n ≡ some (record d { status = failed }))
            new (get-insert_self s.repo.services n (record d { status = failed })),
        ground arith,
      )

  -- What a service asks for in a forced shutdown brings it nearer to its end.
  pub asked-Lowers :
      (ev : Event)
      → ask n d.status ≡ some ev
      → handle_event host now s ev ≡ some (s', out)
      → Lowers s' n d
  asked-Lowers (status_update m next) a h =
      let same : m ≡ n = ground arith in
      updated next
        (subst (λ (x : ServiceName). ask n d.status ≡ some (status_update x next)) same a)
        (subst
          (λ (x : ServiceName). handle_event host now s (status_update x next) ≡ some (s', out))
          same h)
  asked-Lowers (force_kill m) a h =
      let same : m ≡ n = ground arith in
      force_killed (ground arith) (
        subst (λ (x : ServiceName). handle_event host now s (force_kill x) ≡ some (s', out)) same h)
  asked-Lowers _ a h = absurd (ground arith)

-- Of two statuses of one service the later one is nearer to the end, or the same.
pub rank-cases :
    (n : ServiceName) (a b : ServiceStatus) {ev : Event}
    → rank a ≤ rank b
    → ask n b ≡ some ev
    → (rank a < rank b) ⊎ (a ≡ b)
rank-cases n a b h e = ground arith
