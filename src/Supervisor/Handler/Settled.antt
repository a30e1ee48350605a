-- ===== src/Supervisor/Handler/Settled.antt =====
-- What stays of a service while events are handled: its end, and its counters.
use horust.Prelude.{◌+◌, ◌<◌, ◌≤◌, ◌≡◌, ◌≢◌, refl, inl, inr, some, List, arith}
use horust.Prelude.Int.{ℤ, u32_mod}
use horust.Formats.Status.{started}
use horust.Formats.Service.{ServiceName}
use horust.Formats.Event.{Event, status_update, spawn_failed, pid_changed, Pid}
use horust.Healthcheck.Host.{Host}
use horust.Supervisor.ServiceHandler.{ServiceHandler, Instant, add_healthcheck_event}
use horust.Supervisor.ServiceHandler.Transitions.{
  change_status_terminal, restart_attempts-change_status,
}
use horust.Supervisor.Repo.{get_sh}
use horust.Supervisor.Repo.Readiness.{IsTerminal}
use horust.Supervisor.Handler.{Supervisor, exited_sh, exited_status, handle_event}
use horust.Supervisor.Handler.Change.{
  Change, requested, exits, starts, unprepared, unspawned, asked, killed, up, up_too_late, checked,
  Touches-get, handle_event-Touches,
}

Change-IsTerminal :
    {ev : Event} {n : ServiceName} {d d' : ServiceHandler}
    → Change ev n d d'
    → IsTerminal d.status
    → ev ≢ spawn_failed n
    → ((p : Pid) → ev ≢ pid_changed n p)
    → d'.status ≡ d.status
unfolding add_healthcheck_event
Change-IsTerminal {d = d} (requested next e) t a b = ground (arith, change_status_terminal d next t)
Change-IsTerminal {d = d} (exits code e) t a b =
    ground (arith, change_status_terminal (exited_sh d) (exited_status (exited_sh d) code) t)
Change-IsTerminal (starts e i) t a b = ground arith
Change-IsTerminal (unprepared e i) t a b = ground arith
Change-IsTerminal (unspawned e) t a b = absurd (a e)
Change-IsTerminal (asked now e i) t a b = refl
Change-IsTerminal (killed e i) t a b = ground arith
Change-IsTerminal (up p e) t a b = absurd (b p e)
Change-IsTerminal (up_too_late p now e i) t a b = refl
Change-IsTerminal (checked h e) t a b = refl

-- A finished service, failed or not, stays so whatever event is handled, unless a process that was
-- still being spawned for it reports back.
pub handle_event-IsTerminal :
    (host : Host) (now : Instant) (s : Supervisor) (ev : Event) (n : ServiceName)
    (d : ServiceHandler) {s' : Supervisor} {evs : List Event}
    → handle_event host now s ev ≡ some (s', evs)
    → get_sh s.repo n ≡ some d
    → IsTerminal d.status
    → ev ≢ spawn_failed n
    → ((p : Pid) → ev ≢ pid_changed n p)
    → (d' : ServiceHandler) × (get_sh s'.repo n ≡ some d') × (d'.status ≡ d.status)
handle_event-IsTerminal host now s ev n d h g t a b =
    let (d', g', c) = Touches-get (handle_event-Touches host now s ev h) n d g in
    (d', g', elim c [ inl e ↦ rw e | inr c' ↦ Change-IsTerminal c' t a b ])

exited_status-ne : (sh : ServiceHandler) (code : ℤ) → exited_status sh code ≢ started
exited_status-ne sh code = ground arith

restart_attempts-exited_sh :
    (sh : ServiceHandler)
    → sh.restart_attempts + 1 < u32_mod
    → sh.restart_attempts ≤ (exited_sh sh).restart_attempts
restart_attempts-exited_sh sh h = ground arith

Change-restart_attempts :
    {ev : Event} {n : ServiceName} {d d' : ServiceHandler}
    → Change ev n d d'
    → d.restart_attempts + 1 < u32_mod
    → ev ≢ status_update n started
    → d.restart_attempts ≤ d'.restart_attempts
unfolding add_healthcheck_event
Change-restart_attempts {n = n} {d = d} (requested next e) t a =
    omega (arith, restart_attempts-change_status d next (λ q. a (rw (← q) e)))
Change-restart_attempts {d = d} (exits code e) t a = omega (
  arith,
  restart_attempts-change_status (exited_sh d) (exited_status (exited_sh d) code)
      (exited_status-ne (exited_sh d) code),
  restart_attempts-exited_sh d t,
)
Change-restart_attempts (starts e i) t a = omega arith
Change-restart_attempts (unprepared e i) t a = omega arith
Change-restart_attempts (unspawned e) t a = omega arith
Change-restart_attempts (asked now e i) t a = omega arith
Change-restart_attempts (killed e i) t a = omega arith
Change-restart_attempts (up p e) t a = omega arith
Change-restart_attempts (up_too_late p now e i) t a = omega arith
Change-restart_attempts (checked h e) t a = omega arith

-- Below the largest `u32`, no event lowers the number of restarts that are counted as attempts, but
-- a request to set the status to started: that the service runs, or is healthy, does not reset it.
pub handle_event-restart_attempts :
    (host : Host) (now : Instant) (s : Supervisor) (ev : Event) (n : ServiceName)
    (d : ServiceHandler) {s' : Supervisor} {evs : List Event}
    → handle_event host now s ev ≡ some (s', evs)
    → get_sh s.repo n ≡ some d
    → d.restart_attempts + 1 < u32_mod
    → ev ≢ status_update n started
    → (d' : ServiceHandler) × (get_sh s'.repo n ≡ some d')
      × (d.restart_attempts ≤ d'.restart_attempts)
handle_event-restart_attempts host now s ev n d h g t a =
    let (d', g', c) = Touches-get (handle_event-Touches host now s ev h) n d g in
    (d', g', elim c [ inl e ↦ rw e (omega arith) | inr c' ↦ Change-restart_attempts c' t a ])
