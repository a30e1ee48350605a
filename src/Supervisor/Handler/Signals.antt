-- ===== src/Supervisor/Handler/Signals.antt =====
-- Which signals are sent, and to which processes.
use horust.Prelude.{◌≡◌, refl, inl, inr, some, List, [], ◌∷◌, ◌++◌, arith}
use horust.Prelude.Tests.{Option-cases, Bool-cases, String_eq}
use horust.Formats.Status.{in_killing}
use horust.Formats.Service.{ServiceName}
use horust.Formats.Signals.{Signal, sigkill, to_signal}
use horust.Formats.Event.{Event, pid_changed, force_kill, Pid}
use horust.Healthcheck.Host.{Host}
use horust.Supervisor.ServiceHandler.{ServiceHandler, Instant, is_in_killing}
use horust.Supervisor.Repo.{get_sh}
use horust.Supervisor.Handler.{
  Supervisor, on_exited, on_run, on_spawn_failed, on_kill, on_force_kill, on_pid_changed,
  on_health_check, on_shutting_down, on_status_update, handle_event,
}

-- The signal that the event sends to the process of a service that is being stopped: SIGKILL when it
-- is killed by force, and otherwise the signal that the service is configured with.
pub data Sends (ev : Event) (name : ServiceName) (d : ServiceHandler) (p : Pid)
    : Signal → Type 0 where
  forced : ev ≡ force_kill name → d.pid ≡ some p → Sends ev name d p sigkill
  friendly :
      ev ≡ Event.kill name
      → d.pid ≡ some p
      → Sends ev name d p (to_signal d.service.termination.signal)
  late : ev ≡ pid_changed name p → Sends ev name d p (to_signal d.service.termination.signal)

pub data Sent (ev : Event) (s s' : Supervisor) : Type 0 where
  silent : s'.system.signals ≡ s.system.signals → Sent ev s s'
  one :
      (name : ServiceName) (d : ServiceHandler) (p : Pid) (sig : Signal)
      → get_sh s.repo name ≡ some d
      → d.status ≡ in_killing
      → Sends ev name d p sig
      → s'.system.signals ≡ s.system.signals ++ (p, sig) ∷ []
      → Sent ev s s'

module _ {s s' : Supervisor} {evs : List Event} (name : ServiceName) where
  kill-Sent : (now : Instant) → on_kill now s name ≡ some (s', evs) → Sent (Event.kill name) s s'
  unfolding on_kill
  kill-Sent now h = elim (Option-cases (get_sh s.repo name)) [
    | inl e ↦ absurd (ground arith)
    | inr (d, e) ↦ elim (Bool-cases (is_in_killing d)) [
      | inr b ↦ silent (ground arith)
      | inl b ↦ elim (Option-cases d.pid) [
        | inl f ↦ silent (ground arith)
        | inr (p, f) ↦ one name d p _ e (ground arith) (friendly refl f) (ground arith)
      ]
    ]
  ]

  force_kill-Sent : on_force_kill s name ≡ some (s', evs) → Sent (force_kill name) s s'
  unfolding on_force_kill
  force_kill-Sent h = elim (Option-cases (get_sh s.repo name)) [
    | inl e ↦ absurd (ground arith)
    | inr (d, e) ↦ elim (Bool-cases (is_in_killing d)) [
      | inr b ↦ silent (ground arith)
      | inl b ↦ elim (Option-cases d.pid) [
        | inl f ↦ silent (ground arith)
        | inr (p, f) ↦ one name d p sigkill e (ground arith) (forced refl f) (ground arith)
      ]
    ]
  ]

  pid_changed-Sent :
      (now : Instant) (p : Pid)
      → on_pid_changed now s name p ≡ some (s', evs)
      → Sent (pid_changed name p) s s'
  unfolding on_pid_changed
  pid_changed-Sent now p h = elim (Option-cases (get_sh s.repo name)) [
    | inl e ↦ absurd (ground arith)
    | inr (d, e) ↦ elim (Bool-cases (is_in_killing d)) [
      | inr b ↦ silent (ground arith)
      | inl b ↦ one name d p _ e (ground arith) (late refl) (ground arith)
    ]
  ]

-- An event sends a signal to one process at most: that of a service that is being stopped, SIGKILL if
-- the event kills by force, and the service's own signal if it asks to stop or if the process has come
-- up too late.
pub handle_event-Sent :
    (host : Host) (now : Instant) (s : Supervisor) (ev : Event) {s' : Supervisor} {evs : List Event}
    → handle_event host now s ev ≡ some (s', evs)
    → Sent ev s s'
unfolding handle_event on_exited on_run on_spawn_failed on_health_check on_shutting_down
    on_status_update
handle_event-Sent host now s (Event.kill name) h = kill-Sent name now h
handle_event-Sent host now s (force_kill name) h = force_kill-Sent name h
handle_event-Sent host now s (pid_changed name p) h = pid_changed-Sent name now p h
handle_event-Sent host now s _ h = silent (ground arith)
