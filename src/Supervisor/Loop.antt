-- ===== src/Supervisor/Loop.antt =====
-- The loop of Supervisor::run in horust/src/horust/supervisor/mod.rs. A round takes what the bus has
-- delivered, each event with the time at which it is handled, then the time at which the services
-- are moved on, the answers of waitpid, and whether a SIGTERM arrives that the next round is to see: one
-- that arrives before the flag is cleared in this round is lost, as if it had not arrived.
pub mod Induction
pub mod Closed
pub mod Checks
pub mod End
pub mod Forced
pub mod Sound
pub mod Announced
use horust.Prelude.{ℕ, ◌≡◌, Bool, true, false, ◌||◌, Option, none, some, List, [], ◌∷◌, ◌++◌}
use horust.Prelude.Tests.{nat_eq, if◌then◌else◌}
use horust.Prelude.Panic.{◌>>=◌, try_flat_map}
use horust.Formats.Event.{
  Event, shutting_down_initiated, ShuttingDown, gracefully, forcefully, LifecycleStatus,
  shutting_down, ExitStatus, Pid, successful, some_service_failed,
}
use horust.Formats.Signals.{sigterm, sigkill}
use horust.Healthcheck.Host.{Host}
use horust.Supervisor.ServiceHandler.{Instant}
use horust.Supervisor.Repo.{Repo, send_ev, all_have_finished, any_finished_failed}
use horust.Supervisor.Next.{next}
use horust.Supervisor.Reaper.{WaitStatus, reap}
use horust.Supervisor.Handler.{System, Supervisor, handle_event}

abbrev pub max_process_reaps_iters : ℕ
max_process_reaps_iters = 20

pub record Round : Type 0 where
  pub host : Host
  pub received : List (Instant × Event)
  pub now : Instant
  pub answers : List WaitStatus
  -- whether a SIGTERM arrives after the last shutdown event of the round was handled
  pub sigterm : Bool

abbrev pub init_pid : Pid
init_pid = 1

abbrev send : Supervisor → Event → Supervisor
send s ev = record s { repo = send_ev s.repo ev }

-- A pending SIGTERM starts a graceful shutdown, a second one a forceful shutdown.
sigterm_at : LifecycleStatus → Bool → Supervisor → Supervisor
sigterm_at LifecycleStatus.running true s = send s (shutting_down_initiated gracefully)
sigterm_at (shutting_down gracefully) true s = send s (shutting_down_initiated forcefully)
sigterm_at _ _ s = s

unfoldable pub on_sigterm : Supervisor → Supervisor
unfolding sigterm_at
on_sigterm s = sigterm_at s.status s.system.sigterm_received s

-- `received_events.into_iter().flat_map(|ev| self.handle_event(ev)).collect()`
unfoldable pub handle_all :
    Host → List (Instant × Event) → Supervisor → Option (Supervisor × List Event)
handle_all host [] s = some (s, [])
handle_all host ((now, ev) ∷ evs) s = do
  (s', produced) ← handle_event host now s ev
  (s'', rest) ← handle_all host evs s'
  some (s'', produced ++ rest)

-- What the services ask for.
unfoldable pub next_all : Instant → Supervisor → Option (List Event)
next_all now s = try_flat_map (λ entry. next now entry.1 s.repo s.status) s.repo.services

abbrev send_all : Supervisor → List Event → Supervisor
send_all s [] = s
send_all s (ev ∷ evs) = send_all (send s ev) evs

-- The handler of the signal sets the flag.
abbrev pub interrupted : Bool → Supervisor → Supervisor
interrupted arrives s = record s {
  system = record s.system { sigterm_received = arrives || s.system.sigterm_received };
}

unfoldable pub round : Round → Supervisor → Option Supervisor
round r s = do
  (s', produced) ← handle_all r.host r.received (on_sigterm s)
  next_evs ← next_all r.now s'
  let all = produced ++ next_evs ++ reap s'.repo max_process_reaps_iters r.answers
  some (interrupted r.sigterm (send_all s' all))

-- The exit status once all services have finished.
unfoldable pub exit_status : Repo → ExitStatus
exit_status repo = if any_finished_failed repo then some_service_failed else successful

-- What follows the loop: the first process of the system stops all others.
unfoldable pub finish : Pid → Supervisor → Supervisor
finish getpid s =
    let y = record s.system { broadcasts = s.system.broadcasts ++ sigterm ∷ sigkill ∷ [] } in
    let s' = if nat_eq getpid init_pid then record s { system = y } else s in
    send s' (shutting_down_initiated gracefully)

-- How the loop stands after the given rounds: still going, or ended with a status.
pub data Progress : Type 0 where
  going : Supervisor → Progress
  ended : ExitStatus → Supervisor → Progress

unfoldable pub run : Pid → List Round → Supervisor → Option Progress
run getpid [] s =
    some
      (if all_have_finished s.repo then ended (exit_status s.repo) (finish getpid s) else going s)
run getpid (r ∷ rs) s = elim (all_have_finished s.repo) [
  | true ↦ some (ended (exit_status s.repo) (finish getpid s))
  | false ↦ do s' ← round r s; run getpid rs s'
]
