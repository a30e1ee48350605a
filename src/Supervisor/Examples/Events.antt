-- ===== src/Supervisor/Examples/Events.antt =====
-- The theorems about the handling of one event, at the web service and the database.
use horust.Prelude.{◌≤◌, ◌≡◌, refl, inl, inr, false, Option, none, some, List, [], ◌∷◌, arith}
use horust.Prelude.Lists.{In, here}
use horust.Prelude.Int.{pos}
use horust.Prelude.Tests.{String_eq, Bool-cases, ◌==◌, eq_of_beq}
use horust.Formats.Status.{starting, running, in_killing, finished, finished_failed, initial}
use horust.Formats.Event.{Event, pid_changed, status_update, service_exited, LifecycleStatus}
use horust.Supervisor.ServiceHandler.{ServiceHandler, change_status}
use horust.Supervisor.Repo.{get_sh}
use horust.Supervisor.Handler.{
  System, Supervisor, on_exited, on_kill, on_pid_changed, on_status_update, handle_event,
}
use horust.Supervisor.Handler.Settled
use horust.Supervisor.Handler.Pids
use horust.Supervisor.Handler.Pids.{IsTracked, IsNew}
use horust.Supervisor.Handler.Signals
use horust.Supervisor.Handler.Signals.{Sent}
use horust.Supervisor.Reaper.{exited, reap}
use horust.Supervisor.Reaper.Laws
use horust.Supervisor.Examples.{host, db, web, with_status}

abbrev pub system : System
system = record {
  sigterm_received = false;
  signals = [];
  broadcasts = [];
  spawned = [];
  parsed = [];
}

-- The database has finished and the web service has the given state.
abbrev pub web_with : ServiceHandler → Supervisor
web_with sh = record {
  status = LifecycleStatus.running;
  repo = record {
    services = ("db", with_status db finished) ∷ ("web", sh) ∷ [];
    sent = [];
    pid_map = (42, "web") ∷ [];
  };
  system = system;
}

abbrev web_up : ServiceHandler
web_up = record (with_status web running) { pid = some 42 }

abbrev pub after : Supervisor → Option (Supervisor × List Event) → Supervisor
after s none = s
after s (some (s', evs)) = s'

handle_event-IsTerminal_example :
    let s = web_with (with_status web finished_failed) in
    (d' : ServiceHandler) × (get_sh
        (after s (handle_event host 0 s (status_update "web" initial))).repo
        "web"
      ≡ some d')
    × (d'.status ≡ finished_failed)
unfolding handle_event on_status_update change_status
handle_event-IsTerminal_example =
    Settled.handle_event-IsTerminal host 0 (web_with (with_status web finished_failed))
      (status_update "web" initial) "web" (with_status web finished_failed) refl refl (inr refl)
      (λ e. cc) (λ p e. cc)

handle_event-restart_attempts_example :
    let sh = record (with_status web starting) { restart_attempts = 3 } in
    (d' : ServiceHandler) × (get_sh
        (after (web_with sh) (handle_event host 0 (web_with sh) (pid_changed "web" 42))).repo
        "web"
      ≡ some d')
    × (3 ≤ d'.restart_attempts)
unfolding handle_event on_pid_changed
handle_event-restart_attempts_example =
    Settled.handle_event-restart_attempts host 0
      (web_with (record (with_status web starting) { restart_attempts = 3 })) (pid_changed "web" 42)
      "web" (record (with_status web starting) { restart_attempts = 3 }) refl refl (omega arith)
      (λ e. cc)

web_with-IsTracked : IsTracked (web_with web_up)
web_with-IsTracked n d p e f = elim (Bool-cases ("db" == n)) [
  | inl a ↦ absurd (ground arith)
  | inr a ↦ elim (Bool-cases ("web" == n)) [
    | inl b ↦ let same : "web" ≡ n = eq_of_beq b in ground arith
    | inr b ↦ absurd (ground arith)
  ]
]

handle_event-IsTracked_example :
    IsTracked (
      after
        (web_with web_up)
        (handle_event host 0 (web_with web_up) (service_exited "web" (pos 0))))
unfolding handle_event on_exited change_status
handle_event-IsTracked_example =
    Pids.handle_event-IsTracked host 0 (web_with web_up) (service_exited "web" (pos 0)) refl tt
      web_with-IsTracked

reap-service_exited_example :
    In (service_exited "web" (pos 1)) (reap (web_with web_up).repo 20 (exited 42 (pos 1) ∷ []))
    × ((r : Supervisor × List Event) × (handle_event host 9
            (web_with web_up)
            (service_exited "web" (pos 1))
          ≡ some r))
reap-service_exited_example =
    Laws.reap-service_exited (web_with web_up) 20 (exited 42 (pos 1) ∷ []) "web" web_up 42 (pos 1)
      (exited 42 (pos 1)) host 9 web_with-IsTracked refl refl here (Laws.Ends.by_exit (pos 1))

abbrev web_stopping : ServiceHandler
web_stopping = record (with_status web in_killing) { pid = some 42 }

handle_event-Sent_example :
    Sent (Event.kill "web") (web_with web_stopping) (
      after
        (web_with web_stopping)
        (handle_event host 0 (web_with web_stopping) (Event.kill "web")))
unfolding handle_event on_kill
handle_event-Sent_example =
    Signals.handle_event-Sent host 0 (web_with web_stopping) (Event.kill "web") refl
