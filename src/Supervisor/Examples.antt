-- ===== src/Supervisor/Examples.antt =====
-- The theorems about the supervisor at concrete services: a web service that starts after a database
-- and shuts down before it.
mod Events
mod Runs
mod Shutdown
mod Start
mod Spawner
use horust.Prelude.{
  ℕ, zero, suc, ◌+◌, ◌*◌, ◌<◌, ◌≤◌, ◌-◌, ◌≡◌, ◌≢◌, ◌↔◌, refl, ◌⊎◌, inl, inr, Bool, true, false,
  String, Option, none, some, List, [], ◌∷◌, ◌++◌, arith,
}
use horust.Prelude.Lists.{All, In, here, there}
use horust.Prelude.Int.{ℤ, pos}
use horust.Formats.Status.{
  ServiceStatus, starting, started, running, in_killing, success, finished, finished_failed, failed,
  initial,
}
use horust.Formats.Service.{
  Service, ServiceName, nanos_per_sec, from_secs, default_service, kill_dependents, default_failure,
  default_termination,
}
use horust.Formats.Signals.{to_signal, sigterm}
use horust.Formats.Event.{
  Event, pid_changed, status_update, status_changed, service_exited, force_kill, spawn_failed,
  shutting_down_initiated, health_check, Pid, ShuttingDown, gracefully, forcefully,
  HealthinessStatus, unhealthy, LifecycleStatus, shutting_down, ExitStatus, some_service_failed,
}
use horust.Healthcheck.Host.{Host}
use horust.Supervisor.ServiceHandler.{
  ServiceHandler, Instant, of_service, sh_name, change_status, should_force_kill,
  add_healthcheck_event, handle_restart_strategy, handle_failed_service,
}
use horust.Supervisor.ServiceHandler.Transitions
use horust.Supervisor.ServiceHandler.Transitions.{Edge, request}
use horust.Supervisor.ServiceHandler.Killing
use horust.Supervisor.ServiceHandler.Healthchecks
use horust.Supervisor.Repo.{
  Repo, is_service_runnable, is_service_killable, get_dependents, get_die_if_failed,
}
use horust.Supervisor.Repo.Readiness
use horust.Supervisor.Repo.Readiness.{StatusIn, IsReady, IsTerminal}
use horust.Supervisor.Next.{next, next_events, next_events_shutting_down}
use horust.Supervisor.Next.Legal
use horust.Supervisor.Next.Legal.{Obeyable}
use horust.Supervisor.Next.Failed
use horust.Supervisor.Next.Failed.{Doomed}

-- A system on which every file exists and every command is found.
abbrev pub host : Host
host = record {
  exists = λ p. true;
  is_file = λ p. true;
  join = λ p n. n;
  split_paths = λ s. s ∷ [];
  remove_file = λ p. true;
  var_os = λ n. some "/bin";
  into_string = λ p. some p;
  split = λ s. some (s ∷ []);
  head = λ u. some 200;
  succeeds = λ p a. some true;
}

abbrev pub db : Service
db = record (default_service "/" 0) {
  name = "db";
  shutdown_after = "web" ∷ [];
  failure = record default_failure { strategy = kill_dependents };
}

abbrev pub web : Service
web = record (default_service "/" 0) {
  name = "web";
  start_after = "db" ∷ [];
  termination = record default_termination { die_if_failed = "db" ∷ [] };
}

abbrev pub with_status : Service → ServiceStatus → ServiceHandler
with_status s status = record (of_service s) { status = status }

abbrev stopping : ServiceHandler
stopping = record (with_status web in_killing) { pid = some 42; shutting_down_start = some 0 }

change_status-Edge_example :
    (((change_status (with_status web running) in_killing).0.status ≡ running)
      ⊎ Edge running (change_status (with_status web running) in_killing).0.status)
    × ((change_status (with_status web running) in_killing).1
        ≡ (change_status (with_status web running) in_killing).0.status)
change_status-Edge_example = Transitions.change_status-Edge (with_status web running) in_killing

should_force_kill_late_example :
    (should_force_kill stopping (some gracefully) (from_secs 6) ≡ true
      → (p : ℕ) × (some 42 ≡ some p))
    × ((p : ℕ)
        → some 42 ≡ some p
        → some gracefully ≡ some forcefully
        → should_force_kill stopping (some gracefully) (from_secs 6) ≡ true)
    × (some gracefully ≢ some forcefully
        → should_force_kill stopping (some gracefully) (from_secs 6) ≡ true
        → (start : Instant) × (some 0 ≡ some start) × (from_secs 5 < from_secs 6 - start))
    × ((p : ℕ) (start : Instant)
        → some 42 ≡ some p
        → some 0 ≡ some start
        → from_secs 5 + nanos_per_sec ≤ from_secs 6 - start
        → should_force_kill stopping (some gracefully) (from_secs 6) ≡ true)
should_force_kill_late_example =
    Killing.should_force_kill_late stopping (from_secs 6) (some gracefully)

handle_restart_strategy_lem_example :
    (s : ServiceStatus) × (handle_restart_strategy (with_status web failed) true
      ≡ status_update "web" s)
    × ((change_status (with_status web failed) s).0.status ≡ s)
    × (s ≡ initial ↔ Legal.IsRestarted (with_status web failed) true)
    × (s ≡ finished_failed ↔ Legal.IsGivenUp (with_status web failed) true)
    × (s ≡ finished ↔ Legal.IsDone (with_status web failed) true)
handle_restart_strategy_lem_example =
    Legal.handle_restart_strategy_lem (with_status web failed) true refl

-- The database has failed and the web service runs.
abbrev pub repo : Repo
repo = record {
  services = ("db", with_status db failed) ∷ ("web", with_status web running) ∷ [];
  sent = [];
  pid_map = [];
}

next-Obeyable_example :
    All
      (Obeyable (with_status web running))
      (status_update "web" in_killing ∷ Event.kill "web" ∷ [])
unfolding next next_events_shutting_down is_service_killable
next-Obeyable_example =
    Legal.next-Obeyable 0 (with_status web running) repo (shutting_down gracefully) (λ e. cc) refl

abbrev events_of : Option (List Event) → List Event
events_of none = []
events_of (some evs) = evs

next-failed_kill_iff_example :
    let evs = events_of (next 0 (with_status db failed) repo LifecycleStatus.running) in
    (In (Event.kill "web") evs ↔ Doomed repo (with_status db failed) "web")
    × (Doomed repo (with_status db failed) "web" → Failed.Asked "web" evs)
unfolding next next_events get_dependents get_die_if_failed handle_failed_service
    handle_restart_strategy
next-failed_kill_iff_example =
    Failed.next-failed_kill_iff 0 repo (with_status db failed) "web" refl refl
