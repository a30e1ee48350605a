-- ===== src/Startup/Examples.antt =====
-- A directory with one good file, and a command that cannot be started.
use horust.Prelude.{◌≢◌, ◌↔◌, refl, inl, inr, true, false, ◌||◌, Option, none, some, List, [], ◌∷◌}
use horust.Prelude.Tests.{◌==◌, String_eq, if◌then◌else◌}
use horust.Prelude.Lists.{All, In, here}
use horust.Bus.{Step, send, turn, receive, steps}
use horust.Commands.{handle_events, initial_statuses, new_commands_handler}
use horust.Startup.Threads.{commands_connector, start_threads}
use horust.Startup.Threads.Announced
use horust.Prelude.Unary.{unary}
use horust.Formats.Status.{starting, finished_failed}
use horust.Formats.Service.{Service, default_service, from_command}
use horust.Formats.Event.{Event, status_changed, status_update, spawn_failed, some_service_failed}
use horust.Formats.Validation.{validate}
use horust.Formats.Validation.Laws.{IsWellFormed}
use horust.Healthcheck.Host.{Host}
use horust.Supervisor.Repo.{
  new_repo, all_have_finished, any_finished_failed, is_service_runnable, get_dependents,
  get_die_if_failed,
}
use horust.Supervisor.Repo.Readiness.{IsTerminal}
use horust.Commands.Client.{get_path}
use horust.Healthcheck.Checks.{prepare_service, prepare}
use horust.Supervisor.ServiceHandler.{change_status, handle_restart_strategy, handle_failed_service}
use horust.Supervisor.Next.{next, next_events}
use horust.Supervisor.Reaper.{reap}
use horust.Supervisor.Handler.{
  System, Supervisor, new_supervisor, handle_event, on_run, on_spawn_failed, on_status_update,
}
use horust.Supervisor.Loop as Loop
use horust.Supervisor.Loop.{Round, Progress, going, ended}
use horust.Startup.{
  Files, Horust, from_services_dirs, load_services_from_folders, fetch_services, is_toml_file,
  load_service,
}
use horust.Startup.Faults
use horust.Startup.Loading.{FromPath}
use horust.Startup.Main.{HorustConfig, Opts, Process, set_up, load_and_merge, main}
use horust.Startup.Main.Exits
use horust.Startup.Main.Exits.{CodeTells}

-- The file has no name for its service, and one of the entries cannot be read.
abbrev files : Files
files = record {
  is_file = λ p. p == "/etc/horust/services/web.toml" || p == "/etc/horust/services/notes.txt";
  exists = λ p. false;
  is_dir = λ p. true;
  create_dir_all = λ p. true;
  read_dir = λ p.
      some
        (some "/etc/horust/services/web.toml" ∷ none ∷ some "/etc/horust/services/notes.txt" ∷ []);
  read_to_string = λ p. some "command = web";
  extension = λ p. if p == "/etc/horust/services/notes.txt" then some "txt" else some "toml";
  file_name = λ p. some "web.toml";
  to_str = λ p. some p;
  join = λ p n. n;
  expand = λ s. some s;
  parse_service = λ s. some (record (default_service "/" 0) { command = s });
  parse_config = λ s. none;
}

abbrev loaded : Horust
loaded = record {
  services = record (default_service "/" 0) { name = "web.toml"; command = "command = web" } ∷ [];
  uds_path = "/run/horust.sock";
}

from_services_dirs-Tells_example :
    ((s : Service) → In s loaded.services ↔ FromPath files ("/etc/horust/services" ∷ []) s)
    × All (IsWellFormed loaded.services) loaded.services
unfolding from_services_dirs load_services_from_folders fetch_services is_toml_file load_service
    validate
from_services_dirs-Tells_example =
    Faults.from_services_dirs-Tells files ("/etc/horust/services" ∷ []) "/run/horust.sock"

abbrev host : Host
host = record {
  exists = λ p. true;
  is_file = λ p. true;
  join = λ p n. n;
  split_paths = λ s. s ∷ [];
  remove_file = λ p. true;
  var_os = λ n. none;
  into_string = λ p. some p;
  split = λ s. some (s ∷ []);
  head = λ u. some 200;
  succeeds = λ p a. some true;
}

abbrev system : System
system = record {
  sigterm_received = false;
  signals = [];
  broadcasts = [];
  spawned = [];
  parsed = [];
}

abbrev flag : HorustConfig
flag = record { unsuccessful_exit_finished_failed = true }

abbrev opts : Opts
opts = record {
  config_path = "/etc/horust/horust.toml";
  horust_config = flag;
  sample_service = false;
  services_paths = [];
  uds_folder_path = "/run/horust";
  command = "no" ∷ "such" ∷ [];
}

abbrev process : Process
process = record { getpid = 7; current_dir = "/"; getuid = 0; display = unary }

abbrev from_command_line : Horust
from_command_line = record {
  services = from_command "/" 0 "no such" ∷ [];
  uds_path = "horust-1111111.sock";
}

abbrev receives : Event → Round
receives ev = record {
  host = host;
  received = (0, ev) ∷ [];
  now = 0;
  answers = [];
  sigterm = false;
}

abbrev rounds : List Round
rounds =
    receives (Event.run "no such")
    ∷ receives (spawn_failed "no such")
    ∷ receives (status_update "no such" finished_failed)
    ∷ []

abbrev first_state : Supervisor
first_state = new_supervisor from_command_line.services system

abbrev result : Option Progress
result = Loop.run 7 rounds first_state

abbrev last_state : Option Progress → Supervisor
last_state (some (going s)) = s
last_state (some (ended status s)) = s
last_state none = first_state

main-CodeTells_example :
    All (λ entry. IsTerminal entry.1.status) (last_state result).repo.services
    × CodeTells files opts (last_state result) (main files process system rounds opts)
unfolding set_up load_and_merge get_path Loop.run all_have_finished new_repo Loop.round
    Loop.handle_all handle_event on_run Loop.on_sigterm prepare_service prepare Loop.next_all next
    next_events reap on_spawn_failed on_status_update change_status is_service_runnable
    Loop.exit_status Loop.finish any_finished_failed handle_restart_strategy handle_failed_service
    get_dependents get_die_if_failed
main-CodeTells_example =
    Exits.main-CodeTells files process system rounds opts {horust = from_command_line}
      {status = some_service_failed} refl refl refl

-- The supervisor announces that the service is starting, after another thread has sent an event.
abbrev bus_steps : List (Step Event)
bus_steps =
    send (spawn_failed "no such")
    ∷ send (status_changed "no such" starting)
    ∷ turn
    ∷ turn
    ∷ receive commands_connector
    ∷ []

abbrev one_round : List Round
one_round = receives (Event.run "no such") ∷ []

start_threads-handle_events_example :
    handle_events true
      (steps commands_connector bus_steps (start_threads true true from_command_line system).bus).0
      (initial_statuses ("no such" ∷ []))
    ≢ none
unfolding start_threads new_commands_handler Loop.run all_have_finished new_repo Loop.round
    Loop.handle_all handle_event on_run Loop.on_sigterm prepare_service prepare Loop.next_all next
    next_events reap
start_threads-handle_events_example =
    Announced.start_threads-handle_events true true from_command_line system 7 one_round bus_steps
      {s = last_state (Loop.run 7 one_round first_state)} refl refl
      (λ e. cc, (λ e. cc, (λ e. cc, (λ e. cc, (λ e. cc, tt))))) (inr tt, (inl here, tt))
