-- ===== src/Supervisor/Repo.antt =====
-- The services under supervision, horust/src/horust/supervisor/repo.rs. `sent` lists what went out
-- over the bus, the oldest first; what comes in is an argument of the supervisor's loop. A missing
-- service makes `unwrap` panic.
pub mod Readiness
pub mod Lowest
use horust.Prelude.{
  ℕ, ◌≡◌, Bool, true, false, ◌&&◌, ◌||◌, Option, none, some, List, [], ◌∷◌, ◌++◌, map,
}
use horust.Prelude.Tests.{◌==◌, if◌then◌else◌, Nat_eq, String_eq}
use horust.Prelude.Lists.{all, any, contains, filter}
use horust.Prelude.HashMap.{HashMap, get, insert, remove, extend, keys}
use horust.Prelude.Panic.{◌>>=◌, try_all}
use horust.Formats.Service.{Service, ServiceName}
use horust.Formats.Event.{Event, Pid}
use horust.Supervisor.ServiceHandler.{
  ServiceHandler, of_service, is_initial, is_running, is_finished, is_finished_failed,
}

pub record Repo : Type 0 where
  pub services : HashMap ServiceName ServiceHandler
  pub sent : List Event
  pub pid_map : HashMap Pid ServiceName

-- Repo::new
unfoldable pub new_repo : List Service → Repo
new_repo services = record {
  services = extend [] (map (λ s. (s.name, of_service s)) services);
  sent = [];
  pid_map = [];
}

abbrev pub insert_sh_by_name : Repo → ServiceName → ServiceHandler → Repo
insert_sh_by_name repo name sh = record repo { services = insert repo.services name sh }

abbrev pub get_service_by_pid : Repo → Pid → Option ServiceName
get_service_by_pid repo pid = get repo.pid_map pid

abbrev pub add_pid : Repo → Pid → ServiceName → Repo
add_pid repo pid name = record repo { pid_map = insert repo.pid_map pid name }

abbrev pub remove_pid : Repo → Pid → Repo
remove_pid repo pid = record repo { pid_map = remove repo.pid_map pid }

abbrev pub is_terminal : ServiceHandler → Bool
is_terminal sh = is_finished sh || is_finished_failed sh

unfoldable pub all_have_finished : Repo → Bool
all_have_finished repo = all (λ entry. is_terminal entry.1) repo.services

-- get_sh and get_mut_sh
abbrev pub get_sh : Repo → ServiceName → Option ServiceHandler
get_sh repo name = get repo.services name

unfoldable pub get_dependents : Repo → ServiceName → List ServiceName
get_dependents repo name =
    keys (filter (λ entry. contains entry.1.service.start_after name) repo.services)

unfoldable pub get_die_if_failed : Repo → ServiceName → List ServiceName
get_die_if_failed repo name =
    keys (filter (λ entry. contains entry.1.service.termination.die_if_failed name) repo.services)

abbrev pub send_ev : Repo → Event → Repo
send_ev repo ev = record repo { sent = repo.sent ++ ev ∷ [] }

abbrev pub is_ready : ServiceHandler → Bool
is_ready sh = is_running sh || is_finished sh

-- The test of a service that is looked up by name.
abbrev pub test_service : (ServiceHandler → Bool) → Repo → ServiceName → Option Bool
test_service p repo name = do sh ← get_sh repo name; some (p sh)

unfoldable pub is_service_runnable : Repo → ServiceHandler → Option Bool
is_service_runnable repo sh =
    let deps = try_all (test_service is_ready repo) sh.service.start_after in
    if is_initial sh then deps else some false

unfoldable pub is_service_killable : Repo → ServiceHandler → Option Bool
is_service_killable repo sh = try_all (test_service is_terminal repo) sh.service.shutdown_after

unfoldable pub any_finished_failed : Repo → Bool
any_finished_failed repo = any (λ entry. is_finished_failed entry.1) repo.services
