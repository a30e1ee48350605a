-- ===== src/Startup/Main.antt =====
-- `main` of horust/src/main.rs and Horust::run, with HorustConfig::load_and_merge of
-- horust/src/horust/formats/horust_config.rs. The rounds are those of the supervisor's loop.
pub mod Exits
use horust.Prelude.{ℕ, ◌≡◌, Bool, true, false, ◌||◌, String, Option, none, some, List, [], ◌∷◌}
use horust.Prelude.Tests.{if◌then◌else◌}
use horust.Prelude.Int.{ℤ, pos}
use horust.Prelude.Display.{Display}
use horust.Prelude.Outcome.{Outcome, ok, err, panic, ◌>>=◌, of_option}
use horust.Prelude.Strings.{◌⊕◌}
use horust.Formats.Event.{ExitStatus, some_service_failed, successful, Pid}
use horust.Formats.Service.{Service, PathBuf, from_command}
use horust.Commands.Client.{get_path}
use horust.Supervisor.Handler.{System, new_supervisor}
use horust.Supervisor.Loop as Loop
use horust.Supervisor.Loop.{Round, Progress, going, ended}
use horust.Startup.{Files, Horust, from_services_dirs}

pub record HorustConfig : Type 0 where
  pub unsuccessful_exit_finished_failed : Bool

abbrev config_file : Files → PathBuf → Outcome Bool
config_file fs path =
    if fs.exists path
    then (do content ← of_option (fs.read_to_string path); of_option (fs.parse_config content))
    else ok false

unfoldable pub load_and_merge : Files → HorustConfig → PathBuf → Outcome HorustConfig
load_and_merge fs cmd_line path = do
  file_flag ← config_file fs path
  ok (record {
    unsuccessful_exit_finished_failed = cmd_line.unsuccessful_exit_finished_failed || file_flag;
  })

pub record Opts : Type 0 where
  pub config_path : PathBuf
  pub horust_config : HorustConfig
  pub sample_service : Bool
  pub services_paths : List PathBuf
  pub uds_folder_path : PathBuf
  pub command : List String

-- What a process is given: its number, its directory and user, and how numbers are written.
pub record Process : Type 0 where
  pub getpid : Pid
  pub current_dir : PathBuf
  pub getuid : ℕ
  pub display : Display

-- `join(" ")`
abbrev join_words : List String → String
join_words [] = ""
join_words (w ∷ []) = w
join_words (w ∷ v ∷ rest) = w ⊕ " " ⊕ join_words (v ∷ rest)

-- `is_dir` is asked after the folder has been created.
check_folder : Files → PathBuf → Outcome (Unit {0})
check_folder fs folder =
    let ready = if fs.is_dir folder then ok tt else panic in
    if fs.exists folder then ready else if fs.create_dir_all folder then ready else err

-- The services of the command line, or of the paths.
choose_services : Files → Process → Opts → List String → PathBuf → Outcome Horust
choose_services fs p opts [] uds_path = from_services_dirs fs opts.services_paths uds_path
choose_services fs p opts (w ∷ ws) uds_path = ok (record {
  services = from_command p.current_dir p.getuid (join_words (w ∷ ws)) ∷ [];
  uds_path = uds_path;
})

-- What main does before it runs the services.
unfoldable pub set_up : Files → Process → Opts → Outcome (HorustConfig × Horust)
unfolding check_folder choose_services
set_up fs p opts = do
  config ← load_and_merge fs opts.horust_config opts.config_path
  checked ← check_folder fs opts.uds_folder_path
  horust ←
      choose_services fs p opts opts.command
        (get_path fs.join p.display opts.uds_folder_path (pos p.getpid))
  ok (config, horust)

-- How the process stands: it has ended with a code, it has panicked, or it runs.
pub data Exit : Type 0 where
  code : ℕ → Exit
  panicked : Exit
  runs : Exit

abbrev exit_code : HorustConfig → ExitStatus → ℕ
exit_code config some_service_failed = if config.unsuccessful_exit_finished_failed then 101 else 0
exit_code config successful = 0

-- Horust::run gives the exit status of the supervisor; its panic is one of the join.
after_run : HorustConfig → Option Progress → Exit
after_run config none = panicked
after_run config (some (going s)) = runs
after_run config (some (ended status s)) = code (exit_code config status)

after_set_up : System → Pid → List Round → Outcome (HorustConfig × Horust) → Exit
unfolding after_run
after_set_up system getpid rounds err = code 1
after_set_up system getpid rounds panic = panicked
after_set_up system getpid rounds (ok (config, horust)) =
    after_run config (Loop.run getpid rounds (new_supervisor horust.services system))

unfoldable pub main : Files → Process → System → List Round → Opts → Exit
unfolding after_set_up
main fs p system rounds opts =
    if opts.sample_service then code 0 else after_set_up system p.getpid rounds (set_up fs p opts)
