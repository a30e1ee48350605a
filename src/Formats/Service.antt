-- ===== src/Formats/Service.antt =====
-- The configuration of a service: the structs and enums of horust/src/horust/formats/service.rs and
-- their defaults. A path is its text, a `Duration` its nanoseconds, and an `f64` its 64 bits.
use horust.Prelude.{
  ℕ, ◌*◌, ◌/◌, Bool, true, false, ◌&&◌, ◌||◌, String, Option, none, some, List, [], ◌∷◌,
}
use horust.Prelude.Int.{ℤ, pos}
use horust.Prelude.HashMap.{HashMap}

abbrev pub ServiceName : Type 0
ServiceName = String

abbrev pub PathBuf : Type 0
PathBuf = String

abbrev pub Duration : Type 0
Duration = ℕ

abbrev pub nanos_per_sec : ℕ
nanos_per_sec = 1000000000

abbrev pub from_secs : ℕ → Duration
from_secs n = n * nanos_per_sec

abbrev pub as_secs : Duration → ℕ
as_secs d = d / nanos_per_sec

pub data LogOutput : Type 0 where
  stderr stdout : LogOutput
  path : PathBuf → LogOutput
  pipe : ℤ → LogOutput

pub record Environment : Type 0 where
  pub keep_env : Bool
  pub re_export : List String
  pub additional : HashMap String String

pub record Healthiness : Type 0 where
  pub http_endpoint : Option String
  pub file_path : Option PathBuf
  pub command : Option String
  pub max_failed : ℤ  -- i32

pub data User : Type 0 where
  uid : ℕ → User
  name : String → User

pub data RestartStrategy : Type 0 where
  always on_failure never : RestartStrategy

pub record Restart : Type 0 where
  pub strategy : RestartStrategy
  pub backoff : Duration
  pub attempts : ℕ  -- u32

pub data FailureStrategy : Type 0 where
  shutdown kill_dependents ignore : FailureStrategy

pub record Failure : Type 0 where
  pub successful_exit_code : List ℤ  -- i32
  pub strategy : FailureStrategy

pub data TerminationSignal : Type 0 where
  hup int quit ill trap abrt bus fpe usr1 segv usr2 pipe alrm term stkflt : TerminationSignal
  chld cont stop tstp ttin ttou urg xcpu xfsz vtalrm prof winch io pwr sys : TerminationSignal

pub record Termination : Type 0 where
  pub signal : TerminationSignal
  pub wait : Duration
  pub die_if_failed : List ServiceName

pub record ResourceLimit : Type 0 where
  pub cpu : Option ℕ
  pub memory : Option ℕ
  pub pids_max : Option ℕ

pub record Service : Type 0 where
  pub name : ServiceName
  pub command : String
  pub user : User
  pub working_directory : PathBuf
  pub stdout : LogOutput
  pub stdout_rotate_size : ℕ
  pub stdout_should_append_timestamp_to_filename : Bool
  pub stderr : LogOutput
  pub start_delay : Duration
  pub start_after : List ServiceName
  pub shutdown_after : List ServiceName
  pub signal_rewrite : Option String
  pub restart : Restart
  pub healthiness : Healthiness
  pub failure : Failure
  pub environment : Environment
  pub termination : Termination
  pub resource_limit : ResourceLimit

abbrev is_some {ℓ} : {A : Type ℓ} → Option A → Bool
is_some none = false
is_some (some a) = true

abbrev is_none {ℓ} : {A : Type ℓ} → Option A → Bool
is_none none = true
is_none (some a) = false

unfoldable pub has_any_check_defined : Healthiness → Bool
has_any_check_defined h = is_some h.http_endpoint || is_some h.file_path || is_some h.command

unfoldable pub has_no_limit : ResourceLimit → Bool
has_no_limit r = is_none r.cpu && is_none r.memory && is_none r.pids_max

-- The `Default` instances and the serde defaults.
abbrev pub default_restart : Restart
default_restart = record { strategy = never; backoff = from_secs 0; attempts = 0 }

abbrev pub default_healthiness : Healthiness
default_healthiness = record {
  http_endpoint = none;
  file_path = none;
  command = none;
  max_failed = pos 3;
}

abbrev pub default_failure : Failure
default_failure = record { successful_exit_code = pos 0 ∷ []; strategy = ignore }

abbrev pub default_environment : Environment
default_environment = record { keep_env = false; re_export = []; additional = [] }

abbrev pub default_termination : Termination
default_termination = record { signal = term; wait = from_secs 5; die_if_failed = [] }

abbrev pub default_resource_limit : ResourceLimit
default_resource_limit = record { cpu = none; memory = none; pids_max = none }

-- Service::default, with the current directory and the user id of the process as arguments.
abbrev pub default_service : PathBuf → ℕ → Service
default_service current_dir getuid = record {
  name = "";
  start_after = [];
  shutdown_after = [];
  working_directory = current_dir;
  stdout = LogOutput.stdout;
  stdout_rotate_size = 0;
  stdout_should_append_timestamp_to_filename = false;
  stderr = LogOutput.stdout;
  user = uid getuid;
  restart = default_restart;
  start_delay = from_secs 0;
  command = "command";
  healthiness = default_healthiness;
  signal_rewrite = none;
  environment = default_environment;
  failure = default_failure;
  termination = default_termination;
  resource_limit = default_resource_limit;
}

abbrev pub from_command : PathBuf → ℕ → String → Service
from_command current_dir getuid command = record (default_service current_dir getuid) {
  name = command;
  command = command;
}
