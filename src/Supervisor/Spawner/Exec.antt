-- ===== src/Supervisor/Spawner/Exec.antt =====
-- exec_args and spawn_process of horust/src/horust/supervisor/process_spawner.rs, up to the fork.
pub mod Args
pub mod Limited
use Prim.Native.Char.{code}
use horust.Prelude.{ℕ, ◌≡◌, Bool, true, false, ◌||◌, String, Option, none, some, List, [], ◌∷◌}
use horust.Prelude.Tests.{ltb, nat_eq, if◌then◌else◌}
use horust.Prelude.Int.{ℤ}
use horust.Prelude.Outcome.{Outcome, ok, err, panic, ◌>>=◌, of_option}
use horust.Formats.Service.{Service, LogOutput, pipe}
use horust.Formats.Event.{Pid}
use horust.Formats.Environment.{Variables}
use horust.Formats.Limits.{Call, Cgroups, apply}
use horust.Formats.User.{Users, get_uid, get_environment}
use horust.Healthcheck.Host.{Host, has_slash, find_program}
use horust.Supervisor.Spawner.Child.{Program}

abbrev pub has_nul : String → Bool
has_nul String.[] = false
has_nul (String.◌∷◌ c s) = nat_eq (code c) 0 || has_nul s

-- CString::new refuses a text with a NUL.
abbrev to_cstring : String → Outcome String
to_cstring s = if has_nul s then err else ok s

abbrev to_cstrings : List String → Outcome (List String)
to_cstrings [] = ok []
to_cstrings (s ∷ ss) = let rest = to_cstrings ss in do c ← to_cstring s; cs ← rest; ok (c ∷ cs)

-- `chunks.first().unwrap()`
abbrev first : List String → Outcome String
first [] = panic
first (x ∷ xs) = ok x

abbrev locate : Host → String → Outcome String
locate host program_name =
    if has_slash program_name then ok program_name else find_program host program_name

unfoldable pub exec_args : Host → Variables → Users → Service → Outcome Program
exec_args host v users service = do
  chunks ← of_option (host.split service.command)
  program_name ← first chunks
  arg_cstrings ← to_cstrings chunks
  environment ← get_environment v users service
  env_cstrings ← to_cstrings environment
  path ← locate host program_name
  file ← to_cstring path
  ok (record { file = file; args = arg_cstrings; env = env_cstrings })

-- What the system answers: the write end of a new pipe, the process that fork makes, and the calls that
-- limit it.
pub record Forking : Type 0 where
  pub pipe_write : Option ℤ
  pub fork : Option Pid
  pub cgroups : Cgroups

-- What the parent has then: the process, what its child runs and with which service, whether a thread
-- writes its log, and what was done to limit the process: an error of that is only logged.
pub record Spawned : Type 0 where
  pub pid : Pid
  pub program : Program
  pub uid : ℕ
  pub child : Service
  pub writes_log : Bool
  pub limited : List Call

abbrev rotates : Service → Bool
rotates service = ltb 0 service.stdout_rotate_size

-- The service that the child runs with.
abbrev service_copy : Service → Forking → Outcome Service
service_copy service f =
    let piped = (do fd ← of_option f.pipe_write; ok (record service { stdout = pipe fd })) in
    if rotates service then piped else ok service

unfoldable pub spawn_process : Host → Variables → Users → Forking → Service → Outcome Spawned
unfolding exec_args
spawn_process host v users f service = do
  program ← exec_args host v users service
  uid ← of_option (get_uid users service.user)
  child ← service_copy service f
  pid ← of_option f.fork
  ok (record {
    pid = pid;
    program = program;
    uid = uid;
    child = child;
    writes_log = rotates service;
    limited = (apply f.cgroups service.resource_limit service.name pid).0;
  })
