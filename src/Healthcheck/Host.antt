-- ===== src/Healthcheck/Host.antt =====
-- What the program asks of the system it runs on, at one moment: the file system, the environment,
-- the shell-like splitting of a command (shlex), an HTTP request (reqwest) and the run of a command.
-- None of it is the program's own code, so its answers are a parameter.
use Prim.Native.Char.{code}
use horust.Prelude.{ℕ, Bool, false, ◌||◌, String, Option, none, some, List, [], ◌∷◌}
use horust.Prelude.Tests.{nat_eq, if◌then◌else◌}
use horust.Prelude.Outcome.{Outcome, ◌>>=◌, of_option, expect}
use horust.Formats.Service.{PathBuf}

pub record Host : Type 0 where
  -- Path::exists and Path::is_file
  pub exists : PathBuf → Bool
  pub is_file : PathBuf → Bool
  -- Path::join and std::env::split_paths
  pub join : PathBuf → String → PathBuf
  pub split_paths : String → List PathBuf
  -- std::fs::remove_file; false is an error
  pub remove_file : PathBuf → Bool
  -- std::env::var_os
  pub var_os : String → Option String
  -- OsString::into_string; none where it is not Unicode
  pub into_string : PathBuf → Option String
  -- shlex::split
  pub split : String → Option (List String)
  -- a HEAD request with a second of patience: the status code of its answer
  pub head : String → Option ℕ
  -- a run of the program and its arguments: whether it exits with code 0, and none if it cannot be run
  pub succeeds : String → List String → Option Bool

-- str::contains('/')
abbrev pub has_slash : String → Bool
has_slash String.[] = false
has_slash (String.◌∷◌ c s) = nat_eq (code c) b'/' || has_slash s

abbrev pub first_file : Host → String → List PathBuf → Option PathBuf
first_file host name [] = none
first_file host name (p ∷ ps) =
    let rest = first_file host name ps in
    if host.is_file (host.join p name) then some (host.join p name) else rest

-- find_program of horust/src/horust/supervisor/process_spawner.rs
unfoldable pub find_program : Host → String → Outcome String
find_program host name = do
  path_var ← of_option (host.var_os "PATH")
  path ← of_option (first_file host name (host.split_paths path_var))
  expect (host.into_string path)
