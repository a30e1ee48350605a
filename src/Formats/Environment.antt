-- ===== src/Formats/Environment.antt =====
-- The environment variables of a new process: `Environment::get_environment` of
-- horust/src/horust/formats/service.rs. `Variables` is what the program asks of the system: its own
-- variables that are Unicode, each name once, and the file that names the host.
pub mod Precedence
use Prim.Native.String
use horust.Prelude.{
  ◌≡◌, Bool, true, false, String, Option, none, some, List, [], ◌∷◌, ◌++◌, map, not, ◌&&◌,
}
use horust.Prelude.Outcome.{Outcome, ok, panic}
use horust.Prelude.Tests.{◌==◌, if◌then◌else◌, String_eq}
use horust.Prelude.Lists.{filter_map}
use horust.Prelude.HashMap.{HashMap, get, insert, extend, or_insert}
use horust.Prelude.Panic.{◌>>=◌}
use horust.Formats.Service.{Environment}

pub record Variables : Type 0 where
  -- std::env::vars and std::env::var
  pub vars : HashMap String String
  -- whether all of them are Unicode: std::env::vars panics if one is not, and std::env::var takes it as
  -- not there
  pub are_unicode : Bool
  -- whether /etc/hostname is a file, and its text, if it can be read
  pub is_hostname_file : Bool
  pub hostname_file : Option String

abbrev pub var : Variables → String → Option String
var v name = get v.vars name

abbrev pub or_default : Option String → String → String
or_default none d = d
or_default (some s) d = s

abbrev pub get_hostname_val : Variables → String
get_hostname_val v =
    if v.is_hostname_file
    then or_default v.hostname_file "localhost"
    else or_default (var v "HOSTNAME") "localhost"

abbrev default_path : String
default_path =
    "/usr/local/sbin:/usr/local/bin:/usr/sbin:/usr/bin:/sbin:/bin:/usr/games:/usr/local/games"

-- The predefined variables.
abbrev pub predefined : Variables → String → String → List (String × String)
predefined v user_name user_home =
    ("HOSTNAME", get_hostname_val v)
    ∷ ("PATH", or_default (var v "PATH") default_path)
    ∷ ("USER", user_name)
    ∷ ("HOME", user_home)
    ∷ []

abbrev add_term : Option String → HashMap String String → HashMap String String
add_term none m = m
add_term (some term) m = or_insert m "TERM" term

abbrev exported : Variables → String → Option (String × String)
exported v key = do value ← var v key; some (key, value)

-- Entries that are put in where their key is still free.
abbrev fill : HashMap String String → List (String × String) → HashMap String String
fill m [] = m
fill m ((k, x) ∷ rest) = fill (or_insert m k x) rest

-- The variables, before they are written as text.
unfoldable pub environment : Variables → Environment → String → String → HashMap String String
environment v e user_name user_home =
    let kept : HashMap String String = if e.keep_env then v.vars else [] in
    let initial = extend kept (extend [] (predefined v user_name user_home)) in
    let with_term = add_term (var v "TERM") initial in
    let re_export = extend [] (filter_map (exported v) e.re_export) in
    fill e.additional (extend with_term re_export)

-- `format!("{}={}", k, v)`
abbrev assignment : String × String → String
assignment (k, x) = String.◌++◌ k (String.◌++◌ "=" x)

unfoldable pub get_environment : Variables → Environment → String → String → Outcome (List String)
get_environment v e user_name user_home =
    if e.keep_env && not v.are_unicode
    then panic
    else ok (map assignment (environment v e user_name user_home))
