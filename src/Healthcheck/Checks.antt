-- ===== src/Healthcheck/Checks.antt =====
-- The three checks, horust/src/horust/healthcheck/checks.rs, and the functions of
-- horust/src/horust/healthcheck/mod.rs that run them. `Parsed` is the table PARSED_COMMANDS. The
-- program is taken as built with the feature http-healthcheck.
pub mod Verdict
use horust.Prelude.{ℕ, ◌&&◌, Bool, true, false, String, Option, none, some, List, [], ◌∷◌}
use horust.Prelude.Tests.{ltb, leb, if◌then◌else◌, String_eq}
use horust.Prelude.Lists.{all}
use horust.Prelude.HashMap.{HashMap, get, insert}
use horust.Prelude.Panic.{try_all}
use horust.Prelude.Outcome.{Outcome, ◌>>=◌, ok, err, panic, of_option}
use horust.Formats.Service.{Healthiness}
use horust.Formats.Event.{HealthinessStatus, of_bool}
use horust.Healthcheck.Host.{Host, has_slash, find_program}

abbrev pub Parsed : Type 0
Parsed = HashMap String (List String)

-- CHECKS, in its order
pub data Check : Type 0 where
  file_path_check http_check command_check : Check

abbrev pub get_checks : List Check
get_checks = file_path_check ∷ http_check ∷ command_check ∷ []

-- `.map(f).unwrap_or(d)`
abbrev pub map_or {ℓ κ} : {A : Type ℓ} {B : Type κ} → B → (A → B) → Option A → B
map_or d f none = d
map_or d f (some a) = f a

-- `cmds[0]` and `cmds[1..]`; an entry of the table is never empty.
abbrev pub execute : Host → List String → Option Bool
execute host [] = none
execute host (program ∷ args) = host.succeeds program args

-- `status().is_success()`: any code of the form 2xx
abbrev pub is_success : Option ℕ → Bool
is_success none = false
is_success (some status) = leb 200 status && ltb status 300

-- Check::run; `none` is a panic.
unfoldable pub run_check : Host → Parsed → Healthiness → Check → Option Bool
run_check host parsed h http_check =
    some (map_or true (λ endpoint. is_success (host.head endpoint)) h.http_endpoint)
run_check host parsed h file_path_check = some (map_or true host.exists h.file_path)
run_check host parsed h command_check =
    map_or (some true) (λ command. map_or (some false) (execute host) (get parsed command))
      h.command

-- `.into()`
abbrev pub into_status : Option Bool → Option HealthinessStatus
into_status none = none
into_status (some b) = some (of_bool b)

unfoldable pub check_health : Host → Parsed → Healthiness → Option HealthinessStatus
unfolding run_check
check_health host parsed h = into_status (try_all (run_check host parsed h) get_checks)

abbrev locate : Host → String → Outcome String
locate host program = if has_slash program then ok program else find_program host program

abbrev head_tail : List String → Option (String × List String)
head_tail [] = none
head_tail (x ∷ xs) = some (x, xs)

-- prepare_cmd: the table after it, or an error or a panic
unfoldable pub prepare_cmd : Host → String → Parsed → Outcome Parsed
prepare_cmd host cmd parsed = do
  chunks ← of_option (host.split cmd)
  (program, args) ← of_option (head_tail chunks)
  path ← locate host program
  ok (insert parsed cmd (path ∷ args))

abbrev prepare_file : Host → String → Bool
prepare_file host file = if host.exists file then host.remove_file file else true

-- Check::prepare
unfoldable pub prepare : Host → Healthiness → Check → Parsed → Outcome Parsed
unfolding prepare_cmd
prepare host h http_check parsed = ok parsed
prepare host h file_path_check parsed =
    if map_or true (prepare_file host) h.file_path then ok parsed else err
prepare host h command_check parsed =
    map_or (ok parsed) (λ command. prepare_cmd host command parsed) h.command

-- `collect` into a `Result` stops at the first error, and keeps what the checks before it did.
abbrev prepare_all : Host → Healthiness → List Check → Parsed → Option (Parsed × Bool)
prepare_all host h [] parsed = some (parsed, true)
prepare_all host h (c ∷ cs) parsed = elim (prepare host h c parsed) [
  | panic ↦ none
  | err ↦ some (parsed, false)
  | ok parsed' ↦ prepare_all host h cs parsed'
]

-- The table after the preparation, and whether it succeeded; `none` is a panic.
unfoldable pub prepare_service : Host → Healthiness → Parsed → Option (Parsed × Bool)
unfolding prepare
prepare_service host h parsed = prepare_all host h get_checks parsed
