-- ===== src/Startup.antt =====
-- The loading of the services: horust/src/horust/mod.rs.
pub mod Loading
pub mod Faults
pub mod Main
pub mod Threads
mod Examples
use horust.Prelude.{
  ℕ, ◌≡◌, Bool, true, false, ◌&&◌, ◌||◌, String, Option, none, some, List, [], ◌∷◌, ◌++◌,
}
use horust.Prelude.Tests.{◌==◌, String_eq, if◌then◌else◌}
use horust.Prelude.Lists.{filter, filter_map}
use horust.Prelude.Outcome.{Outcome, ok, err, panic, ◌>>=◌, of_option, expect}
use horust.Prelude.Strings.{ends_with}
use horust.Formats.Service.{Service, PathBuf}
use horust.Formats.Validation as Validation
use horust.Formats.Validation.{validate}
use horust.Supervisor.ServiceHandler.{unwrap_or}

-- The files as the program finds them, and the parsers of their contents: shellexpand::full and
-- toml::from_str.
pub record Files : Type 0 where
  pub is_file : PathBuf → Bool
  pub exists : PathBuf → Bool
  pub is_dir : PathBuf → Bool
  pub create_dir_all : PathBuf → Bool
  -- std::fs::read_dir, with `none` for an entry that cannot be read
  pub read_dir : PathBuf → Option (List (Option PathBuf))
  pub read_to_string : PathBuf → Option String
  -- Path::extension, with `none` for one that is not Unicode too, Path::file_name and Path::join
  pub extension : PathBuf → Option String
  pub file_name : PathBuf → Option PathBuf
  -- OsStr::to_str, with `none` where it is not Unicode
  pub to_str : PathBuf → Option String
  pub join : PathBuf → String → PathBuf
  pub expand : String → Option String
  pub parse_service : String → Option Service
  -- the flag of the configuration file
  pub parse_config : String → Option Bool

-- Service::from_file
abbrev pub from_file : Files → PathBuf → Option Service
from_file fs path = elim (fs.read_to_string path) [
  | none ↦ none
  | some preconfig ↦ elim (fs.expand preconfig) [
    | none ↦ none
    | some postconfig ↦ fs.parse_service postconfig
  ]
]

-- A service without a name takes that of its file.
named : Files → PathBuf → Service → Outcome Service
named fs path service =
    if service.name == ""
    then (do
      file_name ← expect (fs.file_name path)
      filename ← expect (fs.to_str file_name)
      ok (record service { name = filename }))
    else ok service

unfoldable pub load_service : Files → PathBuf → Outcome Service
unfolding named
load_service fs path = do service ← of_option (from_file fs path); named fs path service

unfoldable pub is_toml_file : Files → PathBuf → Bool
is_toml_file fs path = fs.is_file path && ends_with (unwrap_or (fs.extension path) "") "toml"

-- `.filter_map(Result::ok)` drops the files that do not load.
abbrev keep_loaded : Outcome Service → Outcome (List Service) → Outcome (List Service)
keep_loaded panic rest = panic
keep_loaded err rest = rest
keep_loaded (ok service) rest = do services ← rest; ok (service ∷ services)

abbrev pub load_all : Files → List PathBuf → Outcome (List Service)
load_all fs [] = ok []
load_all fs (p ∷ ps) = keep_loaded (load_service fs p) (load_all fs ps)

abbrev readable : Option (List (Option PathBuf)) → Outcome (List PathBuf)
readable none = err
readable (some entries) = ok (filter_map (λ entry. entry) entries)

-- The files that a path stands for: itself, or the entries of the directory.
abbrev pub list_paths : Files → PathBuf → Outcome (List PathBuf)
list_paths fs path = if fs.is_file path then ok (path ∷ []) else readable (fs.read_dir path)

unfoldable pub fetch_services : Files → PathBuf → Outcome (List Service)
fetch_services fs path = do paths ← list_paths fs path; load_all fs (filter (is_toml_file fs) paths)

-- The first path that fails ends the loading.
unfoldable pub load_services_from_folders : Files → List PathBuf → Outcome (List Service)
load_services_from_folders fs [] = ok []
load_services_from_folders fs (p ∷ ps) =
    let rest = load_services_from_folders fs ps in
    do services ← fetch_services fs p; others ← rest; ok (services ++ others)

pub record Horust : Type 0 where
  pub services : List Service
  pub uds_path : PathBuf

judged : Validation.Result → Outcome (List Service)
judged (Validation.ok services) = ok services
judged (Validation.err errors) = err

unfoldable pub from_services_dirs : Files → List PathBuf → PathBuf → Outcome Horust
unfolding judged
from_services_dirs fs paths uds_path = do
  services ← load_services_from_folders fs paths
  services ← judged (validate services)
  ok (record { services = services; uds_path = uds_path })
