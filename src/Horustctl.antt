-- ===== src/Horustctl.antt =====
-- The command-line client: horustctl/src/main.rs.
pub mod Socket
mod Examples
use horust.Prelude.{ℕ, ◌≡◌, Bool, true, false, ◌&&◌, String, Option, none, some, List, [], ◌∷◌}
use horust.Prelude.Tests.{if◌then◌else◌}
use horust.Prelude.Lists.{filter_map}
use horust.Prelude.Int.{ℤ}
use horust.Prelude.Display.{Display}
use horust.Prelude.Outcome.{Outcome, ok, err, panic, ◌>>=◌, of_option}
use horust.Prelude.Strings.{◌⊕◌, starts_with, ends_with}
use horust.Formats.Service.{PathBuf, ServiceName}
use horust.Commands.Proto.{HorustMsgServiceStatus, as_str_name}
use horust.Commands.Client.{Codec, get_path, send_status_request}

-- An entry of a directory, with its name and whether it is a socket, if its type can be read.
pub record DirEntry : Type 0 where
  pub is_socket : Option Bool
  pub file_name : String

-- The folders, with `none` for an entry that cannot be read, and Path::join.
pub record Folders : Type 0 where
  pub exists : PathBuf → Bool
  pub is_dir : PathBuf → Bool
  pub read_dir : PathBuf → Option (List (Option DirEntry))
  pub join : PathBuf → String → PathBuf

abbrev is_horust_socket : DirEntry → Bool → Bool
is_horust_socket d is_socket =
    is_socket && starts_with d.file_name "horust-" && ends_with d.file_name ".sock"

unfoldable pub socket_entry : DirEntry → Option String
socket_entry d = elim d.is_socket [
  | none ↦ none
  | some is_socket ↦ if is_horust_socket d is_socket then some d.file_name else none
]

-- The sockets of the folder.
unfoldable pub sockets : List (Option DirEntry) → List String
sockets entries = filter_map socket_entry (filter_map (λ d. d) entries)

-- The only one.
abbrev pub single : List String → Outcome String
single [] = err
single (ret ∷ []) = ok ret
single (ret ∷ other ∷ rest) = err

abbrev find_socket : Folders → Display → PathBuf → Option ℤ → Outcome PathBuf
find_socket fs d folder none = do
  entries ← of_option (fs.read_dir folder)
  ret ← single (sockets entries)
  ok (fs.join folder ret)
find_socket fs d folder (some pid) = ok (get_path fs.join d folder pid)

unfoldable pub get_uds_path : Folders → Display → Option ℤ → PathBuf → Outcome PathBuf
get_uds_path fs d pid folder =
    if fs.exists folder then if fs.is_dir folder then find_socket fs d folder pid else err else err

pub record HorustctlArgs : Type 0 where
  pub pid : Option ℤ
  pub uds_folder_path : PathBuf
  pub socket_path : Option PathBuf
  pub service_name : Option ServiceName

-- `expect` and `unwrap`
expect {ℓ} : {A : Type ℓ} → Outcome A → Outcome A
expect err = panic
expect o = o

some_name : Option ServiceName → Outcome ServiceName
some_name none = panic
some_name (some name) = ok name

choose_path : Folders → Display → HorustctlArgs → Option PathBuf → Outcome PathBuf
unfolding expect
choose_path fs d args (some path) = ok path
choose_path fs d args none = expect (get_uds_path fs d args.pid args.uds_folder_path)

-- main, with the line that it prints. `connect` gives the connection of a socket, if it can be made.
unfoldable pub main :
    Folders
    → Display
    → Codec
    → (PathBuf → Option (List ℕ → Option (List ℕ)))
    → HorustctlArgs
    → Outcome String
unfolding choose_path some_name
main fs d codec connect args = do
  uds_path ← choose_path fs d args args.socket_path
  connection ← of_option (connect uds_path)
  asked ← some_name args.service_name
  (service_name, service_status) ← send_status_request codec connection asked
  ok ("Current status for '" ⊕ service_name ⊕ "' is: '" ⊕ as_str_name service_status ⊕ "'.")
