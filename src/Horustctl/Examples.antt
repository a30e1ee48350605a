-- ===== src/Horustctl/Examples.antt =====
-- One Horust runs, and its socket is in a folder with a log file.
use horust.Prelude.{ℕ, ◌≡◌, refl, true, false, Option, none, some, List, [], ◌∷◌}
use horust.Prelude.Tests.{String_eq}
use horust.Prelude.Int.{pos}
use horust.Prelude.Outcome.{ok}
use horust.Prelude.Unary.{unary}
use horust.Formats.Status.{running}
use horust.Formats.Service.{PathBuf}
use horust.Commands.{Services}
use horust.Commands.Proto.{as_str_name}
use horust.Commands.Client.{serve, get_path}
use horust.Commands.Wire.{wire}
use horust.Horustctl.{DirEntry, Folders, HorustctlArgs, socket_entry, main}
use horust.Horustctl.Socket

abbrev log_file : DirEntry
log_file = record { is_socket = some false; file_name = "horust-1.sock.log" }

abbrev socket : DirEntry
socket = record { is_socket = some true; file_name = "horust-111.sock" }

abbrev folders : Folders
folders = record {
  exists = λ p. true;
  is_dir = λ p. true;
  read_dir = λ p. some (some log_file ∷ some socket ∷ none ∷ []);
  join = λ p n. n;
}

abbrev args : HorustctlArgs
args = record {
  pid = none;
  uds_folder_path = "/run/horust";
  socket_path = none;
  service_name = some "web";
}

abbrev services : Services
services = ("web", running) ∷ []

abbrev connect : PathBuf → Option (List ℕ → Option (List ℕ))
connect path = some (λ bytes. some (serve wire services bytes))

main-prints_example :
    main folders unary wire connect args ≡ ok "Current status for 'web' is: 'RUNNING'."
unfolding get_path socket_entry as_str_name
main-prints_example =
    Socket.main-prints folders unary wire connect args (pos 3) (some log_file ∷ []) (none ∷ [])
      services "web" running refl refl refl refl refl (refl, tt) (tt, tt) refl refl refl
