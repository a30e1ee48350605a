-- ===== src/Horustctl/Socket.antt =====
-- How horustctl finds Horust, and what it prints.
use text.Mathlib.TextLemmas.{append_assoc as text_assoc}
use horust.Prelude.{ℕ, ◌≡◌, refl, sym, ap, ◌∙◌, true, Option, none, some, List, [], ◌∷◌, ◌++◌}
use horust.Prelude.Tests.{String_eq}
use horust.Prelude.Lists.{All, filter_map}
use horust.Prelude.HashMap.{get}
use horust.Prelude.Int.{ℤ}
use horust.Prelude.Display.{Display}
use horust.Prelude.Outcome.{ok, err, ◌>>=◌}
use horust.Prelude.Strings.{◌⊕◌, starts_with-append, ends_with-append}
use horust.Formats.Status.{ServiceStatus}
use horust.Formats.Service.{PathBuf, ServiceName}
use horust.Commands.{Services, from_service_status}
use horust.Commands.Proto.{as_str_name}
use horust.Commands.Client.{Codec, socket_name, show_i32, get_path, serve}
use horust.Commands.Client.Answers.{told, send_status_request-serve}
use horust.Horustctl.{
  DirEntry, Folders, socket_entry, sockets, single, get_uds_path, HorustctlArgs, some_name,
  choose_path, expect, main,
}

-- An entry of another program: it cannot be read, is not a socket, or has another name.
abbrev pub IsOther : Option DirEntry → Type 0
IsOther none = Unit {0}
IsOther (some d) = socket_entry d ≡ none

-- The entry of the socket of a running Horust.
abbrev pub socket_of : Display → ℤ → Option DirEntry
socket_of d pid = some (record { is_socket = some true; file_name = socket_name d pid })

sockets-others :
    (before after : List (Option DirEntry))
    → All IsOther before
    → sockets (before ++ after) ≡ sockets after
unfolding sockets
sockets-others [] after h = refl
sockets-others (none ∷ xs) after h = sockets-others xs after h.1
sockets-others (some x ∷ xs) after h = rw (h.0, filter_map) (sockets-others xs after h.1)

sockets-none : (entries : List (Option DirEntry)) → All IsOther entries → sockets entries ≡ []
unfolding sockets
sockets-none [] h = refl
sockets-none (none ∷ xs) h = sockets-none xs h.1
sockets-none (some x ∷ xs) h = rw (h.0, filter_map) (sockets-none xs h.1)

socket_of-is_socket :
    (d : Display) (pid : ℤ) (after : List (Option DirEntry))
    → sockets (socket_of d pid ∷ after) ≡ socket_name d pid ∷ sockets after
unfolding sockets socket_entry
socket_of-is_socket d pid after =
    let start = starts_with-append "horust-" (show_i32 d pid ⊕ ".sock") in
    let end = ends_with-append ("horust-" ⊕ show_i32 d pid) ".sock" in
    rw (start, filter_map, sym (text_assoc "horust-" (show_i32 d pid) ".sock"), end) refl

module _ (fs : Folders) (d : Display) (pid : ℤ) (folder : PathBuf)
    (before after : List (Option DirEntry)) (exists : fs.exists folder ≡ true)
    (is_dir : fs.is_dir folder ≡ true) (others : All IsOther before) where
  -- Beside the socket of one Horust, whichever else the folder has decides.
  found_beside :
      fs.read_dir folder ≡ some (before ++ socket_of d pid ∷ after)
      → get_uds_path fs d none folder
        ≡ (single (socket_name d pid ∷ sockets after) >>= λ ret. ok (fs.join folder ret))
  unfolding get_uds_path
  found_beside e =
      rw (exists, is_dir, e)
        (rw
          (sockets-others before (socket_of d pid ∷ after) others, socket_of-is_socket d pid after)
          refl)

  -- The socket of the only Horust of the folder is found, as if its process were named.
  pub get_uds_path-finds :
      fs.read_dir folder ≡ some (before ++ socket_of d pid ∷ after)
      → All IsOther after
      → (get_uds_path fs d none folder ≡ ok (get_path fs.join d folder pid))
        × (get_uds_path fs d (some pid) folder ≡ ok (get_path fs.join d folder pid))
  unfolding get_uds_path get_path
  get_uds_path-finds e rest =
      (found_beside e ∙ rw (sockets-none after rest) refl, rw (exists, is_dir) refl)

-- With the sockets of two Horusts in the folder, horustctl chooses none of them: it wants a process id.
pub get_uds_path-refuses :
    (fs : Folders) (d : Display) (pid pid' : ℤ) (folder : PathBuf)
    (before between after : List (Option DirEntry))
    → fs.exists folder ≡ true
    → fs.is_dir folder ≡ true
    → All IsOther before
    → All IsOther between
    → fs.read_dir folder ≡ some (before ++ socket_of d pid ∷ (between ++ socket_of d pid' ∷ after))
    → get_uds_path fs d none folder ≡ err
get_uds_path-refuses fs d pid pid' folder before between after exists is_dir others others' e =
    found_beside fs d pid folder before (between ++ socket_of d pid' ∷ after) exists is_dir others e
    ∙ rw
        (
          sockets-others between (socket_of d pid' ∷ after) others',
          socket_of-is_socket d pid' after,
        )
        refl

-- Asked for a service of the only Horust of the folder, without its process id, horustctl prints the
-- status that the table of that Horust has, once the socket accepts a connection.
pub main-prints :
    (fs : Folders) (d : Display) (codec : Codec)
    (connect : PathBuf → Option (List ℕ → Option (List ℕ))) (args : HorustctlArgs) (pid : ℤ)
    (before after : List (Option DirEntry)) (services : Services) (n : ServiceName)
    (status : ServiceStatus)
    → args.socket_path ≡ none
    → args.pid ≡ none
    → args.service_name ≡ some n
    → fs.exists args.uds_folder_path ≡ true
    → fs.is_dir args.uds_folder_path ≡ true
    → All IsOther before
    → All IsOther after
    → fs.read_dir args.uds_folder_path ≡ some (before ++ socket_of d pid ∷ after)
    → connect (get_path fs.join d args.uds_folder_path pid)
      ≡ some (λ bytes. some (serve codec services bytes))
    → get services n ≡ some status
    → main fs d codec connect args
      ≡ ok
          ("Current status for '" ⊕ n ⊕ "' is: '" ⊕ as_str_name (from_service_status status) ⊕ "'.")
unfolding main choose_path expect some_name
main-prints fs d codec connect args pid before after services n status e₁ e₂ e₃ exists is_dir others
      others' listed at_socket known =
    let found : get_uds_path fs d args.pid args.uds_folder_path
        ≡ ok (get_path fs.join d args.uds_folder_path pid) =
      rw e₂
        (get_uds_path-finds fs d pid args.uds_folder_path before after exists is_dir others listed
          others').0 in
    let answer = send_status_request-serve codec services n ∙ ap (told n) known in
    rw (e₁, e₃) (rw (found, at_socket) (rw answer refl))
