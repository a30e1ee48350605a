-- ===== src/Commands/Client.antt =====
-- The client of Horust: commands/src/client.rs, and what it shares with the server in
-- commands/src/lib.rs. `Codec` is prost's encoding of a message; encoding into a growing buffer cannot
-- fail. A connection gives the bytes that come back until its end, or an error.
pub mod Answers
use horust.Prelude.{ℕ, suc, ◌≡◌, String, Option, none, some, List, [], map}
use horust.Prelude.Int.{ℤ, pos, negsuc}
use horust.Prelude.Display.{Display}
use horust.Prelude.Outcome.{Outcome, ok, err, panic, ◌>>=◌, of_option}
use horust.Prelude.Strings.{◌⊕◌}
use horust.Formats.Service.{PathBuf, ServiceName}
use horust.Commands.{Services, handle_connection}
use horust.Commands.Proto.{
  HorustMsgServiceStatus, try_from, Request, status_request, Response, status_response, error,
  MessageType, request, response, Message,
}

pub record Codec : Type 0 where
  pub encode : Message → List ℕ
  pub decode : List ℕ → Option Message
  pub decode-encode : (m : Message) → decode (encode m) ≡ some m

-- An `i32` in decimal.
abbrev pub show_i32 : Display → ℤ → String
show_i32 d (pos n) = d.show n
show_i32 d (negsuc n) = "-" ⊕ d.show (suc n)

-- The name of the socket of the Horust process, and get_path, with Path::join.
abbrev pub socket_name : Display → ℤ → String
socket_name d horust_pid = "horust-" ⊕ show_i32 d horust_pid ⊕ ".sock"

unfoldable pub get_path : (PathBuf → String → PathBuf) → Display → PathBuf → ℤ → PathBuf
get_path join d socket_folder_path horust_pid = join socket_folder_path (socket_name d horust_pid)

abbrev pub new_request : Request → Message
new_request request_type = some (request (some request_type))

-- A response that is not there is `none`, and one that is an error is an error.
unfoldable pub unwrap_response : Message → Option (Outcome Response)
unwrap_response none = none
unwrap_response (some (request r)) = none
unwrap_response (some (response none)) = none
unwrap_response (some (response (some (error text)))) = some err
unwrap_response (some (response (some (status_response name status)))) =
    some (ok (status_response name status))

-- `unwrap`
unwrap {ℓ} : {A : Type ℓ} → Option A → Outcome A
unwrap none = panic
unwrap (some a) = ok a

read_status : Response → Outcome (ServiceName × HorustMsgServiceStatus)
unfolding unwrap
read_status (status_response name status) = do known ← unwrap (try_from status); ok (name, known)
read_status (error text) = err

-- ClientHandler::send_status_request over a connection.
unfoldable pub send_status_request :
    Codec
    → (List ℕ → Option (List ℕ))
    → ServiceName
    → Outcome (ServiceName × HorustMsgServiceStatus)
unfolding unwrap read_status
send_status_request codec connection service_name = do
  bytes ← of_option (connection (codec.encode (new_request (status_request service_name))))
  received ← of_option (codec.decode bytes)
  result ← unwrap (unwrap_response received)
  answer ← result
  read_status answer

-- The bytes of what the handler sends, if anything: it closes the connection after an error too.
sent_back : Codec → Option (Option Response) → List ℕ
sent_back codec (some (some r)) = codec.encode (some (response (some r)))
sent_back codec _ = []

received_by : Codec → Services → Option Message → List ℕ
unfolding sent_back
received_by codec services none = []
received_by codec services (some message) = sent_back codec (handle_connection services message)

-- The server's side of a connection, with the bytes that it has received.
unfoldable pub serve : Codec → Services → List ℕ → List ℕ
unfolding received_by
serve codec services bytes = received_by codec services (codec.decode bytes)
