-- ===== src/Commands.antt =====
-- The handler of the commands of horustctl: horust/src/horust/commands_handler.rs, and the requests of
-- commands/src/server.rs. `removed` says whether the file of the socket can be removed.
pub mod Proto
pub mod Status
pub mod Client
pub mod Wire
pub mod Loop
mod Examples
use Prim.Native.String
use horust.Prelude.{◌≡◌, Bool, true, false, ◌&&◌, String, Option, none, some, List, [], ◌∷◌, map}
use horust.Prelude.Tests.{String_eq, if◌then◌else◌}
use horust.Prelude.HashMap.{HashMap, get, insert, extend}
use horust.Prelude.Panic.{◌>>=◌}
use horust.Formats.Status.{ServiceStatus}
use horust.Formats.Service.{ServiceName}
use horust.Formats.Event.{Event, status_changed, shutting_down_initiated}
use horust.Commands.Proto.{
  HorustMsgServiceStatus, to_i32, Request, status_request, change_request, Response,
  status_response, error, MessageType, request, response, Message,
}

abbrev pub from_service_status : ServiceStatus → HorustMsgServiceStatus
from_service_status ServiceStatus.starting = HorustMsgServiceStatus.starting
from_service_status ServiceStatus.started = HorustMsgServiceStatus.started
from_service_status ServiceStatus.running = HorustMsgServiceStatus.running
from_service_status ServiceStatus.in_killing = HorustMsgServiceStatus.inkilling
from_service_status ServiceStatus.success = HorustMsgServiceStatus.success
from_service_status ServiceStatus.finished = HorustMsgServiceStatus.finished
from_service_status ServiceStatus.finished_failed = HorustMsgServiceStatus.finishedfailed
from_service_status ServiceStatus.failed = HorustMsgServiceStatus.failed
from_service_status ServiceStatus.initial = HorustMsgServiceStatus.initial

abbrev pub Services : Type 0
Services = HashMap ServiceName ServiceStatus

unfoldable pub initial_statuses : List ServiceName → Services
initial_statuses names = extend [] (map (λ n. (n, ServiceStatus.initial)) names)

-- CommandsHandler::new, which panics if the socket cannot be bound or made non-blocking
unfoldable pub new_commands_handler : Bool → Bool → List ServiceName → Option Services
new_commands_handler binds set_nonblocking names =
    if binds && set_nonblocking then some (initial_statuses names) else none

-- Whether the handler goes on listening after the events of a turn, or has returned.
pub data Turn : Type 0 where
  listening : Services → Turn
  returned : Turn

-- The events of one turn of CommandsHandler::run. `none` is a panic.
unfoldable pub handle_events : Bool → List Event → Services → Option Turn
handle_events removed [] services = some (listening services)
handle_events removed (status_changed name status ∷ evs) services =
    let rest = handle_events removed evs (insert services name status) in
    do old ← get services name; rest
handle_events removed (shutting_down_initiated how ∷ evs) services =
    if removed then some returned else none
handle_events removed (ev ∷ evs) services = handle_events removed evs services

unfoldable pub get_service_status : Services → ServiceName → Option HorustMsgServiceStatus
get_service_status services name = do status ← get services name; some (from_service_status status)

-- The error of get_service_status, in the words of the handler.
abbrev not_found : ServiceName → String
not_found name =
    String.◌++◌ "Error from status handler: Error: service " (String.◌++◌ name " not found.")

-- The response of a message to a client; the message is put around it where it is encoded.
abbrev new_horust_msg_error_response : String → Response
new_horust_msg_error_response text = error text

abbrev new_horust_msg_service_status_response : ServiceName → HorustMsgServiceStatus → Response
new_horust_msg_service_status_response service_name status =
    status_response service_name (to_i32 status)

abbrev status_reply : ServiceName → Option HorustMsgServiceStatus → Response
status_reply name none = new_horust_msg_error_response (not_found name)
status_reply name (some status) = new_horust_msg_service_status_response name status

unfoldable pub reply : Services → Request → Response
reply services (status_request name) = status_reply name (get_service_status services name)
reply services (change_request name status) = new_horust_msg_error_response "Unimplemented!"

-- CommandsHandlerTrait::handle_connection: an error, or the response that is sent, if any.
unfoldable pub handle_connection : Services → Message → Option (Option Response)
handle_connection services none = none
handle_connection services (some (request (some r))) = some (some (reply services r))
handle_connection services (some (request none)) = some none
handle_connection services (some (response r)) = some none
