-- ===== src/Commands/Loop.antt =====
-- The loop of the handler of commands: CommandsHandler::run of horust/src/horust/commands_handler.rs
-- and CommandsHandlerTrait::accept of commands/src/server.rs. A pass of the loop takes what the bus
-- has delivered and whether the socket's file can be removed, then what the socket's accept gives.
pub mod History
use horust.Prelude.{Bool, Option, none, some, List, [], ◌∷◌}
use horust.Prelude.Panic.{◌>>=◌}
use horust.Formats.Event.{Event}
use horust.Commands.{Services, Turn, listening, returned, handle_events, handle_connection}
use horust.Commands.Proto.{Response, Message}

-- A connection with the message received on it, if one can be; or none, or an error.
pub data Accepted : Type 0 where
  connection : Option Message → Accepted
  would_block : Accepted
  failed : Accepted

pub record Pass : Type 0 where
  pub events : List Event
  pub removed : Bool
  pub accepted : Accepted

-- An error is logged, and nothing is sent.
abbrev sent : Option (Option Response) → Option Response
sent none = none
sent (some r) = r

-- CommandsHandlerTrait::accept: the response that is sent, if any.
unfoldable pub accept : Services → Accepted → Option Response
accept services (connection none) = none
accept services (connection (some message)) = sent (handle_connection services message)
accept services would_block = none
accept services failed = none

-- CommandsHandler::run: how the handler stands after the passes, and what each pass has sent, up to
-- the one in which it returns.
unfoldable pub run : List Pass → Services → Option (Turn × List (Option Response))
run [] services = some (listening services, [])
run (p ∷ ps) services = do
  turn ← handle_events p.removed p.events services
  elim turn [
    | returned ↦ some (returned, [])
    | listening services' ↦ do
      (end, responses) ← run ps services'
      some (end, accept services' p.accepted ∷ responses)
  ]
