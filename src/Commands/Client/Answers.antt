-- ===== src/Commands/Client/Answers.antt =====
-- What a client of Horust gets for an answer.
use horust.Prelude.{◌≡◌, refl, ap, ◌∙◌, inl, inr, Bool, Option, none, some, List}
use horust.Prelude.Tests.{Option-cases, String_eq}
use horust.Prelude.Lists.{All}
use horust.Prelude.HashMap.{get}
use horust.Prelude.Outcome.{Outcome, ok, err}
use horust.Formats.Status.{ServiceStatus}
use horust.Formats.Service.{ServiceName}
use horust.Formats.Event.{Event}
use horust.Commands.{
  Services, listening, handle_events, get_service_status, reply, handle_connection,
  from_service_status,
}
use horust.Commands.Proto.{HorustMsgServiceStatus, try_from-to_i32, status_request}
use horust.Commands.Status.{Fits, last_status, handle_events-get}
use horust.Commands.Client.{
  Codec, new_request, unwrap_response, read_status, send_status_request, sent_back, received_by,
  serve,
}

-- What a client is told of a service of the table.
abbrev pub told :
    ServiceName → Option ServiceStatus → Outcome (ServiceName × HorustMsgServiceStatus)
told name none = err
told name (some status) = ok (name, from_service_status status)

-- A client that asks a server for the status of a service gets what the server's table has, read back
-- from the messages between them, and an error if the service is not in it.
pub send_status_request-serve :
    (codec : Codec) (services : Services) (name : ServiceName)
    → send_status_request codec (λ bytes. some (serve codec services bytes)) name
      ≡ told name (get services name)
unfolding send_status_request serve received_by sent_back unwrap_response read_status
    handle_connection reply get_service_status
send_status_request-serve codec services name = elim (Option-cases (get services name)) [
  | inl e ↦
      rw (codec.decode-encode (new_request (status_request name)), e)
        (rw (codec.decode-encode _) refl)
  | inr (status, e) ↦
      rw (codec.decode-encode (new_request (status_request name)), e)
        (rw (codec.decode-encode _, (try_from-to_i32 (from_service_status status)).0) refl)
]

-- While the system runs, and the services of which a status is announced are known, the handler takes
-- every event, and a client that then asks for a known service is told the status announced last.
pub send_status_request-handle_events :
    (codec : Codec) (removed : Bool) (evs : List Event) (services : Services) (n : ServiceName)
    (st : ServiceStatus)
    → All (Fits services) evs
    → get services n ≡ some st
    → (services' : Services) × (handle_events removed evs services ≡ some (listening services'))
      × (send_status_request codec (λ bytes. some (serve codec services' bytes)) n
          ≡ ok (n, from_service_status (last_status n st evs)))
send_status_request-handle_events codec removed evs services n st f g =
    let (services', h, g') = handle_events-get removed evs services n st f g in
    (services', h, send_status_request-serve codec services' n ∙ ap (told n) g')
