-- ===== src/Commands/Examples.antt =====
-- A service that started and runs, as its client is told.
use horust.Prelude.{◌≡◌, refl, true, some, List, [], ◌∷◌}
use horust.Formats.Status.{ServiceStatus}
use horust.Formats.Event.{Event, status_changed, spawn_failed, shutting_down_initiated, gracefully}
use horust.Commands.{Services, initial_statuses, listening, returned, handle_events}
use horust.Commands.Proto.{HorustMsgServiceStatus, to_i32, status_request, status_response, request}
use horust.Commands.Loop.{Pass, connection, would_block, run}
use horust.Commands.Loop.History
use horust.Commands.Client.{send_status_request, serve}
use horust.Commands.Client.Answers
use horust.Commands.Wire.{wire}
use horust.Prelude.Outcome.{ok}

abbrev announced : List Event
announced =
    status_changed "web" ServiceStatus.started
    ∷ spawn_failed "db"
    ∷ status_changed "web" ServiceStatus.running
    ∷ []

send_status_request-handle_events_example :
    (services' : Services) × (handle_events true announced (initial_statuses ("db" ∷ "web" ∷ []))
      ≡ some (listening services'))
    × (send_status_request wire (λ bytes. some (serve wire services' bytes)) "web"
        ≡ ok ("web", HorustMsgServiceStatus.running))
unfolding initial_statuses
send_status_request-handle_events_example =
    Answers.send_status_request-handle_events wire true announced
      (initial_statuses ("db" ∷ "web" ∷ [])) "web" ServiceStatus.initial
      ((ServiceStatus.initial, refl), (tt, ((ServiceStatus.initial, refl), tt))) refl

abbrev first : Pass
first = record {
  events = announced;
  removed = true;
  accepted = connection (some (some (request (some (status_request "web")))));
}

abbrev last : Pass
last = record {
  events = status_changed "db" ServiceStatus.started ∷ shutting_down_initiated gracefully ∷ [];
  removed = true;
  accepted = would_block;
}

run-answers_example :
    run (first ∷ last ∷ []) (initial_statuses ("db" ∷ "web" ∷ []))
    ≡ some (returned, some (status_response "web" (to_i32 HorustMsgServiceStatus.running)) ∷ [])
unfolding initial_statuses
run-answers_example =
    History.run-answers (initial_statuses ("db" ∷ "web" ∷ [])) (first ∷ []) last []
      (status_changed "db" ServiceStatus.started ∷ []) [] gracefully
      (((ServiceStatus.initial, refl), (tt, ((ServiceStatus.initial, refl), tt))), tt)
      ((ServiceStatus.initial, refl), tt) refl refl
