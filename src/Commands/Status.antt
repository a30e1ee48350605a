-- ===== src/Commands/Status.antt =====
-- What a client is told of a service.
use horust.Prelude.{◌≡◌, refl, inl, inr, Bool, some, List, [], ◌∷◌, arith}
use horust.Prelude.Tests.{◌==◌, String_eq, Bool-cases, if◌then◌else◌}
use horust.Prelude.Lists.{All, All-map}
use horust.Prelude.HashMap.{get, insert, get-insert}
use horust.Formats.Status.{ServiceStatus}
use horust.Formats.Service.{ServiceName}
use horust.Formats.Event.{Event, status_changed, shutting_down_initiated}
use horust.Commands.{
  Services, listening, handle_events, get_service_status, reply, handle_connection,
  from_service_status,
}
use horust.Commands.Proto.{to_i32, status_request, status_response, request}

-- An event of a running system: a status is announced of a service that is known.
abbrev pub Fits : Services → Event → Type 0
Fits services (status_changed name status) = (old : ServiceStatus) × (get services name ≡ some old)
Fits services (shutting_down_initiated how) = ⊥
Fits services _ = Unit {0}

-- The last status that is announced of a service, if any, and else the given one.
abbrev pub last_status : ServiceName → ServiceStatus → List Event → ServiceStatus
last_status n st [] = st
last_status n st (status_changed m x ∷ evs) = last_status n (if m == n then x else st) evs
last_status n st (ev ∷ evs) = last_status n st evs

Fits-insert :
    (services : Services) (name : ServiceName) (status : ServiceStatus) (ev : Event)
    → Fits services ev
    → Fits (insert services name status) ev
Fits-insert services name status (status_changed m x) (old, e) = elim (Bool-cases (name == m)) [
  | inl p ↦ (status, rw (get-insert services name m status, p) refl)
  | inr p ↦ (old, rw (get-insert services name m status, p) e)
]
Fits-insert services name status (shutting_down_initiated how) h = h
Fits-insert services name status _ h = tt

-- Every status that is announced is kept.
pub handle_events-get :
    (removed : Bool) (evs : List Event) (services : Services) (n : ServiceName) (st : ServiceStatus)
    → All (Fits services) evs
    → get services n ≡ some st
    → (services' : Services) × (handle_events removed evs services ≡ some (listening services'))
      × (get services' n ≡ some (last_status n st evs))
unfolding handle_events
handle_events-get removed [] services n st f g = (services, refl, g)
handle_events-get removed (status_changed m x ∷ evs) services n st f g =
    let (old, e) = f.0 in
    let (services', h, g') =
      handle_events-get removed evs (insert services m x) n (if m == n then x else st)
        (All-map _ _ (Fits-insert services m x) evs f.1)
        (ground (arith, get-insert services m n x)) in
    (services', rw e h, g')
handle_events-get removed (shutting_down_initiated how ∷ evs) services n st f g = absurd f.0
handle_events-get removed (_ ∷ evs) services n st f g =
    handle_events-get removed evs services n st f.1 g

-- While the system runs, and the services of which a status is announced are known, the handler takes
-- every event without a panic, and then answers a request for the status of a known service with the
-- one that was announced last.
pub handle_connection-handle_events :
    (removed : Bool) (evs : List Event) (services : Services) (n : ServiceName) (st : ServiceStatus)
    → All (Fits services) evs
    → get services n ≡ some st
    → (services' : Services) × (handle_events removed evs services ≡ some (listening services'))
      × (handle_connection services' (some (request (some (status_request n))))
          ≡ some (some (status_response n (to_i32 (from_service_status (last_status n st evs))))))
unfolding handle_connection reply get_service_status
handle_connection-handle_events removed evs services n st f g =
    let (services', h, g') = handle_events-get removed evs services n st f g in
    (services', h, rw g' refl)
