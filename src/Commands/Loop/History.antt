-- ===== src/Commands/Loop/History.antt =====
-- What clients are told, against the events of the whole run.
use horust.Prelude.{
  ◌≡◌, refl, subst, ◌∙◌, inl, inr, Bool, true, Option, none, some, List, [], ◌∷◌, ◌++◌, arith,
}
use horust.Prelude.Tests.{◌==◌, String_eq, Bool-cases, Option-cases, if◌then◌else◌, eq_of_beq}
use horust.Prelude.Lists.{All, append-nil, append_assoc}
use horust.Prelude.HashMap.{get, insert, get-insert}
use horust.Prelude.Panic.{◌>>=◌}
use horust.Formats.Status.{ServiceStatus}
use horust.Formats.Service.{ServiceName}
use horust.Formats.Event.{Event, status_changed, shutting_down_initiated, ShuttingDown}
use horust.Commands.{
  Services, listening, returned, handle_events, handle_connection, get_service_status, reply,
  from_service_status, not_found,
}
use horust.Commands.Proto.{
  Response, status_response, error, status_request, change_request, request, response, to_i32,
}
use horust.Commands.Status.{Fits, last_status}
use horust.Commands.Loop.{Accepted, connection, would_block, failed, Pass, accept, run}

-- The status of a service after the events, in the words of the events alone.
abbrev pub status_after : Services → List Event → ServiceName → Option ServiceStatus
status_after services history n = elim (get services n) [
  | none ↦ none
  | some st ↦ some (last_status n st history)
]

abbrev status_told : ServiceName → Option ServiceStatus → Response
status_told n none = error (not_found n)
status_told n (some st) = status_response n (to_i32 (from_service_status st))

-- What a client that is accepted after the events is told.
abbrev pub answer : Services → List Event → Accepted → Option Response
answer services history (connection (some (some (request (some (status_request n)))))) =
    some (status_told n (status_after services history n))
answer services history (connection (some (some (request (some (change_request n v)))))) =
    some (error "Unimplemented!")
answer services history _ = none

-- What each pass sends, from the events that came before.
abbrev pub answers : Services → List Event → List Pass → List (Option Response)
answers services history [] = []
answers services history (p ∷ ps) =
    answer services (history ++ p.events) p.accepted ∷ answers services (history ++ p.events) ps

-- The table has the statuses that the events give.
abbrev Follows : Services → List Event → Services → Type 0
Follows services history now = (n : ServiceName) → get now n ≡ status_after services history n

last_status-append :
    (n : ServiceName) (st : ServiceStatus) (history evs : List Event)
    → last_status n st (history ++ evs) ≡ last_status n (last_status n st history) evs
last_status-append n st [] evs = refl
last_status-append n st (status_changed k y ∷ h) evs =
    last_status-append n (if k == n then y else st) h evs
last_status-append n st (_ ∷ h) evs = last_status-append n st h evs

module _ (services : Services) where
  Follows-changed :
      (history : List Event) (now : Services) (m : ServiceName) (x : ServiceStatus)
      → Fits services (status_changed m x)
      → Follows services history now
      → Follows services (history ++ status_changed m x ∷ []) (insert now m x)
  Follows-changed history now m x (old, e) f n = elim (Bool-cases (m == n)) [
    | inl p ↦
        let same : m ≡ n = eq_of_beq p in
        let known : get services n ≡ some old =
          subst (λ (k : ServiceName). get services k ≡ some old) same e in
        ground
          (arith, get-insert now m n x, last_status-append n old history (status_changed m x ∷ []))
    | inr p ↦ elim (Option-cases (get services n)) [
      | inl q ↦ ground (arith, f n, get-insert now m n x)
      | inr (st, q) ↦ ground (
        arith,
        f n,
        get-insert now m n x,
        last_status-append n st history (status_changed m x ∷ []),
      )
    ]
  ]

  Follows-other :
      (history : List Event) (now : Services) (ev : Event)
      → ((n : ServiceName) (st : ServiceStatus) → last_status n st (ev ∷ []) ≡ st)
      → Follows services history now
      → Follows services (history ++ ev ∷ []) now
  Follows-other history now ev same f n = elim (Option-cases (get services n)) [
    | inl e ↦ ground (arith, f n)
    | inr (st, e) ↦
        ground
          (arith, f n, last_status-append n st history (ev ∷ []), same n (last_status n st history))
  ]

  -- A service that is known stays known.
  Follows-Fits :
      (history : List Event) (now : Services) (m : ServiceName) (x : ServiceStatus)
      → Fits services (status_changed m x)
      → Follows services history now
      → Fits now (status_changed m x)
  Follows-Fits history now m x (old, e) f =
      (last_status m old history, f m ∙ rw (e, status_after) refl)

  handle_events-Follows :
      (removed : Bool) (evs : List Event) (history : List Event) (now : Services)
      → All (Fits services) evs
      → Follows services history now
      → (now' : Services) × (handle_events removed evs now ≡ some (listening now'))
        × Follows services (history ++ evs) now'
  unfolding handle_events
  handle_events-Follows removed [] history now h f = (now, refl, λ n. rw (append-nil history) (f n))
  handle_events-Follows removed (status_changed m x ∷ evs) history now h f =
      let (now', e, g) =
        handle_events-Follows removed evs (history ++ status_changed m x ∷ []) (insert now m x) h.1
          (Follows-changed history now m x h.0 f) in
      let found = Follows-Fits history now m x h.0 f in
      (
        now',
        rw (found.1, ◌>>=◌) e,
        λ n. rw (← append_assoc history (status_changed m x ∷ []) evs) (g n),
      )
  handle_events-Follows removed (shutting_down_initiated how ∷ evs) history now h f = absurd h.0
  handle_events-Follows removed (ev ∷ evs) history now h f =
      let (now', e, g) =
        handle_events-Follows removed evs (history ++ ev ∷ []) now h.1
          (Follows-other history now ev (λ n st. refl) f) in
      (now', e, λ n. rw (← append_assoc history (ev ∷ []) evs) (g n))

  -- A shutdown ends the handler, whatever comes before it.
  handle_events-stop :
      (before after : List Event) (how : ShuttingDown) (history : List Event) (now : Services)
      → All (Fits services) before
      → Follows services history now
      → handle_events true (before ++ shutting_down_initiated how ∷ after) now ≡ some returned
  unfolding handle_events
  handle_events-stop [] after how history now h f = refl
  handle_events-stop (status_changed m x ∷ evs) after how history now h f =
      let found = Follows-Fits history now m x h.0 f in
      rw (found.1, ◌>>=◌)
        (handle_events-stop evs after how (history ++ status_changed m x ∷ []) (insert now m x) h.1
          (Follows-changed history now m x h.0 f))
  handle_events-stop (shutting_down_initiated w ∷ evs) after how history now h f = absurd h.0
  handle_events-stop (ev ∷ evs) after how history now h f =
      handle_events-stop evs after how (history ++ ev ∷ []) now h.1
        (Follows-other history now ev (λ n st. refl) f)

  accept-answer :
      (history : List Event) (now : Services) (a : Accepted)
      → Follows services history now
      → accept now a ≡ answer services history a
  unfolding accept handle_connection reply get_service_status
  accept-answer history now (connection (some (some (request (some (status_request n)))))) f =
      elim (Option-cases (get services n)) [
        | inl e ↦ ground (arith, f n)
        | inr (st, e) ↦ ground (arith, f n)
      ]
  accept-answer history now (connection (some (some (request (some (change_request n v)))))) f =
      refl
  accept-answer history now (connection (some (some (request none)))) f = refl
  accept-answer history now (connection (some (some (response r)))) f = refl
  accept-answer history now (connection (some none)) f = refl
  accept-answer history now (connection none) f = refl
  accept-answer history now would_block f = refl
  accept-answer history now failed f = refl

  module _ (stop : Pass) (later : List Pass) (before after : List Event) (how : ShuttingDown)
      (fit : All (Fits services) before)
      (ends : stop.events ≡ before ++ shutting_down_initiated how ∷ after)
      (gone : stop.removed ≡ true) where
    run-from :
        (ps : List Pass) (history : List Event) (now : Services)
        → All (λ p. All (Fits services) p.events) ps
        → Follows services history now
        → run (ps ++ stop ∷ later) now ≡ some (returned, answers services history ps)
    unfolding run
    run-from [] history now h f =
        let last : handle_events stop.removed stop.events now ≡ some returned =
          rw (gone, ends) (handle_events-stop before after how history now fit f) in
        rw (last, ◌>>=◌) refl
    run-from (p ∷ ps) history now h f =
        let (now', e, f') = handle_events-Follows p.removed p.events history now h.0 f in
        let rest = run-from ps (history ++ p.events) now' h.1 f' in
        rw (e, ◌>>=◌)
          (rw (rest, ◌>>=◌) (rw (accept-answer (history ++ p.events) now' p.accepted f') refl))

-- The handler of commands serves its clients until the system shuts down: when events announce
-- statuses of known services only, and the socket's file can be removed, it returns in the pass in
-- which a shutdown is announced, whatever would come later. Till then each pass answers the client
-- that it accepts from the last status that any pass has announced of the service, with an error for
-- an unknown service or a request for a change, and sends nothing in the other cases.
pub run-answers :
    (services : Services) (ps : List Pass) (stop : Pass) (later : List Pass)
    (before after : List Event) (how : ShuttingDown)
    → All (λ p. All (Fits services) p.events) ps
    → All (Fits services) before
    → stop.events ≡ before ++ shutting_down_initiated how ∷ after
    → stop.removed ≡ true
    → run (ps ++ stop ∷ later) services ≡ some (returned, answers services [] ps)
run-answers services ps stop later before after how h fit ends gone =
    run-from services stop later before after how fit ends gone ps [] services h (λ n.
      elim (Option-cases (get services n)) [ inl e ↦ ground arith | inr (st, e) ↦ ground arith ])
