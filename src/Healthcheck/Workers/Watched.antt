-- ===== src/Healthcheck/Workers/Watched.antt =====
-- Which services have a worker.
use text.Mathlib.TextEquality.{eq_iff}
use horust.Prelude.{
  Bool, ◌≡◌, refl, ap, subst, ◌∙◌, inl, inr, false, Option, none, some, List, [], ◌∷◌, ◌++◌, arith,
}
use horust.Prelude.Tests.{◌==◌, if◌then◌else◌, String_eq, Bool-cases, Option-cases, eq_of_beq}
use horust.Prelude.HashMap.{get, remove, get-insert, get-remove}
use horust.Prelude.Panic.{◌>>=◌, >>=-eq-some}
use horust.Formats.Status.{ServiceStatus, started}
use horust.Formats.Service.{Service, ServiceName, has_any_check_defined}
use horust.Formats.Event.{Event, status_changed, service_exited, shutting_down_initiated}
use horust.Prelude.Lists.{All}
use horust.Healthcheck.Workers.Calm.{IsCalm, run-GoesOn}
use horust.Healthcheck.Workers.{
  Workers, Action, sends, starts, stops, Turn, watching, left, get_service, stop_old, on_started,
  on_status, on_event, go_on, run,
}

-- The worker of a service after it has started, if it had the given one before.
abbrev on_start : Option Service → Option Service → Option Service
on_start old none = old
on_start old (some service) =
    if has_any_check_defined service.healthiness then some service else old

abbrev watched_status :
    List Service → ServiceName → Option Service → ServiceName → ServiceStatus → Option Service
watched_status services n old m started =
    if m == n then on_start old (get_service services n) else old
watched_status services n old m _ = old

abbrev watched_event : List Service → ServiceName → Option Service → Event → Option Service
watched_event services n old (status_changed m status) = watched_status services n old m status
watched_event services n old (service_exited m code) = if m == n then none else old
watched_event services n old _ = old

-- A service has a worker from its last start with checks to its end.
abbrev pub watched : List Service → ServiceName → Option Service → List Event → Option Service
watched services n old [] = old
watched services n old (ev ∷ evs) = watched services n (watched_event services n old ev) evs

-- The worker of a service as the actions leave it; `none` is a start beside an older worker, or a stop
-- of one that is not there.
abbrev start_one : Option Service → Service → Option (Option Service)
start_one none service = some (some service)
start_one (some old) service = none

abbrev stop_one : Option Service → Option (Option Service)
stop_one none = none
stop_one (some old) = some none

abbrev act_on : ServiceName → Option Service → Action → Option (Option Service)
act_on n old (sends ev) = some old
act_on n old (starts service) = if service.name == n then start_one old service else some old
act_on n old (stops m) = if m == n then stop_one old else some old

abbrev pub replay : ServiceName → Option Service → List Action → Option (Option Service)
replay n old [] = some old
replay n old (act ∷ acts) = act_on n old act >>= λ now. replay n now acts

replay-append :
    (n : ServiceName) (old : Option Service) (xs ys : List Action) {now : Option Service}
    → replay n old xs ≡ some now
    → replay n old (xs ++ ys) ≡ replay n now ys
replay-append n old [] ys {now} h = let same : old ≡ now = ground arith in rw same refl
replay-append n old (x ∷ xs) ys {now} h =
    let (mid, e, h') = >>=-eq-some (act_on n old x) _ h in
    rw (e, ◌>>=◌) (replay-append n mid xs ys h')

-- A service that is found has the name.
pub find-name :
    (services : List Service) (n : ServiceName) {s : Service}
    → get_service services n ≡ some s
    → s.name ≡ n
find-name [] n h = cc
find-name (x ∷ xs) n {s} h = elim (Bool-cases (x.name == n)) [
  | inl e ↦ let same : x ≡ s = ground arith in rw (← same) (eq_of_beq e)
  | inr e ↦ find-name xs n {s = s} (ground arith)
]

-- What one event or several do to the worker of a service.
abbrev Keeps : ServiceName → Option Service → Option Service → Workers → List Action → Type 0
Keeps n old expected workers acts =
    (get workers n ≡ expected) × (replay n old acts ≡ some (get workers n))

module _ (services : List Service) (n : ServiceName) (workers : Workers) where
  exited-Keeps :
      (m : ServiceName)
      → Keeps n
          (get workers n)
          (if m == n then none else get workers n)
          (remove workers m)
          (stop_old workers m)
  unfolding stop_old
  exited-Keeps m = (get-remove workers m n, ground (arith, get-remove workers m n, eq_iff m n))

  started-Keeps :
      (m : ServiceName) {workers' : Workers} {acts : List Action}
      → on_started services workers m ≡ some (watching workers', acts)
      → Keeps n (get workers n) (watched_status services n (get workers n) m started) workers' acts
  unfolding on_started
  started-Keeps m {workers'} {acts} h = elim (Option-cases (get_service services m)) [
    | inl e ↦ absurd (ground arith)
    | inr (s, e) ↦
        let named : s.name ≡ m = find-name services m e in
        elim (Bool-cases (m == n)) [
          | inl p ↦
              let same : m ≡ n = eq_of_beq p in
              let e' : get_service services n ≡ some s = rw (← same) e in
              elim (Bool-cases (has_any_check_defined s.healthiness)) [
                | inr f ↦ (ground arith, ground arith)
                | inl f ↦
                    let new = get-insert (remove workers m) m n s in
                    (ground (arith, eq_iff m n), ground (arith, eq_iff m n, eq_iff s.name n))
              ]
          | inr p ↦ elim (Bool-cases (has_any_check_defined s.healthiness)) [
            | inr f ↦ (ground arith, ground arith)
            | inl f ↦
                let new = get-insert (remove workers m) m n s in
                let gone = get-remove workers m n in
                let other : (s.name == n) ≡ false = rw named p in
                (ground arith, ground (arith, eq_iff m n))
          ]
        ]
  ]

  status-Keeps :
      (m : ServiceName) (status : ServiceStatus) {workers' : Workers} {acts : List Action}
      → on_status services workers m status ≡ some (watching workers', acts)
      → Keeps n (get workers n) (watched_status services n (get workers n) m status) workers' acts
  unfolding on_status
  status-Keeps m started h = started-Keeps m h
  status-Keeps m _ h = (ground arith, ground arith)

  event-Keeps :
      (alive : ServiceName → Bool) (ev : Event) {workers' : Workers} {acts : List Action}
      → on_event alive services workers ev ≡ some (watching workers', acts)
      → Keeps n (get workers n) (watched_event services n (get workers n) ev) workers' acts
  unfolding on_event
  event-Keeps alive (status_changed m status) h = status-Keeps m status h
  event-Keeps alive (service_exited m code) {workers'} {acts} h =
      let (at, log) = exited-Keeps m in
      let same : remove workers m ≡ workers' = ground arith in
      let same' : stop_old workers m ≡ acts = ground arith in
      (rw (← same) at, rw (← same) (rw (← same') log))
  event-Keeps alive (shutting_down_initiated how) h = absurd (ground arith)
  event-Keeps alive _ h = (ground arith, ground arith)

-- One turn of the loop, given what the rest of the loop does.
turn-Keeps :
    (alive : ServiceName → Bool) (services : List Service) (ev : Event) (evs : List Event)
    (workers : Workers) (n : ServiceName) {workers' : Workers} {acts : List Action} (turn : Turn)
    (first : List Action)
    → ((mid : Workers) (more : List Action)
        → run alive services evs mid ≡ some (watching workers', more)
        → Keeps n (get mid n) (watched services n (get mid n) evs) workers' more)
    → on_event alive services workers ev ≡ some (turn, first)
    → go_on (run alive services evs) (turn, first) ≡ some (watching workers', acts)
    → Keeps n (get workers n) (watched services n (get workers n) (ev ∷ evs)) workers' acts
unfolding go_on
turn-Keeps alive services ev evs workers n left first ih e h = absurd (ground arith)
turn-Keeps alive services ev evs workers n {workers'} {acts} (watching mid) first ih e h =
    let ((turn, more), f, g) = >>=-eq-some (run alive services evs mid) _ h in
    let ends : turn ≡ watching workers' = ground arith in
    let log : first ++ more ≡ acts = ground arith in
    let (at, past) = event-Keeps services n workers alive ev e in
    let (at', past') =
      ih mid more (subst (λ t. run alive services evs mid ≡ some (t, more)) ends f) in
    (
      at' ∙ ap (λ w. watched services n w evs) at,
      rw (← log) (replay-append n (get workers n) first more past ∙ past'),
    )

run-Keeps :
    (alive : ServiceName → Bool) (services : List Service) (evs : List Event) (workers : Workers)
    (n : ServiceName) {workers' : Workers} {acts : List Action}
    → run alive services evs workers ≡ some (watching workers', acts)
    → (get workers' n ≡ watched services n (get workers n) evs)
      × (replay n (get workers n) acts ≡ some (get workers' n))
unfolding run
run-Keeps alive services [] workers n {workers'} {acts} h =
    let same : workers ≡ workers' = ground arith in
    let idle : [] ≡ acts = ground arith in (rw same refl, rw (← idle) (rw same refl))
run-Keeps alive services (ev ∷ evs) workers n {workers'} {acts} h =
    let ((turn, first), e, h₁) =
      >>=-eq-some (on_event alive services workers ev) (go_on (run alive services evs)) h in
    turn-Keeps alive services ev evs workers n turn first
      (λ mid more. run-Keeps alive services evs mid n) e h₁

-- While the system runs, and the services that start are known, the thread of the health checker takes
-- every event without a panic, and keeps exactly the workers that the events call for: one for each
-- service that has started with a check and has not ended since. It starts and stops them in turn,
-- never a second one beside one that runs, and never stops one that is not there.
pub run-watched :
    (alive : ServiceName → Bool) (services : List Service) (evs : List Event) (workers : Workers)
    (n : ServiceName)
    → All (IsCalm services) evs
    → (workers' : Workers) × (acts : List Action) × (run alive services evs workers
        ≡ some (watching workers', acts))
      × (get workers' n ≡ watched services n (get workers n) evs)
      × (replay n (get workers n) acts ≡ some (get workers' n))
run-watched alive services evs workers n h =
    let (workers', acts, e) = run-GoesOn alive services evs workers h in
    let (at, past) = run-Keeps alive services evs workers n e in (workers', acts, e, at, past)
