-- ===== src/Supervisor/Loop/Announced/Commands.antt =====
-- The handler of commands takes what the supervisor announces.
use horust.Prelude.{
  ◌≡◌, ◌≢◌, refl, sym, ◌∙◌, ◌⊎◌, inl, inr, true, none, some, List, [], ◌∷◌, map, arith,
}
use horust.Prelude.Tests.{Bool-cases, String_eq, ◌==◌}
use horust.Prelude.Lists.{All, All-map, All-In, In}
use horust.Prelude.HashMap.{HashMap, get, insert, extend, get-insert}
use horust.Prelude.Panic.{◌>>=◌}
use horust.Formats.Status.{ServiceStatus}
use horust.Formats.Service.{Service, ServiceName}
use horust.Formats.Event.{Event, status_changed, shutting_down_initiated, Pid}
use horust.Supervisor.ServiceHandler.{ServiceHandler, of_service}
use horust.Supervisor.Repo.{new_repo}
use horust.Supervisor.Repo.Readiness.{IsKnown}
use horust.Supervisor.Handler.{System, Supervisor, new_supervisor}
use horust.Supervisor.Handler.Announced.{Announces}
use horust.Supervisor.Loop.Announced.{run-Keeps}
use horust.Supervisor.Loop.Sound.{new_repo-Filed}
use horust.Supervisor.Loop.{Round, going, run}
use horust.Commands.{Services, initial_statuses, handle_events}

-- The service is in a table, whatever the table says of it.
abbrev Has : {V : Type 0} → HashMap ServiceName V → ServiceName → Type 0
Has {V} m n = (v : V) × (get m n ≡ some v)

insert-Has :
    {V W : Type 0} (m : HashMap ServiceName V) (m' : HashMap ServiceName W) (k : ServiceName)
    (v : V) (w : W)
    → ((n : ServiceName) → Has m n → Has m' n)
    → (n : ServiceName) → Has (insert m k v) n
    → Has (insert m' k w) n
insert-Has m m' k v w f n (x, e) = elim (Bool-cases (k == n)) [
  | inl p ↦ (w, rw (get-insert m' k n w, p) refl)
  | inr p ↦
      let (y, g) = f n (x, ground (arith, get-insert m k n v)) in (y, rw (get-insert m' k n w, p) g)
]

kept-Has :
    (m : Services) (k : ServiceName) (v : ServiceStatus) (n : ServiceName)
    → Has m n
    → Has (insert m k v) n
kept-Has m k v n (x, e) = elim (Bool-cases (k == n)) [
  | inl p ↦ (v, rw (get-insert m k n v, p) refl)
  | inr p ↦ (x, rw (get-insert m k n v, p) e)
]

extend-Has :
    (services : List Service) (m : HashMap ServiceName ServiceHandler) (m' : Services)
    → ((n : ServiceName) → Has m n → Has m' n)
    → (n : ServiceName) → Has (extend m (map (λ s. (s.name, of_service s)) services)) n
    → Has (extend m' (map (λ k. (k, ServiceStatus.initial)) (map (λ s. s.name) services))) n
extend-Has [] m m' f n h = f n h
extend-Has (s ∷ ss) m m' f n h =
    extend-Has ss (insert m s.name (of_service s)) (insert m' s.name ServiceStatus.initial)
      (insert-Has m m' s.name (of_service s) ServiceStatus.initial f) n h

-- The table that the handler of commands starts with.
abbrev pub table : List Service → Services
table services = initial_statuses (map (λ s. s.name) services)

new_repo-Has :
    (services : List Service) (n : ServiceName)
    → IsKnown (new_repo services) n
    → Has (table services) n
unfolding new_repo initial_statuses
new_repo-Has services n h = extend-Has services [] [] (λ k (v, e). absurd (ground arith)) n h

new_repo-sent :
    (services : List Service) → All (Announces (Has (table services))) (new_repo services).sent
unfolding new_repo
new_repo-sent services = tt

-- Announcements of services of the table are taken without a panic.
handle_events-Announces :
    (K : ServiceName → Type 0) (evs : List Event) (now : Services)
    → ((n : ServiceName) → K n → Has now n)
    → All (Announces K) evs
    → handle_events true evs now ≢ none
unfolding handle_events
handle_events-Announces K [] now f h e = cc
handle_events-Announces K (status_changed m x ∷ evs) now f h e =
    let (old, g) = f m h.0 in
    let step : handle_events true (status_changed m x ∷ evs) now
        ≡ handle_events true evs (insert now m x) =
      rw (g, ◌>>=◌) refl in
    handle_events-Announces K evs (insert now m x) (λ n k. kept-Has now m x n (f n k)) h.1
      (sym step ∙ e)
handle_events-Announces K (shutting_down_initiated how ∷ evs) now f h e = cc
handle_events-Announces K (ev ∷ evs) now f h e = handle_events-Announces K evs now f h.1 e

-- An event of the supervisor, or of another thread, which announces no status.
abbrev pub IsOther : Event → Type 0
IsOther (status_changed n x) = ⊥
IsOther _ = Unit {0}

abbrev pub IsFrom : Supervisor → Event → Type 0
IsFrom s ev = In ev s.repo.sent ⊎ IsOther ev

IsOther-Announces : (K : ServiceName → Type 0) (ev : Event) → IsOther ev → Announces K ev
IsOther-Announces K (status_changed n x) h = elim h [ ]
IsOther-Announces K _ h = tt

IsFrom-Announces :
    (K : ServiceName → Type 0) (s : Supervisor)
    → All (Announces K) s.repo.sent
    → (ev : Event) → IsFrom s ev
    → Announces K ev
IsFrom-Announces K s h ev (inl i) = All-In (Announces K) s.repo.sent h i
IsFrom-Announces K s h ev (inr o) = IsOther-Announces K ev o

-- The supervisor never makes the handler of commands panic: the handler takes whatever the supervisor
-- has sent when its loop, started with the services, has come to a state, and events of other threads
-- that announce no status, without a panic, in any number and order, from the table that it starts
-- with for these services, if the file of its socket can be removed.
pub run-handle_events :
    (services : List Service) (system : System) (getpid : Pid) (rounds : List Round)
    (evs : List Event) {s : Supervisor}
    → run getpid rounds (new_supervisor services system) ≡ some (going s)
    → All (IsFrom s) evs
    → handle_events true evs (table services) ≢ none
run-handle_events services system getpid rounds evs {s} h i =
    let (sound, known, announced) =
      run-Keeps (Has (table services)) getpid rounds (new_supervisor services system) h
        (new_repo-Filed services, new_repo-Has services, new_repo-sent services) in
    handle_events-Announces (Has (table services)) evs (table services) (λ n k. k)
      (All-map _ _ (IsFrom-Announces (Has (table services)) s announced) evs i)
