-- ===== src/Startup/Threads/Announced.antt =====
-- What the supervisor announces reaches the handler of commands, which takes it.
use horust.Prelude.{
  Bool, map, arith, ◌≡◌, ◌≢◌, refl, sym, subst, true, none, some, List, [], ◌∷◌, ◌++◌,
}
use horust.Prelude.Lists.{All}
use horust.Bus.{new_bus, join_bus, queue_of, Step, leave, steps}
use horust.Bus.Order.{sent, steps-Keeps}
use horust.Formats.Event.{Event, Pid}
use horust.Commands.{Services, initial_statuses, new_commands_handler, handle_events}
use horust.Supervisor.Handler.{System, Supervisor}
use horust.Supervisor.Loop as Loop
use horust.Supervisor.Loop.{Round, going}
use horust.Supervisor.Loop.Announced.Commands.{IsFrom, run-handle_events}
use horust.Startup.{Horust}
use horust.Startup.Threads.{commands_connector, start_threads}

All-prefix {ℓ κ} : {A : Type ℓ} (P : A → Type κ) (xs ys : List A) → All P (xs ++ ys) → All P xs
All-prefix P [] ys h = tt
All-prefix P (x ∷ xs) ys h = (h.0, All-prefix P xs ys h.1)

-- The supervisor never makes the handler of commands panic: if that has started, with its socket bound,
-- then from the start of the threads on it takes what it receives over the bus without a panic, whatever the threads do, if all that is
-- sent over the bus is what the supervisor has sent when its loop has come to some state and events
-- that announce no status, as long as the handler does not leave the bus and the file of its socket
-- can be removed.
pub start_threads-handle_events :
    (binds set_nonblocking : Bool) (horust : Horust) (system : System) (getpid : Pid)
    (rounds : List Round) (ss : List (Step Event)) {services : Services} {s : Supervisor}
    → let threads = start_threads binds set_nonblocking horust system in
      threads.commands ≡ some services
      → Loop.run getpid rounds threads.supervisor ≡ some (going s)
      → All (λ st. st ≢ leave commands_connector) ss
      → All (IsFrom s) (sent ss)
      → handle_events true (steps commands_connector ss threads.bus).0 services ≢ none
unfolding start_threads queue_of join_bus new_commands_handler
start_threads-handle_events binds set_nonblocking horust system getpid rounds ss {services} {s}
      begun h stays from =
    let bus = join_bus (join_bus (join_bus new_bus)) in
    let (q, at, e) = steps-Keeps commands_connector ss bus {q = []} refl stays in
    let out = (steps commands_connector ss bus).0 in
    let same : initial_statuses (map (λ s. s.name) horust.services) ≡ services = ground arith in
    subst (λ table. handle_events true out table ≢ none) same
      (run-handle_events horust.services system getpid rounds out h
        (All-prefix (IsFrom s) out _ (subst (All (IsFrom s)) (sym e) from)))
