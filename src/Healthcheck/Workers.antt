-- ===== src/Healthcheck/Workers.antt =====
-- The thread of the health checker and its workers: `run` and `Worker` of
-- horust/src/horust/healthcheck/mod.rs. A worker is kept under the name of its service, with the service
-- that it checks. `none` is a panic.
pub mod Calm
pub mod Watched
use horust.Prelude.{◌≡◌, Bool, true, false, Option, none, some, List, [], ◌∷◌, ◌++◌, map}
use horust.Prelude.Tests.{◌==◌, if◌then◌else◌, String_eq}
use horust.Prelude.Lists.{find, all}
use horust.Prelude.HashMap.{HashMap, get, insert, remove, keys}
use horust.Prelude.Panic.{◌>>=◌}
use horust.Formats.Status.{ServiceStatus, started}
use horust.Formats.Service.{Service, ServiceName, has_any_check_defined}
use horust.Formats.Event.{
  Event, status_changed, service_exited, shutting_down_initiated, health_check, healthy,
}
use horust.Healthcheck.Host.{Host}
use horust.Healthcheck.Checks.{Parsed, check_health}

abbrev pub Workers : Type 0
Workers = HashMap ServiceName Service

-- What the thread does: it sends an event, starts a worker, or stops one and waits for its end.
pub data Action : Type 0 where
  sends : Event → Action
  starts : Service → Action
  stops : ServiceName → Action

-- The thread goes on with its workers, or it has left its loop.
pub data Turn : Type 0 where
  watching : Workers → Turn
  left : Turn

-- `get_service`: the first service of that name; `remove(0)` panics if there is none.
abbrev pub get_service : List Service → ServiceName → Option Service
get_service services s_name = find (λ s. s.name == s_name) services

-- The worker of a service, if there is one, is stopped.
pub stop_old : Workers → ServiceName → List Action
stop_old workers s_name = elim (get workers s_name) [ none ↦ [] | some old ↦ stops s_name ∷ [] ]

unfoldable pub on_started : List Service → Workers → ServiceName → Option (Turn × List Action)
unfolding stop_old
on_started services workers s_name = do
  service ← get_service services s_name
  let renewed = insert (remove workers s_name) s_name service
  some (
      if has_any_check_defined service.healthiness
      then (watching renewed, stop_old workers s_name ++ starts service ∷ [])
      else (watching workers, sends (health_check s_name healthy) ∷ []))

on_status : List Service → Workers → ServiceName → ServiceStatus → Option (Turn × List Action)
unfolding on_started
on_status services workers s_name started = on_started services workers s_name
on_status services workers s_name _ = some (watching workers, [])

-- One event. At a shutdown all workers are told to stop and joined with `unwrap`, which panics if one
-- has died, as `alive` says: its end of the channel is gone.
unfoldable pub on_event :
    (ServiceName → Bool) → List Service → Workers → Event → Option (Turn × List Action)
unfolding on_status stop_old
on_event alive services workers (status_changed s_name status) =
    on_status services workers s_name status
on_event alive services workers (service_exited s_name code) =
    some (watching (remove workers s_name), stop_old workers s_name)
on_event alive services workers (shutting_down_initiated how) =
    if all alive (keys workers) then some (left, map stops (keys workers)) else none
on_event alive services workers _ = some (watching workers, [])

go_on : (Workers → Option (Turn × List Action)) → Turn × List Action → Option (Turn × List Action)
go_on rest (left, acts) = some (left, acts)
go_on rest (watching workers, acts) = do (turn, more) ← rest workers; some (turn, acts ++ more)

-- The loop over the events of the bus.
unfoldable pub run :
    (ServiceName → Bool) → List Service → List Event → Workers → Option (Turn × List Action)
unfolding go_on
run alive services [] workers = some (watching workers, [])
run alive services (ev ∷ evs) workers = do
  result ← on_event alive services workers ev
  go_on (run alive services evs) result

-- What a worker meets in a round: the system at its check, and whether it is told to stop in the second
-- after it.
pub record Round : Type 0 where
  pub host : Host
  pub parsed : Parsed
  pub stop : Bool

-- Worker::run, as the events that it sends; a check that panics ends it.
unfoldable pub worker_run : Service → List Round → List Event
worker_run service [] = []
worker_run service (r ∷ rs) =
    let rest = worker_run service rs in
    elim (check_health r.host r.parsed service.healthiness) [
      | none ↦ []
      | some status ↦
          let ev = health_check service.name status in if r.stop then ev ∷ [] else ev ∷ rest
    ]
