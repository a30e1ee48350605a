-- ===== src/Supervisor/Reaper.antt =====
-- The reaper, horust/src/horust/supervisor/reaper.rs. The answers of waitpid are a parameter, a list
-- with one answer for each call; past its end no child has changed state.
pub mod Laws
use horust.Prelude.{ℕ, zero, suc, ◌≡◌, ◌≤◌, Bool, Option, none, some, List, [], ◌∷◌, arith}
use horust.Prelude.Int.{ℤ, negsuc}
use horust.Prelude.Lists.{filter_map, take}
use horust.Prelude.Panic.{◌>>=◌}
use horust.Formats.Service.{ServiceName}
use horust.Formats.Event.{Event, service_exited, Pid}
use horust.Supervisor.Repo.{Repo, get_service_by_pid}

-- What waitpid may answer, as far as the program tells its answers apart.
pub data WaitStatus : Type 0 where
  exited : Pid → ℤ → WaitStatus
  signaled : Pid → WaitStatus
  other : WaitStatus
  error : WaitStatus

-- The code -137 stands for the end by a signal.
abbrev pub killed_code : ℤ
killed_code = negsuc 136

abbrev pub reap_one : Repo → WaitStatus → Option Event
reap_one repo (exited pid code) = do
  name ← get_service_by_pid repo pid
  some (service_exited name code)
reap_one repo (signaled pid) = do
  name ← get_service_by_pid repo pid
  some (service_exited name killed_code)
reap_one repo other = none
reap_one repo error = none

unfoldable pub reap : Repo → ℕ → List WaitStatus → List Event
reap repo max_iterations answers = filter_map (reap_one repo) (take max_iterations answers)
