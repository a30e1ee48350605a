-- ===== src/Supervisor/Reaper/Laws.antt =====
-- The end of a service's process reaches the service.
use horust.Prelude.{ℕ, ◌≡◌, inl, inr, Option, some, List, arith}
use horust.Prelude.Tests.{Option-cases, Nat_eq, String_eq}
use horust.Prelude.HashMap.{get}
use horust.Prelude.Lists.{take, In, here, there, filter_map}
use horust.Prelude.Int.{ℤ}
use horust.Formats.Service.{ServiceName}
use horust.Formats.Event.{Event, service_exited, Pid}
use horust.Healthcheck.Host.{Host}
use horust.Supervisor.ServiceHandler.{ServiceHandler, Instant}
use horust.Supervisor.Repo.{Repo, get_sh}
use horust.Supervisor.Handler.{Supervisor, on_exited, handle_event}
use horust.Supervisor.Handler.Pids.{IsTracked}
use horust.Supervisor.Reaper.{WaitStatus, exited, signaled, killed_code, reap_one, reap}

In-filter_map {ℓ κ} :
    {A : Type ℓ} {B : Type κ} (f : A → Option B) {a : A} {b : B} {xs : List A}
    → In a xs
    → f a ≡ some b
    → In b (filter_map f xs)
In-filter_map f here e = rw (e, filter_map) here
In-filter_map f (there {x = x} i) e = elim (Option-cases (f x)) [
  | inl n ↦ rw (n, filter_map) (In-filter_map f i e)
  | inr (y, n) ↦ rw (n, filter_map) (there (In-filter_map f i e))
]

-- What the answer says of a process.
pub data Ends (p : Pid) : WaitStatus → ℤ → Type 0 where
  by_exit : (code : ℤ) → Ends p (exited p code) code
  by_signal : Ends p (signaled p) killed_code

reap_one-Ends :
    (repo : Repo) {p : Pid} {answer : WaitStatus} {code : ℤ} {n : ServiceName}
    → Ends p answer code
    → get repo.pid_map p ≡ some n
    → reap_one repo answer ≡ some (service_exited n code)
reap_one-Ends repo (by_exit code) e = ground arith
reap_one-Ends repo by_signal e = ground arith

-- When waitpid answers, within the calls of one round, that the process of a service has ended, the
-- reaper reports the end of that service, with the exit code of the process or -137 if a signal ended
-- it; and the supervisor handles the report: it is no panic.
pub reap-service_exited :
    (s : Supervisor) (calls : ℕ) (answers : List WaitStatus) (n : ServiceName) (d : ServiceHandler)
    (p : Pid) (code : ℤ) (answer : WaitStatus) (host : Host) (now : Instant)
    → IsTracked s
    → get_sh s.repo n ≡ some d
    → d.pid ≡ some p
    → In answer (take calls answers)
    → Ends p answer code
    → In (service_exited n code) (reap s.repo calls answers)
      × ((r : Supervisor × List Event) × (handle_event host now s (service_exited n code) ≡ some r))
unfolding reap handle_event on_exited
reap-service_exited s calls answers n d p code answer host now k e f i ends = (
  In-filter_map (reap_one s.repo) i (reap_one-Ends s.repo ends (k n d p e f)),
  (elim (Option-cases (handle_event host now s (service_exited n code))) [
    | inl h ↦ absurd (ground arith)
    | inr (r, h) ↦ (r, h)
  ]),
)
