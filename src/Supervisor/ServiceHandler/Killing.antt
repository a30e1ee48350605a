-- ===== src/Supervisor/ServiceHandler/Killing.antt =====
-- When a service that does not stop is killed: should_force_kill.
use horust.Prelude.{ℕ, ◌+◌, ◌<◌, ◌≤◌, ◌-◌, ◌≡◌, ◌≢◌, inl, inr, true, Option, some, arith}
use horust.Prelude.Tests.{Option-cases}
use horust.Formats.Service.{nanos_per_sec}
use horust.Formats.Event.{ShuttingDown, forcefully}
use horust.Supervisor.ServiceHandler.{ServiceHandler, Instant, should_force_kill}

-- A service with a process is killed at the latest one second after its configured time.
should_force_kill_soon :
    (sh : ServiceHandler) (now : Instant) (how : Option ShuttingDown) (p : ℕ) (start : Instant)
    → sh.pid ≡ some p
    → sh.shutting_down_start ≡ some start
    → sh.service.termination.wait + nanos_per_sec ≤ now - start
    → should_force_kill sh how now ≡ true
unfolding should_force_kill
should_force_kill_soon sh now how p start hp hs h = ground arith

should_force_kill-late :
    (sh : ServiceHandler) (now : Instant) (how : Option ShuttingDown)
    → how ≢ some forcefully
    → should_force_kill sh how now ≡ true
    → (start : Instant) × (sh.shutting_down_start ≡ some start)
      × (sh.service.termination.wait < now - start)
unfolding should_force_kill
should_force_kill-late sh now how calm h = elim (Option-cases sh.shutting_down_start) [
  | inl f ↦ absurd (ground arith)
  | inr (start, f) ↦ (start, f, ground arith)
]

should_force_kill-pid :
    (sh : ServiceHandler) (now : Instant) (how : Option ShuttingDown)
    → should_force_kill sh how now ≡ true
    → (p : ℕ) × (sh.pid ≡ some p)
unfolding should_force_kill
should_force_kill-pid sh now how h = elim (Option-cases sh.pid) [
  | inl e ↦ absurd (ground arith)
  | inr (p, e) ↦ (p, e)
]

-- Whatever the shutdown, only a service with a process is killed by force. In a forceful shutdown each
-- one with a process is. Otherwise more than its configured time, to the nanosecond, has passed since it
-- was asked to stop, and one second after that time it is killed at the latest.
pub should_force_kill_late :
    (sh : ServiceHandler) (now : Instant) (how : Option ShuttingDown)
    → (should_force_kill sh how now ≡ true → (p : ℕ) × (sh.pid ≡ some p))
      × ((p : ℕ) → sh.pid ≡ some p → how ≡ some forcefully → should_force_kill sh how now ≡ true)
      × (how ≢ some forcefully
          → should_force_kill sh how now ≡ true
          → (start : Instant) × (sh.shutting_down_start ≡ some start)
            × (sh.service.termination.wait < now - start))
      × ((p : ℕ) (start : Instant)
          → sh.pid ≡ some p
          → sh.shutting_down_start ≡ some start
          → sh.service.termination.wait + nanos_per_sec ≤ now - start
          → should_force_kill sh how now ≡ true)
unfolding should_force_kill
should_force_kill_late sh now how = (
  should_force_kill-pid sh now how,
  (λ p e f. ground arith),
  should_force_kill-late sh now how,
  should_force_kill_soon sh now how,
)
