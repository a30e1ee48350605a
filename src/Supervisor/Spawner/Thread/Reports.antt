-- ===== src/Supervisor/Spawner/Thread/Reports.antt =====
-- What the thread that spawns a service reports.
use horust.Prelude.{
  ℕ, ◌+◌, ◌*◌, ◌^◌, ◌<◌, ◌≤◌, ◌≡◌, ◌≢◌, refl, ◌∙◌, true, false, List, [], ◌∷◌, ◌++◌, map, arith,
}
use horust.Prelude.Tests.{ltb}
use horust.Prelude.Lists.{All, In, here, there, any}
use horust.Formats.Service.{Service, nanos_per_sec}
use horust.Formats.Event.{Event, pid_changed, spawn_failed, shutting_down_initiated, ShuttingDown}
use horust.Prelude.Outcome.{Outcome, ok, err, panic}
use horust.Supervisor.Spawner.Exec.{Spawned}
use horust.Supervisor.Spawner.Thread.{
  Wake, tick, timeout, sends, dies, is_shutting_down_ev, report, sleep, spawn_thread,
}

-- Events without a shutdown.
abbrev pub AreQuiet : List Event → Type 0
AreQuiet = All (λ ev. (how : ShuttingDown) → ev ≢ shutting_down_initiated how)

any-quiet : (evs : List Event) → AreQuiet evs → any is_shutting_down_ev evs ≡ false
any-quiet [] h = refl
any-quiet (shutting_down_initiated how ∷ evs) h = absurd (h.0 how refl)
any-quiet (_ ∷ evs) h = any-quiet evs h.1

any-shutting_down :
    {how : ShuttingDown} {evs : List Event}
    → In (shutting_down_initiated how) evs
    → any is_shutting_down_ev evs ≡ true
any-shutting_down here = refl
any-shutting_down (there {x = x} i) = ground (arith, any-shutting_down i)

sleep-quiet :
    (service : Service) (spawned : Outcome Spawned) (quiet : List (List Event)) (wakes : List Wake)
    → All AreQuiet quiet
    → sleep service spawned (map tick quiet ++ wakes) ≡ sleep service spawned wakes
unfolding sleep
sleep-quiet service spawned [] wakes h = refl
sleep-quiet service spawned (evs ∷ quiet) wakes h =
    rw (any-quiet evs h.0) (sleep-quiet service spawned quiet wakes h.1)

sleep-ended :
    (service : Service) (spawned : Outcome Spawned) (quiet : List (List Event)) (wakes : List Wake)
    → All AreQuiet quiet
    → sleep service spawned (map tick quiet ++ timeout ∷ wakes) ≡ report service.name spawned
unfolding sleep
sleep-ended service spawned quiet wakes h = sleep-quiet service spawned quiet (timeout ∷ wakes) h

sleep-shutting_down :
    (service : Service) (spawned : Outcome Spawned) (quiet : List (List Event)) (wakes : List Wake)
    → All AreQuiet quiet
    → (how : ShuttingDown) (evs : List Event) → In (shutting_down_initiated how) evs
    → sleep service spawned (map tick quiet ++ tick evs ∷ wakes) ≡ sends (spawn_failed service.name)
unfolding sleep
sleep-shutting_down service spawned quiet wakes h how evs i =
    sleep-quiet service spawned quiet (tick evs ∷ wakes) h ∙ rw (any-shutting_down i) refl

-- A start delay and a backoff whose sum a Duration cannot hold kill the thread at once. Otherwise, if no
-- shutdown is on the bus before its sleep ends, it then sends the process that was spawned, or that the
-- spawning has failed, or it dies of a panic of the spawning; and on the first tick at which a shutdown is
-- on the bus, whatever else is, it reports that the spawning has failed and starts no process.
pub spawn_thread_lem :
    (service : Service) (backoff : ℕ) (quiet : List (List Event)) (wakes : List Wake)
    → All AreQuiet quiet
    → let thread = λ (spawned : Outcome Spawned) (woken : List Wake).
      spawn_thread service backoff spawned (map tick quiet ++ woken) in
      ((spawned : Outcome Spawned)
        → 2 ^ 64 * nanos_per_sec ≤ service.start_delay + backoff
        → thread spawned wakes ≡ dies)
      × (service.start_delay + backoff < 2 ^ 64 * nanos_per_sec
          → ((child : Spawned)
              → thread (ok child) (timeout ∷ wakes) ≡ sends (pid_changed service.name child.pid))
            × (thread err (timeout ∷ wakes) ≡ sends (spawn_failed service.name))
            × (thread panic (timeout ∷ wakes) ≡ dies)
            × ((spawned : Outcome Spawned) (how : ShuttingDown) (evs : List Event)
                → In (shutting_down_initiated how) evs
                → thread spawned (tick evs ∷ wakes) ≡ sends (spawn_failed service.name)))
unfolding spawn_thread
spawn_thread_lem service backoff quiet wakes h = (
  λ spawned over. ground arith,
  λ fits.
      let e : ltb (service.start_delay + backoff) (2 ^ 64 * nanos_per_sec) ≡ true = ground arith in
      (
        λ child. rw e (sleep-ended service (ok child) quiet wakes h),
        rw e (sleep-ended service err quiet wakes h),
        rw e (sleep-ended service panic quiet wakes h),
        λ spawned how evs i. rw e (sleep-shutting_down service spawned quiet wakes h how evs i),
      ),
)
