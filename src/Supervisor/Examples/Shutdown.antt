-- ===== src/Supervisor/Examples/Shutdown.antt =====
-- A forced shutdown of a database that runs and of a web service that is being stopped.
use horust.Prelude.{true, ◌≡◌, refl, inl, inr, some, List, [], ◌∷◌, map, arith}
use horust.Prelude.Lists.{All, All-In, here, there}
use horust.Prelude.Tests.{String_eq}
use horust.Prelude.HashMap.{In-get}
use horust.Formats.Status.{running, in_killing, finished_failed, failed}
use horust.Formats.Event.{
  Event, status_update, status_changed, service_exited, force_kill, forcefully, shutting_down,
  ExitStatus,
}
use horust.Supervisor.ServiceHandler.{ServiceHandler, change_status, should_force_kill}
use horust.Supervisor.Repo.{all_have_finished}
use horust.Supervisor.Repo.Readiness.{IsTerminal}
use horust.Supervisor.Next.{next, next_events_shutting_down}
use horust.Supervisor.Reaper.{WaitStatus, signaled, killed_code, reap}
use horust.Supervisor.Handler.{
  Supervisor, handle_event, on_exited, on_kill, on_force_kill, on_status_update,
}
use horust.Supervisor.Handler.Admissible.{IsForced, IsOwn}
use horust.Supervisor.Loop.{Round, on_sigterm, handle_all, next_all, round, ended, run}
use horust.Supervisor.Loop.Forced.Shutdown
use horust.Supervisor.Loop.Forced.Shutdown.{IsServed}
use horust.Supervisor.Examples.{host, db, web, with_status}
use horust.Supervisor.Examples.Events.{system}

abbrev db_up : ServiceHandler
db_up = record (with_status db running) { pid = some 41 }

abbrev web_down : ServiceHandler
web_down = record (with_status web in_killing) { pid = some 42 }

abbrev forced : Supervisor
forced = record {
  status = shutting_down forcefully;
  repo = record {
    services = ("db", db_up) ∷ ("web", web_down) ∷ [];
    sent = [];
    pid_map = (41, "db") ∷ (42, "web") ∷ [];
  };
  system = system;
}

abbrev receiving : List Event → List WaitStatus → Round
receiving evs waited = record {
  host = host;
  received = map (λ ev. (3, ev)) evs;
  now = 3;
  answers = waited;
  sigterm = true;
}

-- The web service's process is reaped in the third round, that of the database never.
abbrev rounds : List Round
rounds =
    receiving [] []
    ∷ receiving (status_update "db" in_killing ∷ Event.kill "db" ∷ force_kill "web" ∷ []) []
    ∷ receiving
        (status_changed "db" in_killing
          ∷ status_changed "web" failed
          ∷ force_kill "db"
          ∷ status_update "web" finished_failed
          ∷ [])
        (signaled 42 ∷ [])
    ∷ receiving
        (status_changed "db" failed
          ∷ status_changed "web" finished_failed
          ∷ status_update "db" finished_failed
          ∷ service_exited "web" killed_code
          ∷ [])
        []
    ∷ receiving (status_changed "db" finished_failed ∷ status_changed "web" finished_failed ∷ []) []
    ∷ receiving [] []
    ∷ receiving [] []
    ∷ []

forced-IsForced : IsForced forced
forced-IsForced = (
  refl,
  (refl, (refl, tt)),
  λ n d at.
      All-In (λ entry. IsOwn forced entry.0 entry.1) forced.repo.services
        ((inl (inl refl, (41, refl)), refl), ((inl (inr (inr refl), (42, refl)), refl), tt))
        (In-get forced.repo.services n d at),
)

rounds-IsServed : IsServed forced [] rounds
unfolding run round on_sigterm handle_all next_all next next_events_shutting_down handle_event
    on_exited on_kill on_force_kill on_status_update change_status should_force_kill reap
    all_have_finished
rounds-IsServed = (
  tt,
  tt,
  (
    (here, (there here, (there (there here), tt))),
    (((_, refl), inl refl), ((_, refl), ((_, refl), tt))),
    (
      (here, (there here, (there (there here), (there (there (there here)), tt)))),
      (tt, (tt, ((_, refl), (((_, refl), inr (inr refl)), tt)))),
      (
        (here, (there here, (there (there here), (there (there (there here)), tt)))),
        (tt, (tt, (((_, refl), inr (inr refl)), ((_, 42, refl, refl), tt)))),
        ((here, (there here, tt)), (tt, (tt, tt)), (tt, tt, (tt, tt, tt))),
      ),
    ),
  ),
)

run-forced_example :
    (status : ExitStatus) × (s' : Supervisor) × (run 2 rounds forced ≡ some (ended status s'))
    × All (λ entry. IsTerminal entry.1.status) s'.repo.services
run-forced_example =
    Shutdown.run-forced 2 rounds forced forced-IsForced rounds-IsServed (omega arith)
