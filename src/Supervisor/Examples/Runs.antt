-- ===== src/Supervisor/Examples/Runs.antt =====
-- The theorems about the loop, and about the validation before it, at the web service and the database.
use horust.Prelude.{false, ◌≡◌, ◌↔◌, refl, inl, true, Option, none, some, List, [], ◌∷◌, arith}
use horust.Prelude.Lists.{All}
use horust.Prelude.Int.{pos}
use horust.Formats.Status.{starting, started, finished_failed}
use horust.Formats.Service.{Service, default_healthiness}
use horust.Formats.Event.{Event, health_check, healthy, LifecycleStatus, some_service_failed}
use horust.Formats.Validation.{ok, validate}
use horust.Formats.Validation.Laws
use horust.Formats.Validation.Laws.{IsWellFormed, IsService}
use horust.Supervisor.ServiceHandler.{
  ServiceHandler, Instant, add_healthcheck_event, has_some_failed_healthchecks,
}
use horust.Supervisor.Repo.{
  Repo, new_repo, get_sh, is_service_runnable, all_have_finished, any_finished_failed,
}
use horust.Supervisor.Repo.Readiness.{IsTerminal}
use horust.Supervisor.Next.{next, next_events}
use horust.Supervisor.Reaper.{reap}
use horust.Supervisor.Handler.{Supervisor, new_supervisor, handle_event, on_health_check}
use horust.Supervisor.Loop.{
  Round, on_sigterm, handle_all, next_all, round, exit_status, finish, Progress, going, ended, run,
}
use horust.Healthcheck.Checks.{check_health, run_check}
use horust.Healthcheck.Workers as Workers
use horust.Supervisor.Handler.Healthy
use horust.Supervisor.Handler.Healthy.{IsAnswered, GetsToRun}
use horust.Supervisor.Loop.Closed
use horust.Supervisor.Loop.Checks
use horust.Supervisor.Loop.End
use horust.Supervisor.Loop.End.{SomeFailed}
use horust.Supervisor.Examples.{host, db, web, with_status}
use horust.Supervisor.Examples.Events.{system, web_with}

validate-ok_iff_example :
    (validate (db ∷ web ∷ []) ≡ ok (db ∷ web ∷ []))
    ↔ All (IsWellFormed (db ∷ web ∷ [])) (db ∷ web ∷ [])
validate-ok_iff_example = Laws.validate-ok_iff (db ∷ web ∷ [])

abbrev quiet : Round
quiet = record { host = host; received = []; now = 0; answers = []; sigterm = false }

abbrev pub state_of : Supervisor → Option Progress → Supervisor
state_of s none = s
state_of s (some (going s')) = s'
state_of s (some (ended status s')) = s'

abbrev pub fresh : Supervisor
fresh = new_supervisor (db ∷ web ∷ []) system

validate-run-next_all_example :
    (evs : List Event) × (next_all 7 (state_of fresh (run 2 (quiet ∷ []) fresh)) ≡ some evs)
unfolding validate new_repo run round on_sigterm handle_all next_all next next_events
    is_service_runnable reap all_have_finished
validate-run-next_all_example =
    Closed.validate-run-next_all (db ∷ web ∷ []) system 2 (quiet ∷ []) 7 refl refl

abbrev produced : Supervisor → Option (Supervisor × List Event) → Supervisor
produced s none = s
produced s (some (s', out)) = s'

abbrev checked : ServiceHandler
checked = record (with_status web starting) { healthiness_checks_failed = some (pos 1) }

handle_all-failed_check_example :
    (d' : ServiceHandler) × (get_sh
        (produced
          (web_with checked)
          (handle_all host ((5, health_check "web" healthy) ∷ []) (web_with checked))).repo
        "web"
      ≡ some d')
    × (has_some_failed_healthchecks d' ≡ true)
    × ((now : Instant) (repo : Repo)
        → d'.status ≡ started
        → next now d' repo LifecycleStatus.running ≡ some [])
unfolding handle_all handle_event on_health_check add_healthcheck_event
handle_all-failed_check_example =
    Checks.handle_all-failed_check host ((5, health_check "web" healthy) ∷ []) (web_with checked)
      "web" checked 0 refl refl refl (omega arith)

abbrev failed_web : Supervisor
failed_web = web_with (with_status web finished_failed)

run-ended_example :
    let s' = state_of failed_web (run 2 [] failed_web) in
    All (λ entry. IsTerminal entry.1.status) s'.repo.services
    × ((some_service_failed ≡ some_service_failed) ↔ SomeFailed s'.repo.services)
unfolding run all_have_finished exit_status finish any_finished_failed
run-ended_example = End.run-ended 2 [] failed_web refl

-- A service with a check on a file that is there.
abbrev watched : Service
watched = record web { healthiness = record default_healthiness { file_path = some "/run/ready" } }

abbrev fit : Workers.Round
fit = record { host = host; parsed = []; stop = true }

started-running_example :
    IsAnswered (db ∷ watched ∷ []) [] "web" (fit ∷ [])
    × GetsToRun host 1 2 3 (web_with (with_status watched started)) "web"
unfolding check_health run_check
started-running_example =
    Healthy.started-running (db ∷ watched ∷ []) [] "web" watched fit [] host 1 2 3
      (web_with (with_status watched started)) (with_status watched started) refl refl refl refl
      refl (inl (refl, refl)) refl
