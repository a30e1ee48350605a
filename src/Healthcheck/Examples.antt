-- ===== src/Healthcheck/Examples.antt =====
-- The checks of a service with a file and a command, on a system that has both.
use horust.Prelude.{String, ◌≡◌, ◌↔◌, refl, true, none, some, List, [], ◌∷◌}
use horust.Prelude.Int.{pos}
use horust.Formats.Status.{started}
use horust.Healthcheck.Workers.{watching, Workers, Action, run}
use horust.Healthcheck.Workers.Watched
use horust.Healthcheck.Workers.Watched.{replay}
use horust.Prelude.HashMap.{get}
use horust.Prelude.Tests.{String_eq}
use horust.Formats.Service.{
  Service, Healthiness, default_service, default_healthiness, has_any_check_defined,
}
use horust.Formats.Event.{Event, status_changed, service_exited, healthy}
use horust.Healthcheck.Host.{Host}
use horust.Healthcheck.Checks.{Parsed, check_health}
use horust.Healthcheck.Checks.Verdict
use horust.Healthcheck.Checks.Verdict.{Holds, IsAnswered, IsSuccessful}

abbrev host : Host
host = record {
  exists = λ p. true;
  is_file = λ p. true;
  join = λ p n. "/bin/true";
  split_paths = λ s. s ∷ [];
  remove_file = λ p. true;
  var_os = λ n. some "/bin";
  into_string = λ p. some p;
  split = λ s. some (s ∷ []);
  head = λ u. none;
  succeeds = λ p a. some true;
}

abbrev checks : Healthiness
checks = record default_healthiness { file_path = some "/run/ready"; command = some "true" }

abbrev parsed : Parsed
parsed = ("true", "/bin/true" ∷ []) ∷ []

check_health_iff_example :
    ((check_health host parsed checks ≡ some healthy) ↔ (
      Holds (λ file. host.exists file ≡ true) (some "/run/ready")
      × Holds (IsAnswered host) none
      × Holds (IsSuccessful host parsed) (some "true")))
    × (Holds (λ file. host.exists file ≡ true) (some "/run/ready")
        → Holds (IsAnswered host) none
        → (command program : String) (args : List String) → some "true" ≡ some command
        → get parsed command ≡ some (program ∷ args)
        → host.succeeds program args ≡ none
        → check_health host parsed checks ≡ none)
check_health_iff_example = Verdict.check_health_iff host parsed checks

abbrev web : Service
web = record (default_service "/" 0) { name = "web"; healthiness = checks }

abbrev plain : Service
plain = record (default_service "/" 0) { name = "plain" }

-- The checked service starts, ends and is started again.
abbrev events : List Event
events =
    status_changed "web" started
    ∷ status_changed "plain" started
    ∷ service_exited "web" (pos 1)
    ∷ status_changed "web" started
    ∷ []

run-watched_example :
    (workers' : Workers) × (acts : List Action) × (run (λ n. true) (web ∷ plain ∷ []) events []
      ≡ some (watching workers', acts))
    × (get workers' "web" ≡ some web)
    × (replay "web" none acts ≡ some (get workers' "web"))
unfolding has_any_check_defined
run-watched_example =
    Watched.run-watched (λ n. true) (web ∷ plain ∷ []) events [] "web"
      ((web, refl), ((plain, refl), (tt, ((web, refl), tt))))
