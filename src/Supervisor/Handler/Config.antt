-- ===== src/Supervisor/Handler/Config.antt =====
-- Handling events never adds, removes or reconfigures a service.
use horust.Prelude.{◌≡◌, refl, Option, some, List, arith}
use horust.Prelude.Tests.{String_eq}
use text.Mathlib.TextEquality.{eq_iff}
use horust.Prelude.HashMap.{get-insert}
use horust.Prelude.Panic.{◌>>=◌}
use horust.Formats.Service.{Service, ServiceName}
use horust.Formats.Event.{Event}
use horust.Healthcheck.Host.{Host}
use horust.Supervisor.ServiceHandler.{ServiceHandler, Instant, add_healthcheck_event}
use horust.Supervisor.ServiceHandler.Transitions.{change_status_frame}
use horust.Supervisor.Repo.{Repo, get_sh}
use horust.Supervisor.Handler.{Supervisor, exited_sh, exited_status, handle_event}
use horust.Supervisor.Handler.Change.{
  Change, requested, exits, starts, unprepared, unspawned, asked, killed, up, up_too_late, checked,
  Touches, nothing, one, handle_event-Touches,
}

-- The configuration under a name.
abbrev pub config : Repo → ServiceName → Option Service
config repo name = do sh ← get_sh repo name; some sh.service

pub Change-service :
    {ev : Event} {name : ServiceName} {sh sh' : ServiceHandler}
    → Change ev name sh sh'
    → sh'.service ≡ sh.service
unfolding add_healthcheck_event
Change-service {sh = sh} (requested next e) = (change_status_frame sh next).0
Change-service {sh = sh} (exits code e) =
    (change_status_frame (exited_sh sh) (exited_status (exited_sh sh) code)).0
Change-service (starts e i) = refl
Change-service (unprepared e i) = refl
Change-service (unspawned e) = refl
Change-service (asked now e i) = refl
Change-service (killed e i) = refl
Change-service (up p e) = refl
Change-service (up_too_late p now e i) = refl
Change-service (checked h e) = refl

-- Whatever event is handled, the services are the same ones as before, each with the configuration
-- that it had.
pub config-handle_event :
    (host : Host) (now : Instant) (s : Supervisor) (ev : Event) {s' : Supervisor} {evs : List Event}
    → handle_event host now s ev ≡ some (s', evs)
    → (n : ServiceName) → config s'.repo n ≡ config s.repo n
config-handle_event host now s ev h n = go (handle_event-Touches host now s ev h)
  where
    go : {s' : Supervisor} → Touches ev s s' → config s'.repo n ≡ config s.repo n
    go (nothing e) = rw e
    go {s'} (one name sh sh' e f c) = rw f (
        rw (get-insert s.repo.services name n sh')
          (ground (arith, Change-service c, eq_iff name n)))
