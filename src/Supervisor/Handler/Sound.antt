-- ===== src/Supervisor/Handler/Sound.antt =====
-- What every event keeps of each service: its name, and the width of its counters.
use horust.Prelude.{
  ◌<◌, ◌≡◌, subst, sym, ap, ◌∙◌, inl, inr, Bool, true, false, ◌&&◌, not, Option, none, some, List,
  arith,
}
use horust.Prelude.Tests.{String_eq, if◌then◌else◌}
use horust.Prelude.Int.{ℤ, pos, negsuc, u32_mod, wrapping_add_i32}
use horust.Prelude.HashMap.{IsDistinct}
use horust.Formats.Status.{ServiceStatus}
use horust.Formats.Service.{Service, ServiceName}
use horust.Formats.Event.{Event, HealthinessStatus}
use horust.Healthcheck.Host.{Host}
use horust.Supervisor.ServiceHandler.{
  ServiceHandler, Instant, sh_name, change_status, add_healthcheck_event, unwrap_or, is_alive_state,
  is_healthy,
}
use horust.Supervisor.ServiceHandler.Transitions.{change_status_frame}
use horust.Supervisor.Repo.{get_sh}
use horust.Supervisor.Handler.{Supervisor, exited_sh, exited_status, handle_event}
use horust.Supervisor.Handler.Admissible.{Touches-IsDistinct}
use horust.Supervisor.Handler.Config.{Change-service}
use horust.Supervisor.Handler.Change.{
  Change, requested, exits, starts, unprepared, unspawned, asked, killed, up, up_too_late, checked,
  Touches-get_inv, handle_event-Touches,
}

-- An `i32`, where there is a value.
abbrev pub IsI32 : Option ℤ → Type 0
IsI32 none = Unit {0}
IsI32 (some (pos n)) = n < 2147483648
IsI32 (some (negsuc n)) = n < 2147483648

-- The counters of a service fit their types.
abbrev pub IsWide : ServiceHandler → Type 0
IsWide d = (d.restart_attempts < u32_mod) × IsI32 d.healthiness_checks_failed

wrapping_add-IsI32 :
    (x y : ℤ) → IsI32 (some x) → IsI32 (some y) → IsI32 (some (wrapping_add_i32 x y))
wrapping_add-IsI32 (pos a) (pos b) h k = ground arith
wrapping_add-IsI32 (pos a) (negsuc b) h k = ground arith
wrapping_add-IsI32 (negsuc a) (pos b) h k = ground arith
wrapping_add-IsI32 (negsuc a) (negsuc b) h k = ground arith

unwrap-IsI32 : (o : Option ℤ) → IsI32 o → IsI32 (some (unwrap_or o (pos 0)))
unwrap-IsI32 none h = omega arith
unwrap-IsI32 (some x) h = h

one-IsI32 : (b : Bool) → IsI32 (some (if b then pos 1 else pos 0))
one-IsI32 true = omega arith
one-IsI32 false = omega arith

checked-IsI32 :
    (d : ServiceHandler) (check : HealthinessStatus)
    → IsI32 d.healthiness_checks_failed
    → IsI32 (add_healthcheck_event d check).healthiness_checks_failed
unfolding add_healthcheck_event
checked-IsI32 d check h =
    wrapping_add-IsI32 (unwrap_or d.healthiness_checks_failed (pos 0))
      (if is_alive_state d && not (is_healthy check) then pos 1 else pos 0)
      (unwrap-IsI32 d.healthiness_checks_failed h)
      (one-IsI32 (is_alive_state d && not (is_healthy check)))

change_status-IsWide :
    (d : ServiceHandler) (next : ServiceStatus) → IsWide d → IsWide (change_status d next).0
change_status-IsWide d next (a, b) =
    let (service, pid, checks, start, attempts) = change_status_frame d next in
    (elim attempts [ inl e ↦ omega arith | inr (s, t, e) ↦ omega arith ], rw checks b)

exited_sh-IsWide : (d : ServiceHandler) → IsWide d → IsWide (exited_sh d)
exited_sh-IsWide d (a, b) = (omega arith, b)

Change-IsWide :
    {ev : Event} {n : ServiceName} {d d' : ServiceHandler} → Change ev n d d' → IsWide d → IsWide d'
Change-IsWide {d = d} (requested next e) h = change_status-IsWide d next h
Change-IsWide {d = d} (exits code e) h =
    change_status-IsWide (exited_sh d) (exited_status (exited_sh d) code) (exited_sh-IsWide d h)
Change-IsWide (starts e i) h = h
Change-IsWide (unprepared e i) h = h
Change-IsWide (unspawned e) h = h
Change-IsWide (asked now e i) h = h
Change-IsWide (killed e i) h = h
Change-IsWide (up p e) h = h
Change-IsWide (up_too_late p now e i) h = h
Change-IsWide {d = d} (checked check e) h =
    unfold add_healthcheck_event in (h.0, checked-IsI32 d check h.1)

-- Each service has one entry, under its own name, and counters that fit.
abbrev pub IsSound : Supervisor → Type 0
IsSound s =
    IsDistinct s.repo.services
    × ((n : ServiceName) (d : ServiceHandler)
        → get_sh s.repo n ≡ some d
        → (sh_name d ≡ n) × IsWide d)

-- Every event that is handled keeps this.
pub handle_event-IsSound :
    (host : Host) (now : Instant) (s : Supervisor) (ev : Event) {s' : Supervisor} {evs : List Event}
    → handle_event host now s ev ≡ some (s', evs)
    → IsSound s
    → IsSound s'
handle_event-IsSound host now s ev h (distinct, each) = (
  Touches-IsDistinct (handle_event-Touches host now s ev h) distinct,
  λ n d' at.
      let (d, f, c) = Touches-get_inv (handle_event-Touches host now s ev h) n d' at in
      let (named, wide) = each n d f in
      elim c [
        | inl same ↦
            subst (λ (x : ServiceHandler). (sh_name x ≡ n) × IsWide x) (sym same) (named, wide)
        | inr ch ↦ (ap (λ (x : Service). x.name) (Change-service ch) ∙ named, Change-IsWide ch wide)
      ],
)
