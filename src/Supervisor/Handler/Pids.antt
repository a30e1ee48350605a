-- ===== src/Supervisor/Handler/Pids.antt =====
-- A process that a service has is one that the reaper knows.
use horust.Prelude.{◌≡◌, refl, sym, ap, subst, ◌∙◌, inl, inr, false, none, some, List, arith}
use horust.Prelude.Tests.{◌==◌, Option-cases, Bool-cases, String_eq, Nat_eq, eq_of_beq, nat_eq_iff}
use text.Mathlib.TextEquality.{eq_iff}
use horust.Prelude.HashMap.{
  HashMap, get, insert, remove, get-insert, get-remove, get-insert_self, get-insert_ne,
}
use horust.Prelude.Int.{ℤ}
use horust.Formats.Status.{started}
use horust.Formats.Service.{ServiceName}
use horust.Formats.Event.{Event, pid_changed, service_exited, Pid}
use horust.Healthcheck.Host.{Host}
use horust.Supervisor.ServiceHandler.{
  ServiceHandler, Instant, is_in_killing, add_healthcheck_event, change_status,
}
use horust.Supervisor.ServiceHandler.Transitions.{change_status_frame}
use horust.Supervisor.Repo.{get_sh}
use horust.Supervisor.Handler.{
  Supervisor, exited_sh, exited_status, on_exited, on_run, on_spawn_failed, on_kill, on_force_kill,
  on_pid_changed, on_health_check, on_shutting_down, on_status_update, handle_event,
}
use horust.Supervisor.Handler.Change.{
  Change, requested, exits, starts, unprepared, unspawned, asked, killed, up, up_too_late, checked,
  Touches, Touches-get_inv, handle_event-Touches,
}

-- The process of each service is entered in the table of processes, under that service.
abbrev pub IsTracked : Supervisor → Type 0
IsTracked s =
    (n : ServiceName) (d : ServiceHandler) (p : Pid)
    → get_sh s.repo n ≡ some d
    → d.pid ≡ some p
    → get s.repo.pid_map p ≡ some n

-- The system gives a new process an id that no service's process has: at most the service's own last
-- one may have had it.
abbrev pub IsNew : Supervisor → ServiceName → Pid → Type 0
IsNew s name p =
    (n : ServiceName) (d : ServiceHandler) → get_sh s.repo n ≡ some d → d.pid ≡ some p → n ≡ name

-- What the event must meet: a process that is reported is new.
abbrev pub Fits : Supervisor → Event → Type 0
Fits s (pid_changed name p) = IsNew s name p
Fits s _ = Unit {0}

-- Events that leave the processes alone.
abbrev IsQuiet : Event → Type 0
IsQuiet (pid_changed name p) = ⊥
IsQuiet (service_exited name code) = ⊥
IsQuiet _ = Unit {0}

Change-pid :
    {ev : Event} {n : ServiceName} {d d' : ServiceHandler}
    → Change ev n d d'
    → IsQuiet ev
    → d'.pid ≡ d.pid
unfolding add_healthcheck_event
Change-pid {d = d} (requested next e) q = (change_status_frame d next).1
Change-pid (exits code e) q = absurd (subst IsQuiet e q)
Change-pid (starts e i) q = refl
Change-pid (unprepared e i) q = refl
Change-pid (unspawned e) q = refl
Change-pid (asked now e i) q = refl
Change-pid (killed e i) q = refl
Change-pid (up p e) q = absurd (subst IsQuiet e q)
Change-pid (up_too_late p now e i) q = absurd (subst IsQuiet e q)
Change-pid (checked h e) q = refl

quiet-IsTracked :
    {ev : Event} {s s' : Supervisor}
    → Touches ev s s'
    → IsQuiet ev
    → s'.repo.pid_map ≡ s.repo.pid_map
    → IsTracked s
    → IsTracked s'
quiet-IsTracked {s' = s'} t q m k n d' p g h =
    let (d, e, c) = Touches-get_inv t n d' g in
    let same : d'.pid ≡ d.pid = elim c [
      | inl i ↦ ap (λ (x : ServiceHandler). x.pid) i
      | inr c' ↦ Change-pid c' q
    ] in
    ap (λ (t : HashMap Pid ServiceName). get t p) m ∙ k n d p e (sym same ∙ h)

module _ (s s' : Supervisor) (name : ServiceName) (sh sh' : ServiceHandler) (q : Pid)
    (e : get_sh s.repo name ≡ some sh)
    (sv : s'.repo.services ≡ insert s.repo.services name sh') where
  -- The process `q` of the service is gone.
  gone-IsTracked :
      sh.pid ≡ some q
      → s'.repo.pid_map ≡ remove s.repo.pid_map q
      → sh'.pid ≡ none
      → IsTracked s
      → IsTracked s'
  gone-IsTracked f pm gone k n d' p g hp = elim (Bool-cases (name == n)) [
    | inl hit ↦
        let same : name ≡ n = eq_of_beq hit in
        let new : d' ≡ sh' = ground (arith, get-insert_self s.repo.services name sh') in
        absurd (ground arith)
    | inr miss ↦
        let old : get_sh s.repo n ≡ some d' =
          ground (arith, get-insert_ne s.repo.services name n sh' miss) in
        let tracked = k n d' p old hp in
        let mine = k name sh q e f in
        let other : (q == p) ≡ false = elim (Bool-cases (q == p)) [
          | inr ne ↦ ne
          | inl eq ↦ absurd (clash p tracked mine (eq_of_beq eq) miss)
        ] in
        rw pm (rw (get-remove s.repo.pid_map q p, other) tracked)
  ]
    where
      clash :
          {n : ServiceName} (p : Pid)
          → get s.repo.pid_map p ≡ some n
          → get s.repo.pid_map q ≡ some name
          → q ≡ p
          → (name == n) ≡ false
          → ⊥
      clash {n} p a b c m = ground (arith, ap (get s.repo.pid_map) c, eq_iff name n)

  -- The process `q` is the service's new one.
  came-IsTracked :
      s'.repo.pid_map ≡ insert s.repo.pid_map q name
      → sh'.pid ≡ some q
      → IsNew s name q
      → IsTracked s
      → IsTracked s'
  came-IsTracked pm came new k n d' p g hp = elim (Bool-cases (name == n)) [
    | inl hit ↦
        let same : name ≡ n = eq_of_beq hit in
        let is_new : d' ≡ sh' = ground (arith, get-insert_self s.repo.services name sh') in
        let is_q : q ≡ p = ground arith in
        rw pm (rw (get-insert s.repo.pid_map q p name) (ground (arith, nat_eq_iff q p)))
    | inr miss ↦
        let old : get_sh s.repo n ≡ some d' =
          ground (arith, get-insert_ne s.repo.services name n sh' miss) in
        let other : (q == p) ≡ false = elim (Bool-cases (q == p)) [
          | inr ne ↦ ne
          | inl eq ↦ absurd (clash (new n d' old (hp ∙ ap some (sym (eq_of_beq eq)))) miss)
        ] in
        rw pm (rw (get-insert_ne s.repo.pid_map q p name other) (k n d' p old hp))
  ]
    where
      clash : {n : ServiceName} → n ≡ name → (name == n) ≡ false → ⊥
      clash {n} a m = ground (arith, eq_iff name n)

module _ (s : Supervisor) (name : ServiceName) {s' : Supervisor} {evs : List Event} where
  exited-IsTracked :
      (code : ℤ) → on_exited s name code ≡ some (s', evs) → IsTracked s → IsTracked s'
  unfolding on_exited
  exited-IsTracked code h k = elim (Option-cases (get_sh s.repo name)) [
    | inl e ↦ absurd (ground arith)
    | inr (sh, e) ↦ elim (Option-cases sh.pid) [
      | inl f ↦ absurd (ground arith)
      | inr (q, f) ↦
          gone-IsTracked s s' name sh
            (change_status (exited_sh sh) (exited_status (exited_sh sh) code)).0 q e (ground arith)
            f (ground arith)
            ((change_status_frame (exited_sh sh) (exited_status (exited_sh sh) code)).1) k
    ]
  ]

  pid_changed-IsTracked :
      (now : Instant) (q : Pid)
      → on_pid_changed now s name q ≡ some (s', evs)
      → IsNew s name q
      → IsTracked s
      → IsTracked s'
  unfolding on_pid_changed
  pid_changed-IsTracked now q h new k = elim (Option-cases (get_sh s.repo name)) [
    | inl e ↦ absurd (ground arith)
    | inr (sh, e) ↦ elim (Bool-cases (is_in_killing sh)) [
      | inl b ↦
          came-IsTracked s s' name sh (record sh { pid = some q; shutting_down_start = some now }) q
            e (ground arith) (ground arith) refl new k
      | inr b ↦
          came-IsTracked s s' name sh (record sh { pid = some q; status = started }) q e
            (ground arith) (ground arith) refl new k
    ]
  ]

-- The other events write nothing to the table of processes.
pid_map-quiet :
    (s : Supervisor) (host : Host) (now : Instant) (ev : Event) {s' : Supervisor} {evs : List Event}
    → IsQuiet ev
    → handle_event host now s ev ≡ some (s', evs)
    → s'.repo.pid_map ≡ s.repo.pid_map
unfolding handle_event on_run on_spawn_failed on_kill on_force_kill on_health_check on_shutting_down
    on_status_update
pid_map-quiet s host now (service_exited m code) q h = absurd q
pid_map-quiet s host now (pid_changed m p) q h = absurd q
pid_map-quiet s host now _ q h = ground arith

-- Every event that the supervisor handles keeps each running process known under its service, so that
-- the reaper can tell whose it was, if a process that is reported as started is a new one.
pub handle_event-IsTracked :
    (host : Host) (now : Instant) (s : Supervisor) (ev : Event) {s' : Supervisor} {evs : List Event}
    → handle_event host now s ev ≡ some (s', evs)
    → Fits s ev
    → IsTracked s
    → IsTracked s'
unfolding handle_event
handle_event-IsTracked host now s (service_exited name code) h f k =
    exited-IsTracked s name code h k
handle_event-IsTracked host now s (pid_changed name p) h f k =
    pid_changed-IsTracked s name now p h f k
handle_event-IsTracked host now s ev h f k =
    quiet-IsTracked (handle_event-Touches host now s ev h) tt (pid_map-quiet s host now ev tt h) k
