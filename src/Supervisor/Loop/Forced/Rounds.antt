-- ===== src/Supervisor/Loop/Forced/Rounds.antt =====
-- One round of a forced shutdown: each service asks for its next step.
use horust.Prelude.{◌≡◌, refl, sym, ap, ◌∙◌, Bool, true, false, some, List, [], ◌∷◌, ◌++◌}
use horust.Prelude.Tests.{String_eq}
use horust.Prelude.Lists.{
  In, length, drop, drop-append, append-nil, append_assoc, In-append_left, In-append_right,
}
use horust.Prelude.HashMap.{get-In, In-get}
use horust.Prelude.Panic.{◌>>=◌}
use horust.Formats.Service.{ServiceName}
use horust.Formats.Event.{Event, LifecycleStatus, forcefully, shutting_down}
use horust.Supervisor.ServiceHandler.{ServiceHandler, sh_name}
use horust.Supervisor.Repo.{get_sh}
use horust.Supervisor.Next.Forced.{next_entries-forced}
use horust.Supervisor.Reaper.{reap}
use horust.Supervisor.Handler.{Supervisor}
use horust.Supervisor.Handler.Stopping.{ask}
use horust.Supervisor.Handler.Admissible.{IsForced}
use horust.Supervisor.Loop.{
  Round, max_process_reaps_iters, send, interrupted, send_all, sigterm_at, on_sigterm, next_all,
  round,
}
use horust.Supervisor.Loop.Forced.{AllAdmissible, events, Descends, handle_all-IsLeft}

abbrev sent_all : Supervisor → List Event → Supervisor
sent_all s evs = record s { repo = record s.repo { sent = s.repo.sent ++ evs } }

send_all-eq : (s : Supervisor) (evs : List Event) → send_all s evs ≡ sent_all s evs
send_all-eq s [] =
    ap (λ (xs : List Event). record s { repo = record s.repo { sent = xs } })
      (sym (append-nil s.repo.sent))
send_all-eq s (ev ∷ evs) =
    send_all-eq (send s ev) evs
    ∙ ap (λ (xs : List Event). record s { repo = record s.repo { sent = xs } })
        (append_assoc s.repo.sent (ev ∷ []) evs)

sigterm_at-forced : (b : Bool) (s : Supervisor) → sigterm_at (shutting_down forcefully) b s ≡ s
unfolding sigterm_at
sigterm_at-forced true s = refl
sigterm_at-forced false s = refl

-- In a forced shutdown a further SIGTERM does nothing.
on_sigterm-forced : (s : Supervisor) → s.status ≡ shutting_down forcefully → on_sigterm s ≡ s
unfolding on_sigterm
on_sigterm-forced s e =
    ap (λ (x : LifecycleStatus). sigterm_at x s.system.sigterm_received s) e
    ∙ sigterm_at-forced s.system.sigterm_received s

next_all-forced :
    (r : Round) (s : Supervisor)
    → IsForced s
    → (evs : List Event) × (next_all r.now s ≡ some evs)
      × ((n : ServiceName) (d : ServiceHandler) (ev : Event)
          → get_sh s.repo n ≡ some d
          → ask n d.status ≡ some ev
          → In ev evs)
unfolding next_all
next_all-forced r s (life, distinct, own) =
    let (evs, e, asked) =
      next_entries-forced r.now s.repo s.repo.services
        (λ n d i. (own n d (get-In s.repo.services n d distinct i)).0) in
    (
      evs,
      rw life e,
      λ n d ev at a.
          let name : sh_name d ≡ n = (own n d at).1 in
          asked n d ev (In-get s.repo.services n d at) (rw name a),
    )

-- What was sent in the last round.
abbrev pub sent_since : Supervisor → Supervisor → List Event
sent_since s s' = drop (length s.repo.sent) s'.repo.sent

-- Each service has sent what it asks for.
abbrev pub IsAsked : Supervisor → List Event → Type 0
IsAsked s pending =
    (n : ServiceName) (d : ServiceHandler) (ev : Event)
    → get_sh s.repo n ≡ some d
    → ask n d.status ≡ some ev
    → In ev pending

pub round-IsForced :
    (r : Round) (s : Supervisor)
    → IsForced s
    → AllAdmissible r.host r.received s
    → (s' : Supervisor) × (round r s ≡ some s')
      × IsForced s'
      × Descends (events r.received) s s'
      × IsAsked s' (sent_since s s')
unfolding round
round-IsForced r s forced a =
    let (s₁, out, h, (forced₁, kept, falls)) = handle_all-IsLeft r.host r.received s forced a in
    let (evs, g, asked) = next_all-forced r s₁ forced₁ in
    let all = out ++ evs ++ reap s₁.repo max_process_reaps_iters r.answers in
    (
      interrupted r.sigterm (sent_all s₁ all),
      rw (on_sigterm-forced s forced.0) (
          rw (h, ◌>>=◌)
            (rw (g, ◌>>=◌) (ap (λ x. some (interrupted r.sigterm x)) (send_all-eq s₁ all)))),
      forced₁,
      falls,
      λ n d ev at q.
          rw (kept, drop-append)
            (In-append_left (reap s₁.repo max_process_reaps_iters r.answers)
              (In-append_right out (asked n d ev at q))),
    )
