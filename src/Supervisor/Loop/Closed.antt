-- ===== src/Supervisor/Loop/Closed.antt =====
-- From services that passed validation, the loop always finds the services that are depended on.
use horust.Prelude.{◌≡◌, refl, sym, subst, ◌⊎◌, inl, inr, some, List, [], ◌∷◌, ◌++◌, map}
use horust.Prelude.Tests.{Bool-cases, String_eq, ◌==◌}
use horust.Prelude.Lists.{All, All-map, In, here, there}
use horust.Prelude.HashMap.{
  HashMap, get, insert, extend, get-insert, get-insert_self, AllValues, AllValues-get,
  AllValues-insert,
}
use horust.Prelude.Panic.{◌>>=◌, try_flat_map}
use horust.Formats.Service.{Service, ServiceName}
use horust.Formats.Event.{Event, LifecycleStatus, Pid}
use horust.Formats.Validation.{ok, validate}
use horust.Formats.Validation.Laws.{IsService, IsWellFormed, validate-ok_iff}
use horust.Supervisor.ServiceHandler.{ServiceHandler, Instant, of_service}
use horust.Supervisor.Repo.{Repo, new_repo}
use horust.Supervisor.Repo.Readiness.{IsKnown}
use horust.Supervisor.Next.{next}
use horust.Supervisor.Next.Total.{KnowsDeps, next_total}
use horust.Supervisor.Handler.{System, Supervisor, new_supervisor}
use horust.Supervisor.Handler.Change.{Touches, nothing, one, Touches-get, handle_event-Touches}
use horust.Supervisor.Handler.Config.{Change-service}
use horust.Supervisor.Loop.Induction.{run_induction}
use horust.Supervisor.Loop.{Round, next_all, going, run}

-- The services that any service names are in the repository.
abbrev pub IsClosed : Repo → Type 0
IsClosed repo = AllValues (λ sh. KnowsDeps repo sh.service) repo.services

-- More services known, or as many.
abbrev Grows : Repo → Repo → Type 0
Grows r r' = (n : ServiceName) → IsKnown r n → IsKnown r' n

KnowsDeps-mono : (r r' : Repo) (s : Service) → Grows r r' → KnowsDeps r s → KnowsDeps r' s
KnowsDeps-mono r r' s g k = (All-map _ _ g s.start_after k.0, All-map _ _ g s.shutdown_after k.1)

module _ (r r' : Repo) (g : Grows r r') where
  AllValues-mono :
      (m : HashMap ServiceName ServiceHandler)
      → AllValues (λ sh. KnowsDeps r sh.service) m
      → AllValues (λ sh. KnowsDeps r' sh.service) m
  AllValues-mono [] h = tt
  AllValues-mono ((n, sh) ∷ m) h = (KnowsDeps-mono r r' sh.service g h.0, AllValues-mono m h.1)

Touches-IsClosed :
    {ev : Event} {s s' : Supervisor} → Touches ev s s' → IsClosed s.repo → IsClosed s'.repo
Touches-IsClosed {ev} {s} {s'} t c = go t
  where
    g : Grows s.repo s'.repo
    g n (d, e) = let (d', e', _) = Touches-get t n d e in (d', e')

    c' : AllValues (λ sh. KnowsDeps s'.repo sh.service) s.repo.services
    c' = AllValues-mono s.repo s'.repo g s.repo.services c

    go : Touches ev s s' → IsClosed s'.repo
    go (nothing e) =
        subst (AllValues (λ (sh : ServiceHandler). KnowsDeps s'.repo sh.service)) (sym e) c'
    go (one name sh sh' e f ch) =
        subst (AllValues (λ (x : ServiceHandler). KnowsDeps s'.repo x.service)) (sym f) (
          AllValues-insert (λ (x : ServiceHandler). KnowsDeps s'.repo x.service) s.repo.services
            name c'
            (subst (KnowsDeps s'.repo) (sym (Change-service ch)) (
              AllValues-get (λ (x : ServiceHandler). KnowsDeps s'.repo x.service) s.repo.services
                name c' e)))

next_all-entries :
    (now : Instant) (repo : Repo) (life : LifecycleStatus) (m : HashMap ServiceName ServiceHandler)
    → AllValues (λ sh. KnowsDeps repo sh.service) m
    → (evs : List Event) × (try_flat_map (λ entry. next now entry.1 repo life) m ≡ some evs)
next_all-entries now repo life [] h = ([], refl)
next_all-entries now repo life ((n, sh) ∷ m) h =
    let (evs, e) = next_total now sh repo life h.0 in
    let (rest, f) = next_all-entries now repo life m h.1 in
    (evs ++ rest, rw (e, ◌>>=◌) (rw (f, ◌>>=◌)))

next_all_total :
    (now : Instant) (s : Supervisor)
    → IsClosed s.repo
    → (evs : List Event) × (next_all now s ≡ some evs)
unfolding next_all
next_all_total now s c = next_all-entries now s.repo s.status s.repo.services c

-- The services as Repo::new collects them.
abbrev entries : List Service → List (ServiceName × ServiceHandler)
entries = map (λ s. (s.name, of_service s))

IsKnown-extend :
    (services : List Service) (m : HashMap ServiceName ServiceHandler) (n : ServiceName)
    → ((d : ServiceHandler) × (get m n ≡ some d)) ⊎ IsService services n
    → (d : ServiceHandler) × (get (extend m (entries services)) n ≡ some d)
IsKnown-extend [] m n (inl h) = h
IsKnown-extend [] m n (inr (t, i, e)) = elim i [ ]
IsKnown-extend (s ∷ ss) m n h = IsKnown-extend ss (insert m s.name (of_service s)) n (split h)
  where
    old :
        (d : ServiceHandler)
        → get m n ≡ some d
        → (d' : ServiceHandler) × (get (insert m s.name (of_service s)) n ≡ some d')
    old d e = elim (Bool-cases (s.name == n)) [
      | inl p ↦ (of_service s, rw (get-insert m s.name n (of_service s), p))
      | inr p ↦ (d, rw (get-insert m s.name n (of_service s), p) e)
    ]

    new : s.name ≡ n → (d' : ServiceHandler) × (get (insert m s.name (of_service s)) n ≡ some d')
    new e = (of_service s, rw (← e) (get-insert_self m s.name (of_service s)))

    later :
        (t : Service)
        → In t (s ∷ ss)
        → t.name ≡ n
        → ((d : ServiceHandler) × (get (insert m s.name (of_service s)) n ≡ some d))
          ⊎ IsService ss n
    later t here e = inl (new e)
    later t (there i) e = inr (t, i, e)

    split :
        ((d : ServiceHandler) × (get m n ≡ some d)) ⊎ IsService (s ∷ ss) n
        → ((d : ServiceHandler) × (get (insert m s.name (of_service s)) n ≡ some d))
          ⊎ IsService ss n
    split (inl (d, e)) = inl (old d e)
    split (inr (t, i, e)) = later t i e

AllValues-extend :
    (P : ServiceHandler → Type 0) (services : List Service) (m : HashMap ServiceName ServiceHandler)
    → AllValues P m
    → All (λ s. P (of_service s)) services
    → AllValues P (extend m (entries services))
AllValues-extend P [] m h k = h
AllValues-extend P (s ∷ ss) m h k =
    AllValues-extend P ss (insert m s.name (of_service s)) (AllValues-insert P m s.name h k.0) k.1

new_repo-IsClosed :
    (services : List Service) → All (IsWellFormed services) services → IsClosed (new_repo services)
unfolding new_repo
new_repo-IsClosed services w =
    AllValues-extend (λ sh. KnowsDeps (new_repo services) sh.service) services [] tt
      (All-map _ _ knows services w)
  where
    known : (n : ServiceName) → IsService services n → IsKnown (new_repo services) n
    known n i = IsKnown-extend services [] n (inr i)

    knows : (s : Service) → IsWellFormed services s → KnowsDeps (new_repo services) s
    knows s f =
        (All-map _ _ known s.start_after f.start, All-map _ _ known s.shutdown_after f.shutdown)

-- When the services have passed validation, then in every state that the supervisor's loop reaches
-- the next events of all services are computed without a panic: each service that one of them starts
-- after or shuts down after is found.
pub validate-run-next_all :
    (services : List Service) (system : System) (getpid : Pid) (rounds : List Round) (now : Instant)
    {s : Supervisor}
    → validate services ≡ ok services
    → run getpid rounds (new_supervisor services system) ≡ some (going s)
    → (evs : List Event) × (next_all now s ≡ some evs)
validate-run-next_all services system getpid rounds now {s} v h = next_all_total now s (
    run_induction (λ x. IsClosed x.repo)
      (λ host t x ev y evs e c. Touches-IsClosed (handle_event-Touches host t x ev e) c)
      (λ x ev c. c) (λ x b c. c) getpid rounds (new_supervisor services system) h
      (new_repo-IsClosed services ((validate-ok_iff services).0 v)))
