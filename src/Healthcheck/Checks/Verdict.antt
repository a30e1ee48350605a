-- ===== src/Healthcheck/Checks/Verdict.antt =====
-- What the verdict on the health of a service means, and what its preparation leaves.
use horust.Prelude.{
  ℕ, ◌≤◌, ◌<◌, sym, ◌≡◌, refl, ◌∙◌, subst, ◌↔◌, inl, inr, Bool, true, false, String, Option, none,
  some, List, [], ◌∷◌, arith,
}
use horust.Prelude.Tests.{Option-cases, String_eq}
use horust.Prelude.HashMap.{get}
use horust.Prelude.Panic.{try_all}
use horust.Prelude.Outcome.{ok}
use horust.Formats.Service.{Healthiness, PathBuf}
use horust.Formats.Event.{healthy}
use horust.Healthcheck.Host.{Host}
use horust.Healthcheck.Checks.{
  Parsed, map_or, into_status, is_success, execute, locate, run_check, check_health,
}

-- Whatever is configured holds.
abbrev pub Holds {ℓ} : {A : Type ℓ} → (A → Type 0) → Option A → Type ℓ
Holds {A = A} p o = (a : A) → o ≡ some a → p a

-- The endpoint answers with a status code of the form 2xx.
abbrev pub IsAnswered : Host → String → Type 0
IsAnswered host endpoint =
    (status : ℕ) × (host.head endpoint ≡ some status) × (200 ≤ status) × (status < 300)

-- The command was prepared, and what was prepared can be run and exits with 0.
abbrev pub IsSuccessful : Host → Parsed → String → Type 0
IsSuccessful host parsed command =
    (program : String) × (args : List String) × (get parsed command ≡ some (program ∷ args))
    × (host.succeeds program args ≡ some true)

is_success-IsAnswered :
    (host : Host) (endpoint : String)
    → (is_success (host.head endpoint) ≡ true) ↔ IsAnswered host endpoint
is_success-IsAnswered host endpoint = elim (Option-cases (host.head endpoint)) [
  | inl e ↦ (λ h. absurd (ground arith), λ (status, f, low, high). absurd (ground arith))
  | inr (status, e) ↦
      (λ h. (status, e, ground arith, ground arith), λ (n, f, low, high). rw f (ground arith))
]

execute-IsSuccessful :
    (host : Host) (parsed : Parsed) (command : String) (entry : Option (List String))
    → get parsed command ≡ entry
    → (map_or (some false) (execute host) entry ≡ some true) ↔ IsSuccessful host parsed command
execute-IsSuccessful host parsed command none e =
    (λ h. absurd (ground arith), λ (program, args, f, g). let q = sym e ∙ f in cc)
execute-IsSuccessful host parsed command (some []) e =
    (λ h. cc, λ (program, args, f, g). absurd (ground (arith, sym e ∙ f)))
execute-IsSuccessful host parsed command (some (program ∷ args)) e = (
  λ h. (program, args, e, h),
  λ (p, a, f, g).
      let q : some (program ∷ args) ≡ some (p ∷ a) = sym e ∙ f in
      let same : program ≡ p = ground arith in
      let rest : args ≡ a = ground arith in rw (same, rest) g,
)

map_or-Holds {ℓ} :
    {A : Type ℓ} (p : A → Bool) (P : A → Type 0) (o : Option A)
    → ((a : A) → (p a ≡ true) ↔ P a)
    → (map_or true p o ≡ true) ↔ Holds P o
map_or-Holds p P none each = (λ h a e. cc, λ h. refl)
map_or-Holds p P (some x) each = (
  λ h a e. let same : x ≡ a = ground arith in subst P same ((each x).0 h),
  λ h. (each x).1 (h x refl),
)

try_map_or-Holds {ℓ} :
    {A : Type ℓ} (p : A → Option Bool) (P : A → Type 0) (o : Option A)
    → ((a : A) → (p a ≡ some true) ↔ P a)
    → (map_or (some true) p o ≡ some true) ↔ Holds P o
try_map_or-Holds p P none each = (λ h a e. cc, λ h. refl)
try_map_or-Holds p P (some x) each = (
  λ h a e. let same : x ≡ a = ground arith in subst P same ((each x).0 h),
  λ h. (each x).1 (h x refl),
)

abbrev try_all_of : Bool → Bool → Option Bool → Option Bool
try_all_of a b c = try_all (λ (o : Option Bool). o) (some a ∷ some b ∷ c ∷ [])

-- The three checks, one after the other.
all_three :
    (a b : Bool) (c : Option Bool)
    → (into_status (try_all_of a b c) ≡ some healthy) ↔ ((a ≡ true) × (b ≡ true) × (c ≡ some true))
all_three false b c = (λ h. absurd (ground arith), λ (e, f, g). absurd (ground arith))
all_three true false c = (λ h. absurd (ground arith), λ (e, f, g). absurd (ground arith))
all_three true true none = (λ h. cc, λ (e, f, g). cc)
all_three true true (some true) = (λ h. (refl, refl, refl), λ h. refl)
all_three true true (some false) = (λ h. absurd (ground arith), λ (e, f, g). absurd (ground arith))

-- A service is found healthy exactly if its file is there, its endpoint answers with a status code of
-- the form 2xx, and its command was prepared, can be run and exits with 0, as far as they are configured.
-- If the file and the endpoint pass and the command was prepared but cannot be run, the check panics.
pub check_health_iff :
    (host : Host) (parsed : Parsed) (h : Healthiness)
    → ((check_health host parsed h ≡ some healthy) ↔ (
        Holds (λ file. host.exists file ≡ true) h.file_path
        × Holds (IsAnswered host) h.http_endpoint
        × Holds (IsSuccessful host parsed) h.command))
      × (Holds (λ file. host.exists file ≡ true) h.file_path
          → Holds (IsAnswered host) h.http_endpoint
          → (command program : String) (args : List String) → h.command ≡ some command
          → get parsed command ≡ some (program ∷ args)
          → host.succeeds program args ≡ none
          → check_health host parsed h ≡ none)
unfolding check_health run_check
check_health_iff host parsed h =
    let file =
      map_or-Holds host.exists (λ file. host.exists file ≡ true) h.file_path
        (λ f. (λ e. e, λ e. e)) in
    let http =
      map_or-Holds (λ endpoint. is_success (host.head endpoint)) (IsAnswered host) h.http_endpoint
        (is_success-IsAnswered host) in
    let command =
      try_map_or-Holds (λ command. map_or (some false) (execute host) (get parsed command))
        (IsSuccessful host parsed) h.command
        (λ c. execute-IsSuccessful host parsed c (get parsed c) refl) in
    let (to, from) = all_three _ _ _ in
    (
      (
        λ e. let (a, b, c) = to e in (file.0 a, http.0 b, command.0 c),
        λ (f, e, c). from (file.1 f, http.1 e, command.1 c),
      ),
      λ f e text program args c g k.
          let f' = file.1 f in let e' = http.1 e in rw (f', e') (rw c (rw g (rw k refl))),
    )

-- The command, as it was split and found.
abbrev pub IsPrepared : Host → Parsed → String → Type 0
IsPrepared host parsed command =
    (program : String) × (args : List String) × (path : PathBuf) × (host.split command
      ≡ some (program ∷ args))
    × (locate host program ≡ ok path)
    × (get parsed command ≡ some (path ∷ args))
