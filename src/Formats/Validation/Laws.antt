-- ===== src/Formats/Validation/Laws.antt =====
-- Validation accepts exactly the services that can be run, and otherwise reports each fault.
use horust.Prelude.{◌≡◌, ◌≢◌, ◌↔◌, inl, inr, refl, ap, subst, true, List, [], ◌∷◌, ◌++◌, arith}
use text.Mathlib.TextEquality.{eq_iff}
use horust.Prelude.Tests.{◌==◌, String_eq, Bool-cases, eq_of_beq, beq_ne}
use horust.Prelude.Lists.{
  All, In, here, there, In-append_left, In-append_right, In-flat_map, append-eq_nil,
  append-eq_nil_right, flat_map-eq_nil, flat_map_of_nil, All-map,
}
use horust.Formats.Service.{Service, ServiceName}
use horust.Formats.Validation.{
  ValidationError, missing_dependency, missing_shutdown_dependency, command_empty, ok, err,
  is_service, missing, command_errors, check_service, judge, validate,
}

-- A service of this name is among the services.
abbrev pub IsService : List Service → ServiceName → Type 0
IsService services name = (t : Service) × In t services × (t.name ≡ name)

pub record IsWellFormed (services : List Service) (s : Service) : Type 0 where
  pub runs : s.command ≢ ""
  pub start : All (IsService services) s.start_after
  pub shutdown : All (IsService services) s.shutdown_after

is_service-IsService :
    (services : List Service) (n : ServiceName)
    → is_service services n ≡ true
    → IsService services n
is_service-IsService [] n h = cc
is_service-IsService (s ∷ ss) n h = elim (Bool-cases (s.name == n)) [
  | inl p ↦ (s, here, eq_of_beq p)
  | inr p ↦ let (t, i, e) = is_service-IsService ss n (ground arith) in (t, there i, e)
]

IsService-is_service :
    {t : Service} {services : List Service} → In t services → is_service services t.name ≡ true
IsService-is_service {t} here = ground (arith, eq_iff t.name t.name)
IsService-is_service (there i) = ground (arith, IsService-is_service i)

module _ (error : ServiceName → ServiceName → ValidationError) (services : List Service)
    (s : Service) where
  missing_nil :
      (names : List ServiceName)
      → missing error services s names ≡ []
      → All (IsService services) names
  missing_nil [] e = tt
  missing_nil (n ∷ ns) e = elim (Bool-cases (is_service services n)) [
    | inl p ↦ (is_service-IsService services n p, missing_nil ns (ground arith))
    | inr p ↦ absurd (ground arith)
  ]

  nil_missing :
      (names : List ServiceName)
      → All (IsService services) names
      → missing error services s names ≡ []
  nil_missing [] h = refl
  nil_missing (n ∷ ns) ((t, i, e), h) =
      ground (arith, ap (is_service services) e, IsService-is_service i, nil_missing ns h)

  -- Each name that is not a service's gives an error.
  In-missing :
      {n : ServiceName} {names : List ServiceName}
      → In n names
      → ¬ IsService services n
      → In (error n s.name) (missing error services s names)
  In-missing {n} i absent = In-flat_map _ i (elim (Bool-cases (is_service services n)) [
    | inl p ↦ absurd (absent (is_service-IsService services n p))
    | inr p ↦ rw p here
  ])

judge_nil :
    (services : List Service) (es : List ValidationError)
    → judge services es ≡ ok services
    → es ≡ []
judge_nil services [] h = refl
judge_nil services (e ∷ es) h = cc

judge_err :
    (services : List Service) (es : List ValidationError) {fs : List ValidationError}
    → judge services es ≡ err fs
    → es ≡ fs
judge_err services [] h = cc
judge_err services (e ∷ es) h = cc

module _ (services : List Service) (s : Service) where
  check_service-nil : check_service services s ≡ [] → IsWellFormed services s
  check_service-nil e =
      let start = missing missing_dependency services s s.start_after in
      let shutdown = missing missing_shutdown_dependency services s s.shutdown_after in
      let rest = append-eq_nil_right (command_errors s) (start ++ shutdown) e in
      record {
        runs = λ p.
            ground
              (arith, append-eq_nil (command_errors s) (start ++ shutdown) e, eq_iff s.command "");
        start =
            missing_nil missing_dependency services s s.start_after
              (append-eq_nil start shutdown rest);
        shutdown =
            missing_nil missing_shutdown_dependency services s s.shutdown_after
              (append-eq_nil_right start shutdown rest);
      }

  nil-check_service : IsWellFormed services s → check_service services s ≡ []
  nil-check_service w = rw (
    beq_ne w.runs,
    nil_missing missing_dependency services s s.start_after w.start,
    nil_missing missing_shutdown_dependency services s s.shutdown_after w.shutdown,
  )

-- Validation gives the services back exactly if each has a command and starts and shuts down only
-- after services that are there.
pub validate-ok_iff :
    (services : List Service)
    → (validate services ≡ ok services) ↔ All (IsWellFormed services) services
unfolding validate
validate-ok_iff services = (
  λ h.
      All-map _ _ (check_service-nil services) services
        (flat_map-eq_nil (check_service services) services (judge_nil services _ h)),
  λ w. rw (
      flat_map_of_nil (check_service services) services
        (All-map _ _ (nil-check_service services) services w)),
)

judge-eq-ok :
    (services : List Service) (es : List ValidationError) {kept : List Service}
    → judge services es ≡ ok kept
    → kept ≡ services
judge-eq-ok services [] {kept} h = ground arith
judge-eq-ok services (e ∷ es) {kept} h = absurd (ground arith)

-- Validation leaves the services as they are.
pub validate-eq-ok :
    (services : List Service) {kept : List Service} → validate services ≡ ok kept → kept ≡ services
unfolding validate
validate-eq-ok services h = judge-eq-ok services _ h

In-command_errors : (s : Service) → s.command ≡ "" → In (command_empty s.name) (command_errors s)
In-command_errors s p = rw ((eq_iff s.command "").1 p) here

-- Validation reports every fault of every service at once: each command that is empty, and each
-- dependency, of either kind, that is not a service.
pub validate-err_complete :
    (services : List Service) (es : List ValidationError) (s : Service)
    → validate services ≡ err es
    → In s services
    → (s.command ≡ "" → In (command_empty s.name) es)
      × ((n : ServiceName)
          → In n s.start_after
          → ¬ IsService services n
          → In (missing_dependency n s.name) es)
      × ((n : ServiceName)
          → In n s.shutdown_after
          → ¬ IsService services n
          → In (missing_shutdown_dependency n s.name) es)
unfolding validate
validate-err_complete services es s h i =
    let e = judge_err services _ h in
    let found : (x : ValidationError) → In x (check_service services s) → In x es =
      λ x j. subst (In x) e (In-flat_map (check_service services) i j) in
    (
      λ p. found _ (In-append_left {xs = command_errors s} _ (In-command_errors s p)),
      λ n j absent. found _ (
          In-append_right _ (In-append_left _ (In-missing missing_dependency services s j absent))),
      λ n j absent. found _ (
          In-append_right _
            (In-append_right _ (In-missing missing_shutdown_dependency services s j absent))),
    )
