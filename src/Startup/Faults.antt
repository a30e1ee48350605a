-- ===== src/Startup/Faults.antt =====
-- Why services are not loaded.
use horust.Prelude.{
  ◌≡◌, ◌↔◌, refl, sym, subst, ◌∙◌, ◌⊎◌, inl, inr, false, none, some, List, [], ◌∷◌, arith,
}
use horust.Prelude.Tests.{◌==◌, eq_of_beq, String_eq, Bool-cases, Option-cases}
use horust.Prelude.Lists.{filter, All, In, In-cons, here, there}
use horust.Prelude.Outcome.{Outcome-cases, Outcome, ok, err, panic, ◌>>=◌}
use horust.Formats.Service.{Service, PathBuf}
use horust.Formats.Validation as Validation
use horust.Formats.Validation.{validate}
use horust.Formats.Validation.Laws.{IsWellFormed, validate-ok_iff}
use horust.Startup.{
  Files, from_file, named, load_service, is_toml_file, keep_loaded, load_all, list_paths,
  fetch_services, load_services_from_folders, Horust, judged, from_services_dirs,
}
use horust.Startup.Loading.{In-filter, IsToml, is_toml_file-IsToml, FromPath, from_services_dirs-In}

-- A path is no file, and no directory that can be read.
abbrev pub IsUnreadable : Files → PathBuf → Type 0
IsUnreadable fs p = (fs.is_file p ≡ false) × (fs.read_dir p ≡ none)

-- The service of a file is to take the name of the file, and that has none, or none that is Unicode.
abbrev pub IsNameless : Files → PathBuf → Type 0
IsNameless fs p =
    ((service : Service) × (from_file fs p ≡ some service) × (service.name ≡ ""))
    × ((fs.file_name p ≡ none) ⊎ ((n : PathBuf) × (fs.file_name p ≡ some n) × (fs.to_str n ≡ none)))

-- Such a file is listed at the path, and its extension ends in toml.
abbrev pub HasNameless : Files → PathBuf → Type 0
HasNameless fs p =
    (paths : List PathBuf) × (file : PathBuf) × (list_paths fs p ≡ ok paths)
    × In file paths
    × IsToml fs file
    × IsNameless fs file

-- What each outcome of a step that reads the given paths tells of them.
abbrev Faults : {A : Type 0} → Files → List PathBuf → Outcome A → Type 0
Faults fs ps (ok a) = Unit {0}
Faults fs ps err = (p : PathBuf) × In p ps × IsUnreadable fs p
Faults fs ps panic = (p : PathBuf) × In p ps × HasNameless fs p

load_service-panic : (fs : Files) (p : PathBuf) → load_service fs p ≡ panic → IsNameless fs p
unfolding load_service named
load_service-panic fs p h = elim (Option-cases (from_file fs p)) [
  | inl f ↦
      let q : ◌≡◌ {A = Outcome Service} err panic = rw (f, ◌>>=◌) at h in absurd (ground arith)
  | inr (service, f) ↦ elim (Bool-cases (service.name == "")) [
    | inr g ↦ absurd (ground arith)
    | inl g ↦ (
      (service, f, eq_of_beq g),
      elim (Option-cases (fs.file_name p)) [
        | inl e ↦ inl e
        | inr (n, e) ↦ elim (Option-cases (fs.to_str n)) [
          | inl e' ↦ inr (n, e, e')
          | inr (filename, e') ↦ absurd (ground arith)
        ]
      ],
    )
  ]
]

-- The files do not load only because of one of them, and never with an error.
abbrev Loaded : Files → List PathBuf → Outcome (List Service) → Type 0
Loaded fs ps (ok services) = Unit {0}
Loaded fs ps err = ⊥
Loaded fs ps panic = (p : PathBuf) × In p ps × IsNameless fs p

Loaded-there :
    (fs : Files) (p : PathBuf) (ps : List PathBuf) (o : Outcome (List Service))
    → Loaded fs ps o
    → Loaded fs (p ∷ ps) o
Loaded-there fs p ps (ok services) h = tt
Loaded-there fs p ps err h = h
Loaded-there fs p ps panic (q, i, k) = (q, there i, k)

keep_loaded-Loaded :
    (fs : Files) (ps : List PathBuf) (o : Outcome Service) (rest : Outcome (List Service))
    → (o ≡ panic → (p : PathBuf) × In p ps × IsNameless fs p)
    → Loaded fs ps rest
    → Loaded fs ps (keep_loaded o rest)
keep_loaded-Loaded fs ps panic rest h k = h refl
keep_loaded-Loaded fs ps err rest h k = k
keep_loaded-Loaded fs ps (ok service) (ok others) h k = tt
keep_loaded-Loaded fs ps (ok service) err h k = k
keep_loaded-Loaded fs ps (ok service) panic h k = k

load_all-Loaded : (fs : Files) (ps : List PathBuf) → Loaded fs ps (load_all fs ps)
load_all-Loaded fs [] = tt
load_all-Loaded fs (p ∷ ps) =
    keep_loaded-Loaded fs (p ∷ ps) (load_service fs p) (load_all fs ps)
      (λ e. (p, here, load_service-panic fs p e))
      (Loaded-there fs p ps (load_all fs ps) (load_all-Loaded fs ps))

-- The faults of two steps in turn.
bind-Faults :
    {A B : Type 0} (fs : Files) (ps : List PathBuf) (m : Outcome A) (f : A → Outcome B)
    → Faults fs ps m
    → ((a : A) → m ≡ ok a → Faults fs ps (f a))
    → Faults fs ps (m >>= f)
bind-Faults fs ps (ok a) f h k = k a refl
bind-Faults fs ps err f h k = h
bind-Faults fs ps panic f h k = h

Faults-mono :
    {A : Type 0} (fs : Files) (ps qs : List PathBuf) (o : Outcome A)
    → ((q : PathBuf) → In q ps → In q qs)
    → Faults fs ps o
    → Faults fs qs o
Faults-mono fs ps qs (ok a) k h = tt
Faults-mono fs ps qs err k (q, i, u) = (q, k q i, u)
Faults-mono fs ps qs panic k (q, i, u) = (q, k q i, u)

list_paths-Faults : (fs : Files) (p : PathBuf) → Faults fs (p ∷ []) (list_paths fs p)
list_paths-Faults fs p = elim (Bool-cases (fs.is_file p)) [
  | inl e ↦ rw e tt
  | inr e ↦ elim (Option-cases (fs.read_dir p)) [
    | inl f ↦ rw (e, f) (p, here, (e, f))
    | inr (entries, f) ↦ rw (e, f) tt
  ]
]

Loaded-Faults :
    (fs : Files) (p : PathBuf) (paths : List PathBuf) (o : Outcome (List Service))
    → list_paths fs p ≡ ok paths
    → Loaded fs (filter (is_toml_file fs) paths) o
    → Faults fs (p ∷ []) o
Loaded-Faults fs p paths (ok services) e h = tt
Loaded-Faults fs p paths err e h = elim h [ ]
Loaded-Faults fs p paths panic e (file, i, k) =
    let (j, t) = (In-filter (is_toml_file fs) file paths).0 i in
    (p, here, (paths, file, e, j, (is_toml_file-IsToml fs file).0 t, k))

fetch_services-Faults : (fs : Files) (p : PathBuf) → Faults fs (p ∷ []) (fetch_services fs p)
unfolding fetch_services
fetch_services-Faults fs p =
    bind-Faults fs (p ∷ []) (list_paths fs p) _ (list_paths-Faults fs p) (λ paths e.
      Loaded-Faults fs p paths (load_all fs (filter (is_toml_file fs) paths)) e
        (load_all-Loaded fs (filter (is_toml_file fs) paths)))

load_services-Faults :
    (fs : Files) (ps : List PathBuf) → Faults fs ps (load_services_from_folders fs ps)
unfolding load_services_from_folders
load_services-Faults fs [] = tt
load_services-Faults fs (p ∷ ps) =
    bind-Faults fs (p ∷ ps) (fetch_services fs p) _
      (Faults-mono fs (p ∷ []) (p ∷ ps) (fetch_services fs p)
        (λ q i. elim (In-cons i) [ inl e ↦ subst (λ r. In q (r ∷ ps)) e here | inr j ↦ elim j [ ] ])
        (fetch_services-Faults fs p))
      (λ services e.
        bind-Faults fs (p ∷ ps) (load_services_from_folders fs ps) _
          (Faults-mono fs ps (p ∷ ps) (load_services_from_folders fs ps) (λ q i. there i)
            (load_services-Faults fs ps))
          (λ others e'. tt))

-- What each outcome of loading tells of the paths.
abbrev pub Tells : Files → List PathBuf → Outcome Horust → Type 0
Tells fs paths (ok horust) =
    ((s : Service) → In s horust.services ↔ FromPath fs paths s)
    × All (IsWellFormed horust.services) horust.services
Tells fs paths err =
    ((p : PathBuf) × In p paths × IsUnreadable fs p)
    ⊎ ((services : List Service) × (load_services_from_folders fs paths ≡ ok services)
        × ¬ All (IsWellFormed services) services)
Tells fs paths panic = (p : PathBuf) × In p paths × HasNameless fs p

invalid :
    (services : List Service) (o : Validation.Result)
    → validate services ≡ o
    → judged o ≡ err
    → ¬ All (IsWellFormed services) services
unfolding judged
invalid services (Validation.ok kept) e h = λ w. absurd (ground arith)
invalid services (Validation.err es) e h =
    λ w. let q = sym e ∙ (validate-ok_iff services).1 w in absurd (ground arith)

judged-panic : (o : Validation.Result) → judged o ≡ panic → ⊥
unfolding judged
judged-panic (Validation.ok kept) h = ground arith
judged-panic (Validation.err es) h = ground arith

-- The services that are run are those of the files whose extension ends in toml, at or in the given
-- paths, that can be loaded, no other and none left out; and each of them has a command and depends only
-- on services that are loaded too. There is an error only if a given path is no file and no directory
-- that can be read, or if the services that were found are not so; and a panic only if among those files
-- is one whose service has no name and that has no file name itself, or none that is Unicode.
pub from_services_dirs-Tells :
    (fs : Files) (paths : List PathBuf) (uds_path : PathBuf)
    → Tells fs paths (from_services_dirs fs paths uds_path)
unfolding from_services_dirs
from_services_dirs-Tells fs paths uds_path =
    elim (Outcome-cases (load_services_from_folders fs paths)) [
      | inr (inl e) ↦
          rw (e, ◌>>=◌) (inl (subst (Faults fs paths) e (load_services-Faults fs paths)))
      | inr (inr e) ↦ rw (e, ◌>>=◌) (subst (Faults fs paths) e (load_services-Faults fs paths))
      | inl (loaded, e) ↦ elim (Outcome-cases (judged (validate loaded))) [
        | inr (inl f) ↦
            rw (e, ◌>>=◌) (rw (f, ◌>>=◌) (inr (loaded, e, invalid loaded (validate loaded) refl f)))
        | inr (inr f) ↦ absurd (judged-panic (validate loaded) f)
        | inl (services, f) ↦
            let h : from_services_dirs fs paths uds_path
                ≡ ok (record { services = services; uds_path = uds_path }) =
              rw (e, ◌>>=◌) (rw (f, ◌>>=◌) refl) in
            rw (e, ◌>>=◌) (rw (f, ◌>>=◌) (from_services_dirs-In fs paths uds_path h))
      ]
    ]
