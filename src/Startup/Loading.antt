-- ===== src/Startup/Loading.antt =====
-- Which services are loaded.
use horust.Prelude.{
  ◌≡◌, ◌↔◌, sym, ap, ◌∙◌, subst, ◌⊎◌, inl, inr, Bool, true, false, ◌&&◌, String, none, some, List,
  [], ◌∷◌, ◌++◌, arith,
}
use horust.Prelude.Tests.{Bool-cases, Option-cases}
use horust.Prelude.Strings.{◌⊕◌, ends_with-append, ends_with-eq-true}
use horust.Prelude.Lists.{
  filter, All, In, here, there, In-cons, In-append, In-append_left, In-append_right,
}
use horust.Prelude.Outcome.{Outcome, ok, err, panic, bind-eq-ok}
use horust.Formats.Service.{Service, PathBuf}
use horust.Formats.Validation as Validation
use horust.Formats.Validation.{validate}
use horust.Formats.Validation.Laws.{IsWellFormed, validate-ok_iff, validate-eq-ok}
use horust.Startup.{
  Files, load_service, is_toml_file, keep_loaded, load_all, list_paths, fetch_services,
  load_services_from_folders, Horust, judged, from_services_dirs,
}

pub In-filter {ℓ} :
    {A : Type ℓ} (p : A → Bool) (a : A) (xs : List A)
    → In a (filter p xs) ↔ (In a xs × (p a ≡ true))
In-filter p a [] = (λ i. elim i [ ], λ (i, h). elim i [ ])
In-filter p a (x ∷ xs) = elim (Bool-cases (p x)) [
  | inl e ↦ (
    λ i. elim (In-cons (rw e at i)) [
      | inl q ↦ (subst (λ y. In a (y ∷ xs)) q here, rw q e)
      | inr j ↦ let (k, h) = (In-filter p a xs).0 j in (there k, h)
    ],
    λ (i, h). rw e (elim (In-cons i) [
      | inl q ↦ subst (λ y. In a (y ∷ filter p xs)) q here
      | inr j ↦ there ((In-filter p a xs).1 (j, h))
    ]),
  )
  | inr e ↦ (
    λ i. let (k, h) = (In-filter p a xs).0 (rw e at i) in (there k, h),
    λ (i, h). rw e (elim (In-cons i) [
      | inl q ↦ let same : p a ≡ false = rw q e in absurd (ground arith)
      | inr j ↦ (In-filter p a xs).1 (j, h)
    ]),
  )
]

-- A service comes from a file of the list.
abbrev FromFile : Files → List PathBuf → Service → Type 0
FromFile fs ps s = (p : PathBuf) × In p ps × (load_service fs p ≡ ok s)

keep_loaded-In :
    (o : Outcome Service) (rest : Outcome (List Service)) (s : Service) {services : List Service}
    → keep_loaded o rest ≡ ok services
    → (others : List Service) × (rest ≡ ok others) × (In s services ↔ ((o ≡ ok s) ⊎ In s others))
keep_loaded-In panic rest s h = cc
keep_loaded-In err rest s {services} h =
    (services, h, (λ i. inr i, λ c. elim c [ inl e ↦ absurd (err≢ok e) | inr i ↦ i ]))
  where
    err≢ok : ◌≡◌ {A = Outcome Service} err (ok s) → ⊥
    err≢ok e = cc
keep_loaded-In (ok t) rest s {services} h =
    let (others, e, h') = bind-eq-ok rest _ h in
    let same : t ∷ others ≡ services = ground arith in
    (
      others,
      e,
      subst (λ xs. In s xs ↔ ((ok t ≡ ok s) ⊎ In s others)) same
          (
            λ i. elim (In-cons i) [ inl q ↦ inl (ap ok (sym q)) | inr j ↦ inr j ],
            λ c. elim c [
              | inl q ↦
                  let t_s : t ≡ s = ground arith in subst (λ x. In s (x ∷ others)) (sym t_s) here
              | inr j ↦ there j
            ],
          ),
    )

-- What loads are the services of the files that can be loaded.
load_all-In :
    (fs : Files) (ps : List PathBuf) (s : Service) {services : List Service}
    → load_all fs ps ≡ ok services
    → In s services ↔ FromFile fs ps s
load_all-In fs [] s {services} h =
    let none_left : [] ≡ services = ground arith in
    subst (λ xs. In s xs ↔ FromFile fs [] s) none_left (λ i. elim i [ ], λ (p, i, e). elim i [ ])
load_all-In fs (p ∷ ps) s {services} h =
    let (others, e, (to, from)) = keep_loaded-In (load_service fs p) (load_all fs ps) s h in
    let (to', from') = load_all-In fs ps s e in
    (
      λ i. elim (to i) [ inl q ↦ (p, here, q) | inr j ↦ let (q, k, l) = to' j in (q, there k, l) ],
      λ (q, i, l). elim (In-cons i) [
        | inl same ↦ from (inl (rw (← same) l))
        | inr j ↦ from (inr (from' (q, j, l)))
      ],
    )

-- It is a file, and its extension ends in toml.
abbrev pub IsToml : Files → PathBuf → Type 0
IsToml fs file =
    (fs.is_file file ≡ true) × (stem : String) × (fs.extension file ≡ some (stem ⊕ "toml"))

pub is_toml_file-IsToml :
    (fs : Files) (file : PathBuf) → (is_toml_file fs file ≡ true) ↔ IsToml fs file
unfolding is_toml_file
is_toml_file-IsToml fs file = elim (Option-cases (fs.extension file)) [
  | inl e ↦ (
    λ h. let q : (fs.is_file file && false) ≡ true = rw e at h in absurd (ground arith),
    λ (f, stem, g). let q : none ≡ some (stem ⊕ "toml") = sym e ∙ g in cc,
  )
  | inr (extension, e) ↦ (
    λ h.
        let (stem, f) = ends_with-eq-true extension "toml" (ground arith) in
        (ground arith, stem, e ∙ ap some f),
    λ (f, stem, g). let h = ends_with-append stem "toml" in rw (f, g) h,
  )
]

-- A service that is loaded from a path: a file that the path stands for, whose extension ends in toml and
-- that loads.
pub record Loads (fs : Files) (path : PathBuf) (s : Service) : Type 0 where
  pub paths : List PathBuf
  pub file : PathBuf
  pub listed : list_paths fs path ≡ ok paths
  pub member : In file paths
  pub toml : IsToml fs file
  pub loads : load_service fs file ≡ ok s

fetch_services-In :
    (fs : Files) (path : PathBuf) (s : Service) {services : List Service}
    → fetch_services fs path ≡ ok services
    → In s services ↔ Loads fs path s
unfolding fetch_services
fetch_services-In fs path s h =
    let (paths, e, h') =
      bind-eq-ok (list_paths fs path) (λ paths. load_all fs (filter (is_toml_file fs) paths)) h in
    let (to, from) = load_all-In fs (filter (is_toml_file fs) paths) s h' in
    (
      λ i.
          let (file, k, l) = to i in
          let (m, t) = (In-filter (is_toml_file fs) file paths).0 k in
          record {
            paths = paths;
            file = file;
            listed = e;
            member = m;
            toml = (is_toml_file-IsToml fs file).0 t;
            loads = l;
          },
      λ w.
          let same : w.paths ≡ paths = let q : ok w.paths ≡ ok paths = sym w.listed ∙ e in cc in
          from (
            w.file,
            (In-filter (is_toml_file fs) w.file paths).1
                (rw (← same) w.member, (is_toml_file-IsToml fs w.file).1 w.toml),
            w.loads,
          ),
    )

-- The paths from which a service is loaded.
abbrev pub FromPath : Files → List PathBuf → Service → Type 0
FromPath fs ps s = (p : PathBuf) × In p ps × Loads fs p s

load_services-In :
    (fs : Files) (ps : List PathBuf) (s : Service) {services : List Service}
    → load_services_from_folders fs ps ≡ ok services
    → In s services ↔ FromPath fs ps s
unfolding load_services_from_folders
load_services-In fs [] s {services} h =
    let none_left : [] ≡ services = ground arith in
    subst (λ xs. In s xs ↔ FromPath fs [] s) none_left (λ i. elim i [ ], λ (p, i, e). elim i [ ])
load_services-In fs (p ∷ ps) s {services} h =
    let (first, e, h₁) = bind-eq-ok (fetch_services fs p) _ h in
    let (others, e', h₂) = bind-eq-ok (load_services_from_folders fs ps) _ h₁ in
    let same : first ++ others ≡ services = ground arith in
    let (to, from) = fetch_services-In fs p s e in
    let (to', from') = load_services-In fs ps s e' in
    subst (λ xs. In s xs ↔ FromPath fs (p ∷ ps) s) same
      (
        λ i. elim (In-append first others i) [
          | inl j ↦ (p, here, to j)
          | inr j ↦ let (q, k, l) = to' j in (q, there k, l)
        ],
        λ (q, i, l). elim (In-cons i) [
          | inl r ↦ In-append_left others (from (rw (← r) l))
          | inr j ↦ In-append_right first (from' (q, j, l))
        ],
      )

judged-eq-ok :
    (o : Validation.Result) {kept : List Service} → judged o ≡ ok kept → o ≡ Validation.ok kept
unfolding judged
judged-eq-ok (Validation.ok xs) {kept} h =
    let same : xs ≡ kept = ground arith in ap Validation.ok same
judged-eq-ok (Validation.err es) h = absurd (ground arith)

-- When the loading succeeds, the services are exactly those that load from the paths, and well formed.
pub from_services_dirs-In :
    (fs : Files) (paths : List PathBuf) (uds_path : PathBuf) {horust : Horust}
    → from_services_dirs fs paths uds_path ≡ ok horust
    → ((s : Service) → In s horust.services ↔ FromPath fs paths s)
      × All (IsWellFormed horust.services) horust.services
unfolding from_services_dirs
from_services_dirs-In fs paths uds_path {horust} h =
    let (loaded, e, h₁) = bind-eq-ok (load_services_from_folders fs paths) _ h in
    let (services, e', h₂) = bind-eq-ok (judged (validate loaded)) _ h₁ in
    let valid : validate loaded ≡ Validation.ok services = judged-eq-ok (validate loaded) e' in
    let kept : services ≡ loaded = validate-eq-ok loaded valid in
    let same : services ≡ horust.services = ground arith in
    subst (λ xs. ((s : Service) → In s xs ↔ FromPath fs paths s) × All (IsWellFormed xs) xs)
      (sym kept ∙ same)
      (
        λ s. load_services-In fs paths s e,
        (validate-ok_iff loaded).0 (valid ∙ ap Validation.ok kept),
      )
