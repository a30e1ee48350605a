-- ===== src/Supervisor/Spawner/Exec/Args.antt =====
-- What exec_args makes of a service, on every branch.
use horust.Prelude.{
  inl, inr, ◌⊎◌, true, ◌≡◌, ◌≢◌, refl, sym, ap, subst, ◌∙◌, false, String, none, some, List, [],
  ◌∷◌, arith,
}
use horust.Prelude.Lists.{All}
use horust.Formats.Service.{Service, PathBuf}
use horust.Formats.Environment.{Variables}
use horust.Formats.Environment
use horust.Prelude.Tests.{Bool-cases, Option-cases}
use horust.Formats.User.{Users, get_environment, get_name, get_home}
use horust.Healthcheck.Host.{Host, has_slash, first_file, find_program}
use horust.Supervisor.Spawner.Child.{Program}
use horust.Prelude.Outcome.{
  Outcome, ok, err, panic, ◌>>=◌, of_option, bind-eq-ok, of_option-eq-ok, of_option-ne-panic,
  bind-ne-panic, bind-eq-panic,
}
use horust.Supervisor.Spawner.Exec.{has_nul, to_cstring, to_cstrings, first, locate, exec_args}

-- The text can be passed to the system.
abbrev pub HasNoNul : String → Type 0
HasNoNul s = has_nul s ≡ false

to_cstring-eq-ok : (s : String) {c : String} → to_cstring s ≡ ok c → (c ≡ s) × HasNoNul s
to_cstring-eq-ok s {c} h = ground arith

to_cstrings-eq-ok :
    (ss : List String) {cs : List String} → to_cstrings ss ≡ ok cs → (cs ≡ ss) × All HasNoNul ss
to_cstrings-eq-ok [] h = (ground arith, tt)
to_cstrings-eq-ok (s ∷ ss) {cs} h =
    let (c, e, h') = bind-eq-ok (to_cstring s) _ h in
    let (rest, e', h'') = bind-eq-ok (to_cstrings ss) _ h' in
    let (same, no_nul) = to_cstring-eq-ok s e in
    let (same', no_nuls) = to_cstrings-eq-ok ss e' in (ground arith, (no_nul, no_nuls))

-- The program that is run for a service.
pub record Runs (host : Host) (v : Variables) (users : Users) (service : Service) (p : Program)
    : Type 0 where
  pub program_name : String
  pub rest : List String
  pub command : host.split service.command ≡ some (program_name ∷ rest)
  pub args : p.args ≡ program_name ∷ rest
  pub file : locate host program_name ≡ ok p.file
  pub env : get_environment v users service ≡ ok p.env
  pub passable : HasNoNul p.file × All HasNoNul p.args × All HasNoNul p.env

-- The program is to be found, and the first path at which it is one is not Unicode.
abbrev pub IsAtNoUnicode : Host → String → Type 0
IsAtNoUnicode host program_name =
    (has_slash program_name ≡ false)
    × (path_var : String) × (path : PathBuf) × (host.var_os "PATH" ≡ some path_var)
    × (first_file host program_name (host.split_paths path_var) ≡ some path)
    × (host.into_string path ≡ none)

-- Why the thread panics: there is no word, or there is one and the service keeps an environment that
-- is not Unicode, or its program is at a path that is not.
abbrev pub Panics : Host → Variables → Service → Type 0
Panics host v service =
    (host.split service.command ≡ some [])
    ⊎ ((program_name : String) × (rest : List String) × (host.split service.command
          ≡ some (program_name ∷ rest))
        × (((service.environment.keep_env ≡ true) × (v.are_unicode ≡ false))
            ⊎ IsAtNoUnicode host program_name))

-- What each outcome tells of the service.
abbrev pub Tells : Host → Variables → Users → Service → Outcome Program → Type 0
Tells host v users service (ok p) = Runs host v users service p
Tells host v users service err =
    (host.split service.command ≢ some []) × ¬ ((p : Program) × Runs host v users service p)
Tells host v users service panic = Panics host v service

first-eq-ok :
    (xs : List String) {x : String} → first xs ≡ ok x → (rest : List String) × (xs ≡ x ∷ rest)
first-eq-ok [] h = cc
first-eq-ok (y ∷ ys) {x} h = let same : y ≡ x = cc in (ys, ap (λ z. z ∷ ys) same)

-- The steps of exec_args, put together.
module _ (host : Host) (v : Variables) (users : Users) (service : Service) (p : Program)
    (chunks args environment env : List String) (program_name path file : String) where
  steps-Runs :
      host.split service.command ≡ some chunks
      → first chunks ≡ ok program_name
      → to_cstrings chunks ≡ ok args
      → get_environment v users service ≡ ok environment
      → to_cstrings environment ≡ ok env
      → locate host program_name ≡ ok path
      → to_cstring path ≡ ok file
      → ok (record { file = file; args = args; env = env }) ≡ ok p
      → Runs host v users service p
  steps-Runs e₁ e₂ e₃ e₄ e₅ e₆ e₇ h =
      let (rest, split) = first-eq-ok chunks e₂ in
      let (args_same, args_fit) = to_cstrings-eq-ok chunks e₃ in
      let (env_same, env_fit) = to_cstrings-eq-ok environment e₅ in
      let (file_same, file_fit) = to_cstring-eq-ok path e₇ in
      let p_file : p.file ≡ path = ground arith in
      let p_args : p.args ≡ chunks = ground arith in
      let p_env : p.env ≡ environment = ground arith in
      record {
        program_name = program_name;
        rest = rest;
        command = e₁ ∙ ap some split;
        args = p_args ∙ split;
        file = rw p_file e₆;
        env = rw p_env e₄;
        passable = rw (p_file, p_args, p_env) (file_fit, args_fit, env_fit);
      }

exec_args-Runs :
    (host : Host) (v : Variables) (users : Users) (service : Service) {p : Program}
    → exec_args host v users service ≡ ok p
    → Runs host v users service p
unfolding exec_args
exec_args-Runs host v users service {p} h =
    let (chunks, e₁, h₁) = bind-eq-ok (of_option (host.split service.command)) _ h in
    let (program_name, e₂, h₂) = bind-eq-ok (first chunks) _ h₁ in
    let (args, e₃, h₃) = bind-eq-ok (to_cstrings chunks) _ h₂ in
    let (environment, e₄, h₄) = bind-eq-ok (get_environment v users service) _ h₃ in
    let (env, e₅, h₅) = bind-eq-ok (to_cstrings environment) _ h₄ in
    let (path, e₆, h₆) = bind-eq-ok (locate host program_name) _ h₅ in
    let (file, e₇, h₇) = bind-eq-ok (to_cstring path) _ h₆ in
    steps-Runs host v users service p chunks args environment env program_name path file
      (of_option-eq-ok (host.split service.command) e₁) e₂ e₃ e₄ e₅ e₆ e₇ h₇

to_cstrings-ne-panic : (ss : List String) → to_cstrings ss ≢ panic
to_cstrings-ne-panic [] h = cc
to_cstrings-ne-panic (s ∷ ss) h = ground (arith, to_cstrings-ne-panic ss)

to_cstring-ne-panic : (s : String) → to_cstring s ≢ panic
to_cstring-ne-panic s h = ground arith

first-eq-panic : (xs : List String) → first xs ≡ panic → xs ≡ []
first-eq-panic [] h = refl
first-eq-panic (x ∷ xs) h = cc

get_environment-panic :
    (v : Variables) (users : Users) (service : Service)
    → get_environment v users service ≡ panic
    → (service.environment.keep_env ≡ true) × (v.are_unicode ≡ false)
unfolding get_environment Environment.get_environment
get_environment-panic v users service h = elim (Option-cases (get_name users service.user)) [
  | inl e ↦ absurd (ground arith)
  | inr (user_name, e) ↦ elim (Option-cases (get_home users service.user)) [
    | inl f ↦ absurd (ground arith)
    | inr (user_home, f) ↦ ground arith
  ]
]

locate-panic :
    (host : Host) (program_name : String)
    → locate host program_name ≡ panic
    → IsAtNoUnicode host program_name
unfolding find_program
locate-panic host program_name h = elim (Bool-cases (has_slash program_name)) [
  | inl e ↦ absurd (ground arith)
  | inr e ↦ elim (Option-cases (host.var_os "PATH")) [
    | inl f ↦ absurd (ground arith)
    | inr (path_var, f) ↦
        elim (Option-cases (first_file host program_name (host.split_paths path_var))) [
          | inl g ↦ absurd (ground arith)
          | inr (path, g) ↦ elim (Option-cases (host.into_string path)) [
            | inl k ↦ (e, path_var, path, f, g, k)
            | inr (text, k) ↦ absurd (ground arith)
          ]
        ]
  ]
]

-- A panic comes from one of the steps.
exec_args-Panics :
    (host : Host) (v : Variables) (users : Users) (service : Service)
    → exec_args host v users service ≡ panic
    → Panics host v service
unfolding exec_args
exec_args-Panics host v users service h =
    elim (bind-eq-panic (of_option (host.split service.command)) _ h) [
      | inl e ↦ absurd (of_option-ne-panic (host.split service.command) e)
      | inr (chunks, e₁, h₁) ↦
          let split = of_option-eq-ok (host.split service.command) e₁ in
          elim (bind-eq-panic (first chunks) _ h₁) [
            | inl e ↦ inl (split ∙ ap some (first-eq-panic chunks e))
            | inr (program_name, e₂, h₂) ↦
                let (rest, words) = first-eq-ok chunks e₂ in
                inr (program_name, rest, split ∙ ap some words, late chunks program_name h₂)
          ]
    ]
  where
    late :
        (chunks : List String) (program_name : String)
        → ◌≡◌ {A = Outcome Program}
            (to_cstrings chunks >>= λ args. get_environment v users service >>= λ environment.
              to_cstrings environment >>= λ env. locate host program_name >>= λ path.
              to_cstring path >>= λ file. ok (record { file = file; args = args; env = env }))
            panic
        → ((service.environment.keep_env ≡ true) × (v.are_unicode ≡ false))
          ⊎ IsAtNoUnicode host program_name
    late chunks program_name h = elim (bind-eq-panic (to_cstrings chunks) _ h) [
      | inl e ↦ absurd (to_cstrings-ne-panic chunks e)
      | inr (args, e₃, h₃) ↦ elim (bind-eq-panic (get_environment v users service) _ h₃) [
        | inl e ↦ inl (get_environment-panic v users service e)
        | inr (environment, e₄, h₄) ↦ elim (bind-eq-panic (to_cstrings environment) _ h₄) [
          | inl e ↦ absurd (to_cstrings-ne-panic environment e)
          | inr (env, e₅, h₅) ↦ elim (bind-eq-panic (locate host program_name) _ h₅) [
            | inl e ↦ inr (locate-panic host program_name e)
            | inr (path, e₆, h₆) ↦
                absurd
                  (bind-ne-panic (to_cstring path) _ (to_cstring-ne-panic path) (λ file q. cc) h₆)
          ]
        ]
      ]
    ]

pub exec_args-blank :
    (host : Host) (v : Variables) (users : Users) (service : Service)
    → host.split service.command ≡ some []
    → exec_args host v users service ≡ panic
unfolding exec_args
exec_args-blank host v users service e = rw (e, ◌>>=◌) refl

ok-to_cstring : (t : String) → HasNoNul t → to_cstring t ≡ ok t
ok-to_cstring t h = rw h refl

ok-to_cstrings : (ts : List String) → All HasNoNul ts → to_cstrings ts ≡ ok ts
ok-to_cstrings [] h = refl
ok-to_cstrings (t ∷ ts) h = rw (ok-to_cstring t h.0, ok-to_cstrings ts h.1) refl

-- A program that can be run for the service is what comes out.
Runs-exec_args :
    (host : Host) (v : Variables) (users : Users) (service : Service) (p : Program)
    → Runs host v users service p
    → exec_args host v users service ≡ ok p
unfolding exec_args
Runs-exec_args host v users service p r =
    let args_fit : All HasNoNul (r.program_name ∷ r.rest) =
      subst (All HasNoNul) r.args r.passable.1 in
    rw (r.command, ◌>>=◌)
      (rw (ok-to_cstrings (r.program_name ∷ r.rest) args_fit, r.env)
        (rw (ok-to_cstrings p.env r.passable.2, r.file)
          (rw (ok-to_cstring p.file r.passable.0)
            (ap (λ a. ok (record { file = p.file; args = a; env = p.env })) (sym r.args)))))

-- The command of a service is split into words and run with them as they are, its program as it is
-- written if it names a path and else as it is found, with the environment of the service's user, and
-- only if no text has a NUL. There is an error only if nothing can be run so, and there are words or the
-- command cannot be split. A command without words makes the thread panic, and another does so only if
-- the service keeps an environment of which something is not Unicode, or if its program is to be found
-- and the first path at which it is a file is not Unicode.
pub exec_args-Tells :
    (host : Host) (v : Variables) (users : Users) (service : Service)
    → Tells host v users service (exec_args host v users service)
exec_args-Tells host v users service = go (exec_args host v users service) refl
  where
    go : (o : Outcome Program) → exec_args host v users service ≡ o → Tells host v users service o
    go (ok p) e = exec_args-Runs host v users service e
    go err e = (
      λ b.
          let q : ◌≡◌ {A = Outcome Program} err panic =
            sym e ∙ exec_args-blank host v users service b in
          cc,
      λ (p, r).
          let q : ◌≡◌ {A = Outcome Program} err (ok p) =
            sym e ∙ Runs-exec_args host v users service p r in
          cc,
    )
    go panic e = exec_args-Panics host v users service e
