-- ===== src/Startup/Main/Exits.antt =====
-- With which code Horust ends.
use horust.Prelude.{
  ◌≡◌, refl, ◌↔◌, ◌⊎◌, inl, inr, Bool, true, false, ◌||◌, String, some, List, subst, ap, ◌∙◌, arith,
}
use horust.Prelude.Tests.{Bool-cases}
use horust.Prelude.Lists.{All}
use horust.Prelude.Outcome.{ok, ◌>>=◌, of_option, bind-eq-ok, of_option-eq-ok}
use horust.Formats.Event.{ExitStatus, some_service_failed, successful}
use horust.Supervisor.Handler.{System, Supervisor, new_supervisor}
use horust.Supervisor.Loop as Loop
use horust.Supervisor.Loop.{Round, ended}
use horust.Supervisor.Repo.Readiness.{IsTerminal}
use horust.Supervisor.Loop.End.{SomeFailed, run-ended}
use horust.Startup.{Files, Horust}
use horust.Startup.Main.{
  HorustConfig, load_and_merge, Opts, Process, Exit, code, set_up, exit_code, after_run,
  after_set_up, main, config_file,
}

-- The flag that lets a failed service be seen in the code: given on the command line, or in a
-- configuration file that is there.
abbrev pub IsAsked : Files → Opts → Type 0
IsAsked fs opts =
    (opts.horust_config.unsuccessful_exit_finished_failed ≡ true)
    ⊎ ((fs.exists opts.config_path ≡ true)
        × (content : String) × (fs.read_to_string opts.config_path ≡ some content)
        × (fs.parse_config content ≡ some true))

-- The code is 101 if the flag is set and a service has failed for good, and else 0.
abbrev pub CodeTells : Files → Opts → Supervisor → Exit → Type 0
CodeTells fs opts s exit =
    ((exit ≡ code 101) ↔ (IsAsked fs opts × SomeFailed s.repo.services))
    × ((exit ≡ code 0) ⊎ (exit ≡ code 101))

parsed-IsAsked :
    (fs : Files) (opts : Opts) {file_flag : Bool} {content : String}
    → fs.exists opts.config_path ≡ true
    → fs.read_to_string opts.config_path ≡ some content
    → fs.parse_config content ≡ some file_flag
    → (opts.horust_config.unsuccessful_exit_finished_failed || file_flag) ≡ true ↔ IsAsked fs opts
parsed-IsAsked fs opts {file_flag} {content} e found parsed = (
  λ set. elim (Bool-cases opts.horust_config.unsuccessful_exit_finished_failed) [
    | inl f ↦ inl f
    | inr f ↦ let g : file_flag ≡ true = ground arith in inr (e, content, found, parsed ∙ ap some g)
  ],
  λ asked. elim asked [
    | inl f ↦ ground arith
    | inr (e', c, found', parsed') ↦
        let same : content ≡ c = cc in let g : some file_flag ≡ some true = cc in ground arith
  ],
)

config_file-IsAsked :
    (fs : Files) (opts : Opts) {file_flag : Bool}
    → config_file fs opts.config_path ≡ ok file_flag
    → (opts.horust_config.unsuccessful_exit_finished_failed || file_flag) ≡ true ↔ IsAsked fs opts
config_file-IsAsked fs opts {file_flag} h = elim (Bool-cases (fs.exists opts.config_path)) [
  | inr e ↦
      let f : file_flag ≡ false = ground (arith, e) in
      (λ set. inl (ground arith), λ asked. ground arith)
  | inl e ↦
      let k : (of_option (fs.read_to_string opts.config_path) >>= λ content.
      of_option (fs.parse_config content))
          ≡ ok file_flag =
        rw e at h in
      let (content, found, parsed) = bind-eq-ok _ _ k in
      let there_ = of_option-eq-ok (fs.read_to_string opts.config_path) found in
      let flag = of_option-eq-ok (fs.parse_config content) parsed in
      parsed-IsAsked fs opts e there_ flag
]

load_and_merge-IsAsked :
    (fs : Files) (opts : Opts) {config : HorustConfig}
    → load_and_merge fs opts.horust_config opts.config_path ≡ ok config
    → config.unsuccessful_exit_finished_failed ≡ true ↔ IsAsked fs opts
unfolding load_and_merge
load_and_merge-IsAsked fs opts {config} h =
    let (file_flag, found, e) = bind-eq-ok (config_file fs opts.config_path) _ h in
    let f : (opts.horust_config.unsuccessful_exit_finished_failed || file_flag)
        ≡ config.unsuccessful_exit_finished_failed =
      ground arith in
    subst (λ b. b ≡ true ↔ IsAsked fs opts) f (config_file-IsAsked fs opts found)

set_up-IsAsked :
    (fs : Files) (p : Process) (opts : Opts) {config : HorustConfig} {horust : Horust}
    → set_up fs p opts ≡ ok (config, horust)
    → config.unsuccessful_exit_finished_failed ≡ true ↔ IsAsked fs opts
unfolding set_up
set_up-IsAsked fs p opts {config} h =
    let (merged, found, e) =
      bind-eq-ok (load_and_merge fs opts.horust_config opts.config_path) _ h in
    let same : merged ≡ config = ground arith in
    load_and_merge-IsAsked fs opts
      (subst (λ c. load_and_merge fs opts.horust_config opts.config_path ≡ ok c) same found)

exit_code-CodeTells :
    (fs : Files) (opts : Opts) (config : HorustConfig) (s : Supervisor) (status : ExitStatus)
    → config.unsuccessful_exit_finished_failed ≡ true ↔ IsAsked fs opts
    → (status ≡ some_service_failed) ↔ SomeFailed s.repo.services
    → CodeTells fs opts s (code (exit_code config status))
exit_code-CodeTells fs opts config s some_service_failed (asked, set) (to, from) =
    elim (Bool-cases config.unsuccessful_exit_finished_failed) [
      | inl e ↦ rw e ((λ h. (asked e, to refl), λ h. refl), inr refl)
      | inr e ↦
          rw e (
            (λ h. absurd (ground arith), λ (f, h). let g = set f in absurd (ground arith)),
            inl refl,
          )
    ]
exit_code-CodeTells fs opts config s successful asked (to, from) =
    ((λ h. absurd (ground arith), λ (f, h). let e = from h in absurd (ground arith)), inl refl)

-- Once Horust is set up and the loop of its supervisor has ended, all its services have finished, and
-- the process ends with 101 if the flag is set, on the command line or in a configuration file that is
-- there, and a service has failed for good, and with 0 otherwise.
pub main-CodeTells :
    (fs : Files) (p : Process) (system : System) (rounds : List Round) (opts : Opts)
    {config : HorustConfig} {horust : Horust} {status : ExitStatus} {s' : Supervisor}
    → opts.sample_service ≡ false
    → set_up fs p opts ≡ ok (config, horust)
    → Loop.run p.getpid rounds (new_supervisor horust.services system) ≡ some (ended status s')
    → All (λ entry. IsTerminal entry.1.status) s'.repo.services
      × CodeTells fs opts s' (main fs p system rounds opts)
unfolding main after_set_up after_run
main-CodeTells fs p system rounds opts {config} {horust} {status} {s'} no_sample ready h =
    let (finished, failed) = run-ended p.getpid rounds (new_supervisor horust.services system) h in
    (
      finished,
      rw ready (
          rw (no_sample, h)
            (exit_code-CodeTells fs opts config s' status (set_up-IsAsked fs p opts ready) failed)),
    )
