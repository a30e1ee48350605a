-- ===== src/Supervisor/Spawner/Child/Output.antt =====
-- Where the output of a service goes.
use horust.Prelude.{ℕ, ◌≡◌, refl, ap, ◌∙◌, ◌⊎◌, inl, inr, none, arith}
use horust.Formats.Service.{Service, PathBuf, LogOutput, stderr, stdout, path, pipe}
use horust.Prelude.Int.{pos}
use horust.SignalSafe.{Errno}
use horust.Supervisor.Spawner.Child.{
  Target, appended, pipe_end, Streams, Os, Attempt, done, failed, redirect_output, Program, exec,
  ChildEnd, became, panicked, run_program, with_stderr, with_stdout, child_process_main,
}

-- The two streams that a service asks for, from those that the child inherits: standard output first,
-- and standard error as it is then.
abbrev pub asked_out : LogOutput → Streams → Target
asked_out stdout s = s.out
asked_out stderr s = s.err
asked_out (path p) s = appended p
asked_out (pipe fd) s = pipe_end fd

abbrev pub asked_err : LogOutput → LogOutput → Streams → Target
asked_err stderr out s = s.err
asked_err stdout out s = asked_out out s
asked_err (path p) out s = appended p
asked_err (pipe fd) out s = pipe_end fd

redirect_stdout :
    (os : Os) (o : LogOutput) (s : Streams) {s' : Streams}
    → redirect_output os o stdout s ≡ done s'
    → s' ≡ record s { out = asked_out o s }
unfolding redirect_output
redirect_stdout os stdout s h = ground arith
redirect_stdout os stderr s h = ground arith
redirect_stdout os (path p) s h = ground arith
redirect_stdout os (pipe fd) s h = ground arith

redirect_stderr :
    (os : Os) (o : LogOutput) (before s : Streams) {s' : Streams} (out : LogOutput)
    → s ≡ record before { out = asked_out out before }
    → redirect_output os o stderr s ≡ done s'
    → s' ≡ record s { err = asked_err o out before }
unfolding redirect_output
redirect_stderr os stdout before s out e h = ground arith
redirect_stderr os stderr before s out e h = ground arith
redirect_stderr os (path p) before s out e h = ground arith
redirect_stderr os (pipe fd) before s out e h = ground arith

-- A child that becomes a program.
pub record Became (os : Os) (service : Service) (p : Program) (cwd : PathBuf) (uid : ℕ)
    (s s' : Streams) : Type 0 where
  pub out : s'.out ≡ asked_out service.stdout s
  pub err : s'.err ≡ asked_err service.stderr service.stdout s
  pub entered : os.chdir cwd ≡ none
  pub led : os.setsid ≡ none
  pub user : os.setuid uid ≡ none
  pub started : os.execve p.file p.args p.env ≡ none

exec-calls :
    (os : Os) (p : Program) (uid : ℕ) (cwd : PathBuf)
    → exec os p uid cwd ≡ done tt
    → (os.chdir cwd ≡ none)
      × (os.setsid ≡ none)
      × (os.setuid uid ≡ none)
      × (os.execve p.file p.args p.env ≡ none)
unfolding exec
exec-calls os p uid cwd h = ground arith

-- To split on a chain of calls and keep the equation.
Attempt-cases {ℓ} :
    {A : Type ℓ} (a : Attempt A) → ((x : A) × (a ≡ done x)) ⊎ ((e : Errno) × (a ≡ failed e))
Attempt-cases (done x) = inl (x, refl)
Attempt-cases (failed e) = inr (e, refl)

-- The end of a child, whichever of its calls fail.
abbrev pub EndsWell : Os → Service → Program → PathBuf → ℕ → Streams → ChildEnd → Type 0
EndsWell os service p cwd uid s (became p' uid' cwd' s') =
    (p' ≡ p) × (uid' ≡ uid) × (cwd' ≡ cwd) × Became os service p cwd uid s s'
EndsWell os service p cwd uid s (panicked message name e status s') =
    (name ≡ service.name)
    × (((status ≡ pos 101) × (redirect_output os service.stdout stdout s ≡ failed e) × (s' ≡ s))
        ⊎ ((status ≡ pos 102)
            × (redirect_output os service.stderr stderr s' ≡ failed e)
            × (s'.out ≡ asked_out service.stdout s))
        ⊎ ((status ≡ pos 103) × (exec os p uid cwd ≡ failed e)))

-- A child becomes the program only in the service's directory, as its user and with its streams: the
-- standard output where the service asks for it, then the standard error where it asks for it, with
-- STDOUT meaning where the standard output leads by then. Otherwise it ends with the error of the first
-- call that fails, and with status 101, 102 or 103 for the standard output, the standard error and the
-- program.
pub child_process_main_lem :
    (os : Os) (service : Service) (p : Program) (cwd : PathBuf) (uid : ℕ) (s : Streams)
    → EndsWell os service p cwd uid s (child_process_main os service p cwd uid s)
unfolding child_process_main
child_process_main_lem os service p cwd uid s =
    elim (Attempt-cases (redirect_output os service.stdout stdout s)) [
      | inr (e, f) ↦ rw (f, with_stdout) (refl, inl (refl, f, refl))
      | inl (s₁, f) ↦
          let out = redirect_stdout os service.stdout s f in
          elim (Attempt-cases (redirect_output os service.stderr stderr s₁)) [
            | inr (e, g) ↦
                rw (f, with_stdout)
                  (rw (g, with_stderr) (refl, inr (inl (refl, g, ap (λ (x : Streams). x.out) out))))
            | inl (s₂, g) ↦
                let err = redirect_stderr os service.stderr s s₁ service.stdout out g in
                elim (Attempt-cases (exec os p uid cwd)) [
                  | inr (e, h) ↦
                      rw (f, with_stdout)
                        (rw (g, with_stderr) (rw (h, run_program) (refl, inr (inr (refl, h)))))
                  | inl (u, h) ↦
                      let (a, b, c, d) = exec-calls os p uid cwd h in
                      rw (f, with_stdout)
                        (rw (g, with_stderr)
                          (rw (h, run_program)
                            (
                              refl,
                              refl,
                              refl,
                              record {
                                out =
                                    ap (λ (x : Streams). x.out) err
                                    ∙ ap (λ (x : Streams). x.out) out;
                                err = ap (λ (x : Streams). x.err) err;
                                entered = a;
                                led = b;
                                user = c;
                                started = d;
                              },
                            )))
                ]
          ]
    ]
