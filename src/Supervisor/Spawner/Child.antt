-- ===== src/Supervisor/Spawner/Child.antt =====
-- The forked child: redirect_output, exec and child_process_main of
-- horust/src/horust/supervisor/process_spawner.rs. `Os` says how its system calls answer, `none` for
-- success, and `Streams` to what its descriptors 1 and 2 lead.
pub mod Output
use horust.Prelude.{ℕ, ◌≡◌, Bool, String, Option, none, some, List, [], ◌∷◌}
use horust.Prelude.Int.{ℤ, pos}
use horust.Formats.Service.{Service, ServiceName, PathBuf, LogOutput, stderr, stdout, path, pipe}
use horust.SignalSafe.{Errno}

pub data Target : Type 0 where
  inherited_stdout inherited_stderr : Target
  appended : PathBuf → Target
  pipe_end : ℤ → Target

pub record Streams : Type 0 where
  pub out : Target
  pub err : Target

pub record Os : Type 0 where
  -- open with O_CREAT | O_WRONLY | O_APPEND
  pub open_append : PathBuf → Option Errno
  -- dup2 of a descriptor that leads to the target
  pub dup2 : Target → Option Errno
  pub chdir : PathBuf → Option Errno
  pub setsid : Option Errno
  pub setuid : ℕ → Option Errno
  pub execve : String → List String → List String → Option Errno

-- What becomes of a chain of system calls: the error of the first that fails.
pub data Attempt {ℓ} (A : Type ℓ) : Type ℓ where
  done : A → Attempt A
  failed : Errno → Attempt A

infixl 5 ◌>>=◌
abbrev pub ◌>>=◌ {ℓ κ} : {A : Type ℓ} {B : Type κ} → Attempt A → (A → Attempt B) → Attempt B
done a >>= f = f a
failed e >>= f = failed e

abbrev call : Option Errno → Attempt (Unit {0})
call none = done tt
call (some e) = failed e

-- dup2 onto descriptor 1, and onto descriptor 2
abbrev dup_out : Os → Target → Streams → Attempt Streams
dup_out os t s = do _ ← call (os.dup2 t); done (record s { out = t })

abbrev dup_err : Os → Target → Streams → Attempt Streams
dup_err os t s = do _ ← call (os.dup2 t); done (record s { err = t })

unfoldable pub redirect_output : Os → LogOutput → LogOutput → Streams → Attempt Streams
redirect_output os stdout stderr s = dup_err os s.out s
redirect_output os stderr stdout s = dup_out os s.err s
redirect_output os (pipe fd) stderr s = dup_err os (pipe_end fd) s
redirect_output os (pipe fd) stdout s = dup_out os (pipe_end fd) s
redirect_output os (path p) stdout s = do _ ← call (os.open_append p); dup_out os (appended p) s
redirect_output os (path p) stderr s = do _ ← call (os.open_append p); dup_err os (appended p) s
redirect_output os _ _ s = done s

-- A program with its arguments and environment.
pub record Program : Type 0 where
  pub file : String
  pub args : List String
  pub env : List String

-- The calls before execve, in their order.
unfoldable pub exec : Os → Program → ℕ → PathBuf → Attempt (Unit {0})
exec os p uid cwd = do
  _ ← call (os.chdir cwd)
  _ ← call os.setsid
  _ ← call (os.setuid uid)
  call (os.execve p.file p.args p.env)

-- The child becomes the program, in a directory and for a user, or it calls panic_ssafe.
pub data ChildEnd : Type 0 where
  became : Program → ℕ → PathBuf → Streams → ChildEnd
  panicked : String → ServiceName → Errno → ℤ → Streams → ChildEnd

run_program : Os → Service → Program → ℕ → PathBuf → Streams → Attempt (Unit {0}) → ChildEnd
run_program os service p uid cwd s (done _) = became p uid cwd s
run_program os service p uid cwd s (failed e) =
    panicked "child_process_main: Failed to exec the new process." service.name e (pos 103) s

with_stderr : Os → Service → Program → ℕ → PathBuf → Streams → Attempt Streams → ChildEnd
unfolding run_program
with_stderr os service p uid cwd before (failed e) =
    panicked "child_process_main: Redirect stderr failed." service.name e (pos 102) before
with_stderr os service p uid cwd before (done s) =
    run_program os service p uid cwd s (exec os p uid cwd)

with_stdout : Os → Service → Program → ℕ → PathBuf → Streams → Attempt Streams → ChildEnd
unfolding with_stderr
with_stdout os service p uid cwd before (failed e) =
    panicked "child_process_main: Redirect stdout failed." service.name e (pos 101) before
with_stdout os service p uid cwd before (done s) =
    with_stderr os service p uid cwd s (redirect_output os service.stderr stderr s)

unfoldable pub child_process_main : Os → Service → Program → PathBuf → ℕ → Streams → ChildEnd
unfolding with_stdout
child_process_main os service p cwd uid s =
    with_stdout os service p uid cwd s (redirect_output os service.stdout stdout s)
