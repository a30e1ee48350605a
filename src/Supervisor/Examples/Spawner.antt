-- ===== src/Supervisor/Examples/Spawner.antt =====
-- A service of a user is spawned, with its log in chunks of two bytes.
use horust.Prelude.{
  ◌^◌, ℕ, ◌*◌, ◌<◌, ◌≤◌, ◌≡◌, ◌≢◌, refl, true, false, none, some, List, [], ◌∷◌, ◌++◌, map, arith,
}
use horust.Prelude.Tests.{◌==◌, String_eq, if◌then◌else◌}
use horust.Prelude.Lists.{take, drop, All, In}
use horust.Prelude.HashMap.{get}
use horust.Prelude.Int.{pos}
use horust.Prelude.Outcome.{Outcome, ok, err, panic}
use horust.Prelude.Unary.{unary}
use horust.Formats.Status.{starting}
use horust.Formats.Service.{Service, path, PathBuf, nanos_per_sec, default_service}
use horust.Formats.Event.{
  Event, pid_changed, spawn_failed, shutting_down_initiated, ShuttingDown, status_changed,
}
use horust.Formats.Environment.{Variables}
use horust.Formats.User.{Users, Passwd}
use horust.Healthcheck.Host.{Host}
use horust.Supervisor.Spawner.Rotation.{Disk, Files, chunk_name, log_of, chunked_writer}
use horust.Supervisor.Spawner.Rotation.Chunks
use horust.Supervisor.Spawner.Child.{
  Os, Program, Streams, inherited_stdout, inherited_stderr, child_process_main,
}
use horust.Supervisor.Spawner.Child.Output
use horust.Supervisor.Spawner.Child.Output.{EndsWell}
use horust.Supervisor.Spawner.Exec.{Forking, Spawned, exec_args}
use horust.Supervisor.Spawner.Exec.Args
use horust.Supervisor.Spawner.Exec.Args.{Tells}
use horust.Supervisor.Spawner.Thread.{Wake, tick, timeout, sends, dies, spawn_thread}
use horust.Supervisor.Spawner.Thread.Reports

abbrev logged : Service
logged = record (default_service "/srv" 0) {
  name = "logged";
  command = "/bin/echo";
  stdout = path "/var/log/out";
  stdout_rotate_size = 2;
}

-- A disk on which every file can be opened and written.
abbrev disk : Disk
disk = record { opens = λ p. true; copy = λ p bytes. (bytes, true); copy_all = λ p bytes h. refl }

abbrev input : List ℕ
input = 7 ∷ 8 ∷ 9 ∷ []

chunked_writer_lem_example :
    (files' : Files) × (chunked_writer unary disk logged 0 input [] ≡ some (files', true))
    × ((i : ℕ)
        → i * 2 ≤ 3
        → get files' (chunk_name unary (log_of logged 0 "/var/log/out") i)
          ≡ some (take 2 (drop (i * 2) input)))
    × ((p : PathBuf)
        → ((j : ℕ) → chunk_name unary (log_of logged 0 "/var/log/out") j ≢ p)
        → get files' p ≡ get {K = PathBuf} {V = List ℕ} [] p)
chunked_writer_lem_example =
    Chunks.chunked_writer_lem unary disk logged 0 input [] "/var/log/out" (λ p. refl)
      (λ p bytes. refl) refl (omega arith) (omega arith)

-- A system on which all calls succeed.
abbrev os : Os
os = record {
  open_append = λ p. none;
  dup2 = λ t. none;
  chdir = λ p. none;
  setsid = none;
  setuid = λ u. none;
  execve = λ f a e. none;
}

abbrev echo : Program
echo = record { file = "/bin/echo"; args = "/bin/echo" ∷ []; env = [] }

abbrev inherited : Streams
inherited = record { out = inherited_stdout; err = inherited_stderr }

child_process_main_lem_example :
    EndsWell os logged echo "/srv" 0 inherited
      (child_process_main os logged echo "/srv" 0 inherited)
child_process_main_lem_example = Output.child_process_main_lem os logged echo "/srv" 0 inherited

-- shlex::split leaves no words of a blank.
abbrev host : Host
host = record {
  exists = λ p. true;
  is_file = λ p. true;
  join = λ p n. n;
  split_paths = λ s. s ∷ [];
  remove_file = λ p. true;
  var_os = λ n. some "/bin";
  into_string = λ p. some p;
  split = λ s. some (if s == " " then [] else s ∷ []);
  head = λ u. some 200;
  succeeds = λ p a. some true;
}

abbrev variables : Variables
variables = record { vars = []; are_unicode = true; is_hostname_file = false; hostname_file = none }

abbrev root : Passwd
root = record { uid = 0; name = "root"; dir = "/root" }

abbrev users : Users
users = record { from_name = λ n. some (some root); from_uid = λ u. some (some root) }

exec_args-Tells_example : Tells host variables users logged (exec_args host variables users logged)
exec_args-Tells_example = Args.exec_args-Tells host variables users logged

abbrev forking : Forking
forking = record {
  pipe_write = some (pos 5);
  fork = some 42;
  cgroups = record {
    root = "/sys/fs/cgroup";
    join = λ p n. p;
    quota = λ x. pos x;
    creates = λ p n. true;
    builds = λ l. true;
    adds = λ p. true;
    applies = λ ls. true;
  };
}

abbrev quiet : List (List Event)
quiet = [] ∷ (status_changed "db" starting ∷ []) ∷ []

abbrev spawned : Outcome Spawned
spawned =
    ok (record {
      pid = 42;
      program = echo;
      uid = 0;
      child = logged;
      writes_log = true;
      limited = [];
    })

quiet-AreQuiet : All Reports.AreQuiet quiet
quiet-AreQuiet = (tt, ((λ how e. cc, tt), tt))

spawn_thread_lem_example :
    let thread = λ (spawned : Outcome Spawned) (woken : List Wake).
      spawn_thread logged 0 spawned (map tick quiet ++ woken) in
    ((spawned : Outcome Spawned) → 2 ^ 64 * nanos_per_sec ≤ 0 → thread spawned [] ≡ dies)
    × (0 < 2 ^ 64 * nanos_per_sec
        → ((child : Spawned)
            → thread (ok child) (timeout ∷ []) ≡ sends (pid_changed "logged" child.pid))
          × (thread err (timeout ∷ []) ≡ sends (spawn_failed "logged"))
          × (thread panic (timeout ∷ []) ≡ dies)
          × ((spawned : Outcome Spawned) (how : ShuttingDown) (evs : List Event)
              → In (shutting_down_initiated how) evs
              → thread spawned (tick evs ∷ []) ≡ sends (spawn_failed "logged")))
spawn_thread_lem_example = Reports.spawn_thread_lem logged 0 quiet [] quiet-AreQuiet
