-- ===== src/Formats/Text.antt =====
-- The texts of the settings in horust/src/horust/formats/service.rs: the conversions of LogOutput,
-- RestartStrategy and FailureStrategy, and the names of the states. str::to_lowercase is a parameter.
use horust.Prelude.{◌≡◌, ◌≢◌, refl, sym, inl, inr, String}
use horust.Prelude.Tests.{◌==◌, if◌then◌else◌, String_eq, Bool-cases, eq_of_beq, beq_ne}
use horust.Prelude.Int.{ℤ}
use horust.Formats.Status.{
  ServiceStatus, starting, started, running, in_killing, success, finished, finished_failed, failed,
  initial,
}
use horust.Formats.Service.{
  LogOutput, stderr, stdout, path, pipe, RestartStrategy, always, on_failure, never,
  FailureStrategy, shutdown, kill_dependents, ignore,
}

-- From<&str> for LogOutput
unfoldable pub log_output : String → LogOutput
log_output strategy =
    if strategy == "STDOUT" then stdout else if strategy == "STDERR" then stderr else path strategy

-- From<LogOutput> for String, given how a descriptor is written
unfoldable pub log_text : (ℤ → String) → LogOutput → String
log_text show stdout = "STDOUT"
log_text show stderr = "STDERR"
log_text show (path p) = p
log_text show (pipe fd) = show fd

-- From<&str> for RestartStrategy and for FailureStrategy
unfoldable pub restart_strategy : (String → String) → String → RestartStrategy
restart_strategy to_lowercase strategy =
    let s = to_lowercase strategy in
    if s == "always" then always else if s == "on-failure" then on_failure else never

unfoldable pub failure_strategy : (String → String) → String → FailureStrategy
failure_strategy to_lowercase strategy =
    let s = to_lowercase strategy in
    if s == "kill-dependents" then kill_dependents else if s == "kill-all" then shutdown else ignore

-- Display for ServiceStatus
unfoldable pub status_name : ServiceStatus → String
status_name failed = "Failed"
status_name finished = "Finished"
status_name finished_failed = "FinishedFailed"
status_name in_killing = "InKilling"
status_name initial = "Initial"
status_name running = "Running"
status_name started = "Started"
status_name starting = "Starting"
status_name success = "Success"

-- A setting for the output is read and written without a change.
pub log_text-log_output : (show : ℤ → String) (s : String) → log_text show (log_output s) ≡ s
unfolding log_text log_output
log_text-log_output show s = elim (Bool-cases (s == "STDOUT")) [
  | inl e ↦ rw e (sym (eq_of_beq e))
  | inr e ↦ elim (Bool-cases (s == "STDERR")) [
    | inl f ↦ rw (e, f) (sym (eq_of_beq f))
    | inr f ↦ rw (e, f) refl
  ]
]

-- The other way round, a path is read back unless it has the name of a stream.
pub log_output-log_text :
    (show : ℤ → String) (p : String)
    → p ≢ "STDOUT"
    → p ≢ "STDERR"
    → log_output (log_text show (path p)) ≡ path p
unfolding log_text log_output
log_output-log_text show p a b = rw (beq_ne a, beq_ne b) refl
