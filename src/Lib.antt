-- ===== src/Lib.antt =====
-- Verification library of Horust, a supervisor for the processes of a system or a container.
--
-- The program. Services are read from files and validated. One thread, the supervisor, holds the
-- services with their states and runs a loop: it takes the events that the bus delivered, handles
-- each, asks each service what comes next, asks the system which processes have ended, and sends the
-- events that result over the bus. Other threads answer: one to spawn a process, one to check the
-- health of the services, one for the commands of horustctl. The program horustctl asks the last one.
--
-- The files.
--   Prelude: tests, lists, texts, integers, maps, errors and panics that all parts share.
--   Formats: the configuration of a service (horust/src/horust/formats/service.rs), its states, the
--     messages of the bus (horust/src/horust/formats/mod.rs), the signals, in Validation the
--     function `validate` with the errors of horust/src/horust/error.rs, and in Environment and
--     User the environment variables of a new process and the user that it runs as, in Text the
--     texts of the settings, and in Limits what the system is told of the limits of a service.
--   Healthcheck: the checks of horust/src/horust/healthcheck/checks.rs, their preparation, in Host
--     what the program asks of the system, and in Workers the thread of the health checker and its
--     workers (horust/src/horust/healthcheck/mod.rs).
--   Bus: the queues between the threads (horust/src/horust/bus.rs).
--   Commands: the handler of the commands of horustctl (horust/src/horust/commands_handler.rs and
--     commands/src/server.rs), in Loop its turns, in Proto the messages
--     (commands/src/proto/messages.rs) and in Client the other side (commands/src/client.rs and
--     commands/src/lib.rs).
--   Horustctl: horustctl/src/main.rs.
--   Startup: the loading of the services (horust/src/horust/mod.rs), in Main the configuration
--     (horust/src/horust/formats/horust_config.rs) and `main` (horust/src/main.rs), and in Threads
--     what Horust::run starts.
--   SignalSafe: what a forked child prints when it fails (horust/src/horust/signal_safe.rs).
--   Supervisor.ServiceHandler and Supervisor.Next: the state machine of one service and the events
--     that move it on (horust/src/horust/supervisor/service_handler.rs). Next.next is `next`.
--   Supervisor.Repo: the services together (horust/src/horust/supervisor/repo.rs).
--   Supervisor.Handler: `Supervisor::handle_event`, one function for each arm of its match, and
--     Supervisor.Loop: `Supervisor::run` (horust/src/horust/supervisor/mod.rs).
--   Supervisor.Reaper: horust/src/horust/supervisor/reaper.rs.
--   Supervisor.SignalHandling: horust/src/horust/supervisor/signal_handling.rs.
--   Supervisor.Spawner: horust/src/horust/supervisor/process_spawner.rs, with Thread the thread of
--     one service, Exec what is run for it, Child the forked child, and Rotation the writer of its
--     log.
--   Supervisor.Examples, Bus.Examples, Formats.Examples, Healthcheck.Examples, Commands.Examples,
--     Startup.Examples, Horustctl.Examples and SignalSafe.Examples: the theorems at concrete
--     inputs. Commands.Wire and Prelude.Unary serve them.
--
-- Conventions. A function keeps its name of the source. A panic (an unwrap on a missing service) is
-- `none`, or `panic` where there is an error too. A HashMap is a list of entries, each key once, in
-- the order of their insertion; what the program computes from its order of iteration is stated for
-- membership only. An i32 and a u32 are kept with their wrap-around. The clock, the file system,
-- the answers of waitpid and the arrival of events on the bus are arguments. The loop runs over a
-- list of rounds, one for each pass of its body, with whether a SIGTERM arrives, so it needs no
-- bound of its own: every theorem about it holds for every list, but that the end of a forced shutdown asks for seven rounds. The
-- writer of a log has one round more than its input has bytes, which is enough as each chunk takes
-- a byte or is the last. Effects on the world (signals, threads started to spawn a process) are
-- recorded in the state, in order.
--
-- A path of the system is a text here, and that it is not Unicode is an answer of the parameter that
-- stands for the conversion (to_str, into_string). A worker of the health checker that panics sends
-- nothing more; that it has died is an argument of the thread that stops it.
--
-- Not modelled: fork and execve themselves and what libcgroups does, the reading of TOML by serde
-- and of the command line by clap, the encoding of the messages by prost (a parameter that is a
-- round trip), a failure to build the HTTP client, the texts of the errors of the start, and the
-- logging.
pub mod Prelude
pub mod Formats
pub mod Healthcheck
pub mod Bus
pub mod SignalSafe
pub mod Commands
pub mod Supervisor
pub mod Startup
pub mod Horustctl
