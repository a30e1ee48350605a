-- ===== src/Startup/Threads.antt =====
-- The threads that Horust::run of horust/src/horust/mod.rs starts, before the loop of the bus: the
-- health checker, the handler of commands and the supervisor have joined the bus in this order.
pub mod Announced
use horust.Prelude.{ℕ, Bool, Option, List, map}
use horust.Bus.{Bus, new_bus, join_bus}
use horust.Formats.Service.{Service}
use horust.Formats.Event.{Event}
use horust.Commands.{Services, new_commands_handler}
use horust.Supervisor.Handler.{System, Supervisor, new_supervisor}
use horust.Startup.{Horust}

-- The connector of the handler of commands.
abbrev pub commands_connector : ℕ
commands_connector = 1

pub record Threads : Type 0 where
  pub bus : Bus Event
  pub watched : List Service
  -- the table of the handler of commands, unless its thread has died
  pub commands : Option Services
  pub supervisor : Supervisor

-- Whether the socket of the handler of commands can be bound, and made non-blocking, is given first.
unfoldable pub start_threads : Bool → Bool → Horust → System → Threads
start_threads binds set_nonblocking horust system = record {
  bus = join_bus (join_bus (join_bus new_bus));
  watched = horust.services;
  commands = new_commands_handler binds set_nonblocking (map (λ s. s.name) horust.services);
  supervisor = new_supervisor horust.services system;
}
