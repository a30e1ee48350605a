-- ===== src/Supervisor/SignalHandling.antt =====
-- horust/src/horust/supervisor/signal_handling.rs. The flag SIGTERM_RECEIVED is a field of `System`.
use horust.Prelude.{Bool, true, String, Option, none, some, List, [], ◌∷◌}
use horust.Prelude.Int.{ℤ, pos}
use horust.Formats.Service.{ServiceName}
use horust.Formats.Signals.{Signal, sigterm, sigint}
use horust.SignalSafe.{Errno}
use horust.Supervisor.Handler.{System}

abbrev pub is_sigterm_received : System → Bool
is_sigterm_received y = y.sigterm_received

-- The handler of both signals.
unfoldable pub handle_sigterm : System → System
handle_sigterm y = record y { sigterm_received = true }

-- The signals that the handler takes after `init`, or its call of panic_ssafe.
pub data Installed : Type 0 where
  handles : List Signal → Installed
  panicked : String → Option ServiceName → Errno → ℤ → Installed

with_sigint : Option Errno → Installed
with_sigint none = handles (sigterm ∷ sigint ∷ [])
with_sigint (some err) = panicked "signal_handling: sigaction() SIGINT failed ." none err (pos 104)

-- init, with the answers of sigaction: `none` is success.
unfoldable pub init : Option Errno → Option Errno → Installed
unfolding with_sigint
init none int = with_sigint int
init (some err) int = panicked "signal_handling: sigaction() SIGTERM failed." none err (pos 103)
