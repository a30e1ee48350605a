-- ===== src/Bus.antt =====
-- The bus, horust/src/horust/bus.rs: one queue into it, and one queue to each connector. The channels
-- are those of crossbeam, unbounded and in order. A connector is named by the number under which it
-- joined, and its queue stands in `senders` with whether the receiver at its other end still exists.
pub mod Order
mod Examples
use horust.Prelude.{
  ℕ, ◌+◌, ◌≡◌, refl, Bool, true, false, ◌&&◌, Option, none, some, List, [], ◌∷◌, ◌++◌,
}
use horust.Prelude.Tests.{nat_eq, if◌then◌else◌}

pub record BusConnector {ℓ} (T : Type ℓ) : Type ℓ where
  pub id : ℕ
  pub connected : Bool
  pub queue : List T

pub record Bus {ℓ} (T : Type ℓ) : Type ℓ where
  pub input : List T
  pub senders : List (BusConnector T)
  pub joined : ℕ

module _ {ℓ} {T : Type ℓ} where
  -- Bus::default
  abbrev pub new_bus : Bus T
  new_bus = record { input = []; senders = []; joined = 0 }

  -- SharedState::join_bus: the new connector has the number `b.joined`.
  unfoldable pub join_bus : Bus T → Bus T
  join_bus b = record b {
    senders = b.senders ++ record { id = b.joined; connected = true; queue = [] } ∷ [];
    joined = b.joined + 1;
  }

  -- BusConnector::send_event
  unfoldable pub send_event : T → Bus T → Bus T
  send_event ev b = record b { input = b.input ++ ev ∷ [] }

  -- `senders.retain(|sender| sender.send(ev.clone()).is_ok())`
  unfoldable pub retain_sent : T → List (BusConnector T) → List (BusConnector T)
  retain_sent ev [] = []
  retain_sent ev (c ∷ cs) =
      let rest = retain_sent ev cs in
      if c.connected then record c { queue = c.queue ++ ev ∷ [] } ∷ rest else rest

  -- One turn of the loop of Bus::dispatch, which waits while the input is empty.
  unfoldable pub dispatch : Bus T → Bus T
  dispatch b = elim b.input [
    | [] ↦ b
    | ev ∷ rest ↦ record b { input = rest; senders = retain_sent ev b.senders }
  ]

  abbrev pub is_connector : ℕ → BusConnector T → Bool
  is_connector n c = nat_eq c.id n && c.connected

  -- What a connector that is still there has yet to read.
  unfoldable pub queue_of : ℕ → List (BusConnector T) → Option (List T)
  queue_of n [] = none
  queue_of n (c ∷ cs) = if is_connector n c then some c.queue else queue_of n cs

  -- A change of one connector.
  unfoldable pub update :
      ℕ → (BusConnector T → BusConnector T) → List (BusConnector T) → List (BusConnector T)
  update n f [] = []
  update n f (c ∷ cs) = if is_connector n c then f c ∷ cs else c ∷ update n f cs

  abbrev pub unwrap_queue : Option (List T) → List T
  unwrap_queue none = []
  unwrap_queue (some q) = q

  -- BusConnector::try_get_events: the events, and the bus after it
  unfoldable pub try_get_events : ℕ → Bus T → List T × Bus T
  try_get_events n b = (
    unwrap_queue (queue_of n b.senders),
    record b { senders = update n (λ c. record c { queue = [] }) b.senders },
  )

  -- The end of a connector; its queue is cleared away when the next event is dispatched.
  unfoldable pub disconnect : ℕ → Bus T → Bus T
  disconnect n b = record b { senders = update n (λ c. record c { connected = false }) b.senders }

-- What the threads of the program do with the bus, one after the other.
pub data Step {ℓ} (T : Type ℓ) : Type ℓ where
  join : Step T
  send : T → Step T
  turn : Step T
  receive : ℕ → Step T
  leave : ℕ → Step T

module _ {ℓ} {T : Type ℓ} where
  -- A step, with what it gives to the connector.
  unfoldable pub step : ℕ → Step T → Bus T → List T × Bus T
  step n join b = ([], join_bus b)
  step n (send ev) b = ([], send_event ev b)
  step n turn b = ([], dispatch b)
  step n (receive m) b = let (evs, b') = try_get_events m b in (if nat_eq m n then evs else [], b')
  step n (leave m) b = ([], disconnect m b)

  -- What the connector receives during the steps, in order, and the bus at their end.
  unfoldable pub steps : ℕ → List (Step T) → Bus T → List T × Bus T
  steps n [] b = ([], b)
  steps n (s ∷ ss) b =
      let (evs, b') = step n s b in let (rest, b'') = steps n ss b' in (evs ++ rest, b'')
