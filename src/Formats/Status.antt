-- ===== src/Formats/Status.antt =====
-- The states of a service, ServiceStatus of horust/src/horust/formats/service.rs.
use horust.Prelude.{ℕ, ◌≡◌, ◌↔◌, Bool, true, String, arith}
use horust.Prelude.Tests.{Eq, nat_eq}

pub data ServiceStatus : Type 0 where
  starting started running in_killing success finished finished_failed failed initial :
      ServiceStatus

-- impl Display
unfoldable pub fmt : ServiceStatus → String
fmt failed = "Failed"
fmt finished = "Finished"
fmt finished_failed = "FinishedFailed"
fmt in_killing = "InKilling"
fmt initial = "Initial"
fmt running = "Running"
fmt started = "Started"
fmt starting = "Starting"
fmt success = "Success"

-- The derived PartialEq compares the variants.
abbrev variant : ServiceStatus → ℕ
variant starting = 0
variant started = 1
variant running = 2
variant in_killing = 3
variant success = 4
variant finished = 5
variant finished_failed = 6
variant failed = 7
variant initial = 8

abbrev pub status_eq : ServiceStatus → ServiceStatus → Bool
status_eq a b = nat_eq (variant a) (variant b)

pub status_eq_iff : (a b : ServiceStatus) → (status_eq a b ≡ true) ↔ (a ≡ b)
status_eq_iff starting b = ground arith
status_eq_iff _ b = ground arith

instance abbrev pub Status_eq : Eq ServiceStatus
Status_eq = record { beq = status_eq; beq_iff = status_eq_iff }
