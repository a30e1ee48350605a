-- ===== src/Commands/Proto.antt =====
-- The messages between horustctl and Horust, as commands/src/proto/messages.rs has them. The field of an
-- enumeration is an `i32`. A message whose fields are all unset is `none`.
use horust.Prelude.{◌≡◌, refl, String, Option, none, some}
use horust.Prelude.Tests.{◌==◌, if◌then◌else◌, String_eq}
use horust.Prelude.Int.{ℤ, pos, Int_eq}
use horust.Formats.Service.{ServiceName}

pub data HorustMsgServiceStatus : Type 0 where
  starting started running inkilling success finished finishedfailed failed initial :
      HorustMsgServiceStatus

-- `status as i32`
abbrev pub to_i32 : HorustMsgServiceStatus → ℤ
to_i32 starting = pos 0
to_i32 started = pos 1
to_i32 running = pos 2
to_i32 inkilling = pos 3
to_i32 success = pos 4
to_i32 finished = pos 5
to_i32 finishedfailed = pos 6
to_i32 failed = pos 7
to_i32 initial = pos 8

-- The conversion back, HorustMsgServiceStatus::try_from.
unfoldable pub try_from : ℤ → Option HorustMsgServiceStatus
try_from i =
    if i == pos 0
    then some starting
    else if i == pos 1
    then some started
    else if i == pos 2
    then some running
    else if i == pos 3
    then some inkilling
    else if i == pos 4
    then some success
    else if i == pos 5
    then some finished
    else if i == pos 6
    then some finishedfailed
    else if i == pos 7
    then some failed
    else if i == pos 8
    then some initial
    else none

unfoldable pub as_str_name : HorustMsgServiceStatus → String
as_str_name starting = "STARTING"
as_str_name started = "STARTED"
as_str_name running = "RUNNING"
as_str_name inkilling = "INKILLING"
as_str_name success = "SUCCESS"
as_str_name finished = "FINISHED"
as_str_name finishedfailed = "FINISHEDFAILED"
as_str_name failed = "FAILED"
as_str_name initial = "INITIAL"

unfoldable pub from_str_name : String → Option HorustMsgServiceStatus
from_str_name value =
    if value == "STARTING"
    then some starting
    else if value == "STARTED"
    then some started
    else if value == "RUNNING"
    then some running
    else if value == "INKILLING"
    then some inkilling
    else if value == "SUCCESS"
    then some success
    else if value == "FINISHED"
    then some finished
    else if value == "FINISHEDFAILED"
    then some finishedfailed
    else if value == "FAILED"
    then some failed
    else if value == "INITIAL"
    then some initial
    else none

pub data Request : Type 0 where
  status_request : ServiceName → Request
  change_request : ServiceName → ℤ → Request

pub data Response : Type 0 where
  status_response : ServiceName → ℤ → Response
  error : String → Response

pub data MessageType : Type 0 where
  request : Option Request → MessageType
  response : Option Response → MessageType

-- HorustMsgMessage
abbrev pub Message : Type 0
Message = Option MessageType

-- A status is read back as it was written, as a number and as a name.
pub try_from-to_i32 :
    (status : HorustMsgServiceStatus)
    → (try_from (to_i32 status) ≡ some status) × (from_str_name (as_str_name status) ≡ some status)
unfolding try_from as_str_name from_str_name
try_from-to_i32 starting = (refl, refl)
try_from-to_i32 started = (refl, refl)
try_from-to_i32 running = (refl, refl)
try_from-to_i32 inkilling = (refl, refl)
try_from-to_i32 success = (refl, refl)
try_from-to_i32 finished = (refl, refl)
try_from-to_i32 finishedfailed = (refl, refl)
try_from-to_i32 failed = (refl, refl)
try_from-to_i32 initial = (refl, refl)
