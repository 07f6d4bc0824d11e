-- ===== src/Storage/Idempotency.antt =====
-- src/storage/idempotency_store.py: the memory of requests that became accepted events.
use streaming_system_compass.Base.{Bool, Option, none, some, String, ◌&&◌, str_eq, if◌then◌else◌}
use streaming_system_compass.Base.Dict.{Dict, lookup, insert}
use streaming_system_compass.Decimal.{Decimal, decimal_eq}
use streaming_system_compass.Order.{CommandType, command_eq, OrderEvent}

pub record RequestSignature : Type 0 where
  pub request_id : String
  pub command_type : CommandType
  pub order_id : String
  pub amount : Decimal

-- `==` of the dataclass, field by field. Python takes one NaN object as equal to itself there, which
-- this does not; an amount that is remembered is never a NaN.
unfoldable pub signature_eq : RequestSignature → RequestSignature → Bool
signature_eq a b =
    str_eq a.request_id b.request_id
    && command_eq a.command_type b.command_type
    && str_eq a.order_id b.order_id
    && decimal_eq a.amount b.amount

pub record IdempotencyRecord : Type 0 where
  pub signature : RequestSignature
  pub accepted_event : OrderEvent

pub data IdempotencyVerdict : Type 0 where
  miss replay conflict : IdempotencyVerdict

-- The reason texts of the three decisions are determined by the verdict and left out.
pub record IdempotencyDecision : Type 0 where
  pub verdict : IdempotencyVerdict
  pub prior : Option IdempotencyRecord

-- `records_by_request_id`
abbrev pub IdempotencyProvider : Type 0
IdempotencyProvider = Dict IdempotencyRecord

classify : RequestSignature → Option IdempotencyRecord → IdempotencyDecision
classify signature none = record { verdict = miss; prior = none }
classify signature (some existing) =
    if signature_eq existing.signature signature
    then record { verdict = replay; prior = some existing }
    else record { verdict = conflict; prior = some existing }

-- `IdempotencyProvider.check`
unfoldable pub check : RequestSignature → IdempotencyProvider → IdempotencyDecision
unfolding classify
check signature p = classify signature (lookup signature.request_id p)

-- `IdempotencyProvider.record`
unfoldable pub remember : RequestSignature → OrderEvent → IdempotencyProvider → IdempotencyProvider
remember signature accepted p =
    insert signature.request_id (record { signature = signature; accepted_event = accepted }) p
