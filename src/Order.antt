-- ===== src/Order.antt =====
-- src/core/order: the vocabulary of the order domain, its events and the derived state.
pub mod Contract
pub mod Aggregate
pub mod History
pub mod Candidates
use streaming_system_compass.Base.{
  ℕ, Bool, true, false, Option, none, some, String, ◌≡◌, refl, ◌&&◌, str_eq,
}
use streaming_system_compass.Base.Result.{Result, ok, err, ◌>>=◌}
use streaming_system_compass.Decimal.{Decimal, zero_amount}
use streaming_system_compass.Money.{decimal, normalize_money}
use streaming_system_compass.Failure.{Failure}

-- src/core/order/enums.py
pub data EventType : Type 0 where
  created paid : EventType

pub data OrderStatus : Type 0 where
  init created paid : OrderStatus

pub data CommandType : Type 0 where
  create pay : CommandType

-- `==` on the enumerations
abbrev pub status_eq : OrderStatus → OrderStatus → Bool
status_eq OrderStatus.init OrderStatus.init = true
status_eq OrderStatus.created OrderStatus.created = true
status_eq OrderStatus.paid OrderStatus.paid = true
status_eq _ _ = false

abbrev pub command_eq : CommandType → CommandType → Bool
command_eq CommandType.create CommandType.create = true
command_eq CommandType.pay CommandType.pay = true
command_eq _ _ = false

-- `==` on `Optional[str]`
abbrev pub optional_eq : Option String → Option String → Bool
optional_eq none none = true
optional_eq (some a) (some b) = str_eq a b
optional_eq _ _ = false

-- src/core/order/proofs.py
pub record Proof : Type 0 where
  pub prev_status : OrderStatus
  pub prev_version : ℕ
  pub prev_event_id : Option String

-- src/core/order/events.py
pub record OrderEvent : Type 0 where
  pub event_id : String
  pub request_id : String
  pub order_id : String
  pub sequence : ℕ
  pub event_type : EventType
  pub amount : Decimal
  pub occurred_at_ms : ℕ
  pub proof : Proof

-- What the event factory takes from outside: the new uuid and the clock's reading.
pub record Stamp : Type 0 where
  pub event_id : String
  pub occurred_at_ms : ℕ

-- `OrderEvent.create`
unfoldable pub create_event :
    Stamp → String → String → ℕ → EventType → Decimal → Proof → Result Failure OrderEvent
create_event stamp request_id order_id sequence event_type amount proof = do
  normal ← normalize_money (decimal amount)
  ok (record {
    event_id = stamp.event_id;
    request_id = request_id;
    order_id = order_id;
    sequence = sequence;
    event_type = event_type;
    amount = normal;
    occurred_at_ms = stamp.occurred_at_ms;
    proof = proof;
  })

-- src/core/order/state.py
pub record OrderState : Type 0 where
  pub order_id : String
  pub status : OrderStatus
  pub total_amount : Decimal
  pub paid_amount : Decimal
  pub version : ℕ
