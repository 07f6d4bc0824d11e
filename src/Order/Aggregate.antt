-- ===== src/Order/Aggregate.antt =====
-- src/core/order/aggregate.py: the aggregate, its two commands and its one mutation.
pub mod Legality
use streaming_system_compass.Base.{
  ℕ, ◌+◌, Bool, true, false, Option, none, some, List, [], ◌∷◌, String, ◌≡◌, refl, not, str_eq,
  ◌==◌, if◌then◌else◌,
}
use streaming_system_compass.Base.Text.{is_blank}
use streaming_system_compass.Base.Result.{Result, ok, err, ◌>>=◌, ◌>>◌, raise_if}
use streaming_system_compass.Decimal.{Decimal, zero_amount, decimal_eq}
use streaming_system_compass.Money.{MoneyInput, ensure_positive_money}
use streaming_system_compass.Failure.{
  Failure, empty_order_id, empty_request_id, already_created, already_paid, pay_before_create,
  amount_not_total, order_mismatch, sequence_discontinuity,
}
use streaming_system_compass.Order.{
  EventType, OrderStatus, status_eq, Proof, OrderEvent, Stamp, create_event,
}

pub record OrderAggregate : Type 0 where
  pub order_id : String
  pub current_version : ℕ
  pub status : OrderStatus
  pub total_amount : Decimal
  pub paid_amount : Decimal
  pub last_event_id : Option String

-- The aggregate before any event.
abbrev pub fresh : String → OrderAggregate
fresh order_id = record {
  order_id = order_id;
  current_version = 0;
  status = OrderStatus.init;
  total_amount = zero_amount;
  paid_amount = zero_amount;
  last_event_id = none;
}

-- `OrderAggregate(order_id)`
unfoldable pub new_aggregate : String → Result Failure OrderAggregate
new_aggregate order_id = do raise_if (is_blank order_id) empty_order_id; ok (fresh order_id)

-- The predecessor claim that both commands put on the candidate.
abbrev pub claim : OrderAggregate → Proof
claim a = record {
  prev_status = a.status;
  prev_version = a.current_version;
  prev_event_id = a.last_event_id;
}

-- `OrderAggregate.create`
unfoldable pub create : OrderAggregate → Stamp → String → MoneyInput → Result Failure OrderEvent
create a stamp request_id total_amount = do
  raise_if (is_blank request_id) empty_request_id
  normalized ← ensure_positive_money total_amount
  raise_if (not (status_eq a.status OrderStatus.init)) already_created
  create_event stamp request_id a.order_id (a.current_version + 1) EventType.created normalized
      (claim a)

-- `OrderAggregate.pay`
unfoldable pub pay : OrderAggregate → Stamp → String → MoneyInput → Result Failure OrderEvent
pay a stamp request_id payment_amount = do
  raise_if (is_blank request_id) empty_request_id
  normalized ← ensure_positive_money payment_amount
  raise_if (status_eq a.status OrderStatus.paid) already_paid
  raise_if (status_eq a.status OrderStatus.init) pay_before_create
  raise_if (not (decimal_eq normalized a.total_amount)) amount_not_total
  create_event stamp request_id a.order_id (a.current_version + 1) EventType.paid normalized
      (claim a)

-- The assignments of `apply`, by the type of the event.
set_status : EventType → OrderEvent → OrderAggregate → OrderAggregate
set_status EventType.created event a = record a {
  status = OrderStatus.created;
  total_amount = event.amount;
}
set_status EventType.paid event a = record a {
  status = OrderStatus.paid;
  paid_amount = event.amount;
}

-- The state after `apply`, its two guards passed.
unfoldable pub applied : OrderAggregate → OrderEvent → OrderAggregate
unfolding set_status
applied a event = record (set_status event.event_type event a) {
  current_version = event.sequence;
  last_event_id = some event.event_id;
}

-- `OrderAggregate.apply`
unfoldable pub apply : OrderAggregate → OrderEvent → Result Failure OrderAggregate
apply a event = do
  raise_if (not (str_eq event.order_id a.order_id)) order_mismatch
  raise_if (not (event.sequence == a.current_version + 1))
      (sequence_discontinuity (a.current_version + 1) event.sequence)
  ok (applied a event)

-- `for historical_event in history: aggregate.apply(historical_event)`
unfoldable pub replay : OrderAggregate → List OrderEvent → Result Failure OrderAggregate
replay a [] = ok a
replay a (event ∷ history) = do a' ← apply a event; replay a' history
