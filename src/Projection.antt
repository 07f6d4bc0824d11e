-- ===== src/Projection.antt =====
-- src/pipeline/projection/reducer.py: the pure step from one projected state to the next.
pub mod Worker
pub mod Validator
pub mod Agreement
pub mod ReadModel
pub mod Snapshot
use streaming_system_compass.Base.{
  ℕ, ◌+◌, Bool, true, false, List, [], ◌∷◌, String, not, str_eq, ◌==◌,
}
use streaming_system_compass.Base.Result.{Result, ok, err, ◌>>=◌, ◌>>◌, raise_if}
use streaming_system_compass.Decimal.{decimal_eq, zero_amount}
use streaming_system_compass.Failure.{
  Failure, reduce_order_mismatch, reduce_created_not_init, reduce_paid_not_created,
  reduce_amount_mismatch, reduce_sequence,
}
use streaming_system_compass.Order.{EventType, OrderStatus, status_eq, OrderEvent, OrderState}

-- `build_empty_projection_state`
abbrev pub build_empty_projection_state : String → OrderState
build_empty_projection_state order_id = record {
  order_id = order_id;
  status = OrderStatus.init;
  total_amount = zero_amount;
  paid_amount = zero_amount;
  version = 0;
}

-- The branches of the reducer by event type.
reduce_by_type : EventType → OrderState → OrderEvent → Result Failure OrderState
reduce_by_type EventType.created s e = do
  raise_if (not (status_eq s.status OrderStatus.init)) reduce_created_not_init
  ok (record {
    order_id = s.order_id;
    status = OrderStatus.created;
    total_amount = e.amount;
    paid_amount = zero_amount;
    version = e.sequence;
  })
reduce_by_type EventType.paid s e = do
  raise_if (not (status_eq s.status OrderStatus.created)) reduce_paid_not_created
  raise_if (not (decimal_eq e.amount s.total_amount)) reduce_amount_mismatch
  ok (record {
    order_id = s.order_id;
    status = OrderStatus.paid;
    total_amount = s.total_amount;
    paid_amount = e.amount;
    version = e.sequence;
  })

-- `reduce_order_event`
unfoldable pub reduce_order_event : OrderState → OrderEvent → Result Failure OrderState
unfolding reduce_by_type
reduce_order_event s e = do
  raise_if (not (str_eq e.order_id s.order_id)) reduce_order_mismatch
  raise_if (not (e.sequence == s.version + 1)) (reduce_sequence (s.version + 1) e.sequence)
  reduce_by_type e.event_type s e

-- `for event in accepted_events: expected_state = reduce_order_event(expected_state, event)`
unfoldable pub reduce_all : OrderState → List OrderEvent → Result Failure OrderState
reduce_all s [] = ok s
reduce_all s (e ∷ es) = do s' ← reduce_order_event s e; reduce_all s' es
