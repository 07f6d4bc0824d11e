-- ===== src/Postgres/Rows.antt =====
-- Database rows and the values in them: src/storage/order_event_hydration.py, and the parameters of
-- the INSERT statements of src/storage/postgres_event_store.py and postgres_idempotency_store.py. The
-- JSON columns, which nothing reads back, are left out.
use streaming_system_compass.Base.{ℕ, Option, List, String, str_eq, if◌then◌else◌, ◌≡◌, refl}
use streaming_system_compass.Base.Result.{Result, ok, err, ◌>>=◌}
use streaming_system_compass.Decimal.{Decimal}
use streaming_system_compass.Failure.{Failure, unknown_value}
use streaming_system_compass.Order.{EventType, OrderStatus, CommandType, OrderEvent}

-- `event_type.value`, `status.value`, `command_type.value`
abbrev pub event_type_value : EventType → String
event_type_value EventType.created = "CREATED"
event_type_value EventType.paid = "PAID"

abbrev pub status_value : OrderStatus → String
status_value OrderStatus.init = "INIT"
status_value OrderStatus.created = "CREATED"
status_value OrderStatus.paid = "PAID"

abbrev pub command_value : CommandType → String
command_value CommandType.create = "create"
command_value CommandType.pay = "pay"

-- `EventType(value)`, `OrderStatus(value)`, `CommandType(value)`
unfoldable pub event_type_of : String → Result Failure EventType
event_type_of s =
    if str_eq s "CREATED"
    then ok EventType.created
    else if str_eq s "PAID"
    then ok EventType.paid
    else err unknown_value

unfoldable pub status_of : String → Result Failure OrderStatus
status_of s =
    if str_eq s "INIT"
    then ok OrderStatus.init
    else if str_eq s "CREATED"
    then ok OrderStatus.created
    else if str_eq s "PAID"
    then ok OrderStatus.paid
    else err unknown_value

unfoldable pub command_of : String → Result Failure CommandType
command_of s =
    if str_eq s "create"
    then ok CommandType.create
    else if str_eq s "pay"
    then ok CommandType.pay
    else err unknown_value

-- A row of `order_events`, in the columns of `ORDER_EVENT_SELECT_COLUMNS`.
pub record OrderEventRow : Type 0 where
  pub accepted_event_id : String
  pub order_id : String
  pub sequence : ℕ
  pub event_type : String
  pub request_id : String
  pub amount : Decimal
  pub occurred_at_ms : ℕ
  pub proof_prev_event_id : Option String
  pub proof_prev_version : ℕ
  pub proof_prev_status : String

-- The parameters of the INSERT.
unfoldable pub event_row : OrderEvent → OrderEventRow
event_row e = record {
  accepted_event_id = e.event_id;
  order_id = e.order_id;
  sequence = e.sequence;
  event_type = event_type_value e.event_type;
  request_id = e.request_id;
  amount = e.amount;
  occurred_at_ms = e.occurred_at_ms;
  proof_prev_event_id = e.proof.prev_event_id;
  proof_prev_version = e.proof.prev_version;
  proof_prev_status = status_value e.proof.prev_status;
}

-- `row_to_order_event`
unfoldable pub row_to_order_event : OrderEventRow → Result Failure OrderEvent
unfolding event_type_of status_of
row_to_order_event row = do
  event_type ← event_type_of row.event_type
  prev_status ← status_of row.proof_prev_status
  ok (record {
    event_id = row.accepted_event_id;
    request_id = row.request_id;
    order_id = row.order_id;
    sequence = row.sequence;
    event_type = event_type;
    amount = row.amount;
    occurred_at_ms = row.occurred_at_ms;
    proof = record {
      prev_event_id = row.proof_prev_event_id;
      prev_version = row.proof_prev_version;
      prev_status = prev_status;
    };
  })

-- A row of `idempotency_records`, joined with the row of its accepted event.
pub record IdempotencyRow : Type 0 where
  pub request_id : String
  pub order_id : String
  pub command_type : String
  pub amount : Decimal
  pub fingerprint_version : ℕ
  pub semantic_fingerprint : List ℕ
  pub accepted_event : OrderEventRow

-- The parameters of the INSERT into `idempotency_records`.
pub record IdempotencyInsert : Type 0 where
  pub request_id : String
  pub order_id : String
  pub command_type : String
  pub amount : Decimal
  pub fingerprint_version : ℕ
  pub semantic_fingerprint : List ℕ
  pub accepted_event_id : String
  pub result_sequence : ℕ
  pub status : String

status_of-status_value : (s : OrderStatus) → status_of (status_value s) ≡ ok s
unfolding status_of
status_of-status_value OrderStatus.init = refl
status_of-status_value OrderStatus.created = refl
status_of-status_value OrderStatus.paid = refl

pub event_type_of-event_type_value : (t : EventType) → event_type_of (event_type_value t) ≡ ok t
unfolding event_type_of
event_type_of-event_type_value EventType.created = refl
event_type_of-event_type_value EventType.paid = refl

pub command_of-command_value : (t : CommandType) → command_of (command_value t) ≡ ok t
unfolding command_of
command_of-command_value CommandType.create = refl
command_of-command_value CommandType.pay = refl

-- Whatever the event, the row that is inserted for it hydrates to the same event.
pub row_to_order_event-event_row : (e : OrderEvent) → row_to_order_event (event_row e) ≡ ok e
unfolding row_to_order_event event_row
row_to_order_event-event_row e =
    rw (event_type_of-event_type_value e.event_type, status_of-status_value e.proof.prev_status)
      refl
