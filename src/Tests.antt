-- ===== src/Tests.antt =====
-- Sample data and the runs that the examples share: one order that is created and paid through
-- src/pipeline/transactional/registry.py.
pub mod Runs
pub mod Writes
pub mod Reads
pub mod Parts
pub mod Outcomes
pub mod Postgres
pub mod Governance
pub mod Replays
pub mod Snapshots
use streaming_system_compass.Base.{List, [], ◌∷◌, none, some, false, ◌≡◌, refl}
use streaming_system_compass.Base.Result.{ok}
use streaming_system_compass.Base.Dict
use streaming_system_compass.Decimal.{Decimal, cents}
use streaming_system_compass.Order.{OrderEvent, Stamp, EventType, OrderStatus, CommandType}
use streaming_system_compass.Transition.{strict}
use streaming_system_compass.Transition.Runtime.{ValidationRuntime, default_runtime}
use streaming_system_compass.Storage.Idempotency.{RequestSignature}

abbrev pub ten_euros : Decimal
ten_euros = cents false 1000

abbrev pub create_stamp : Stamp
create_stamp = record { event_id = "e1"; occurred_at_ms = 5 }

abbrev pub pay_stamp : Stamp
pay_stamp = record { event_id = "e2"; occurred_at_ms = 9 }

abbrev pub create_request : RequestSignature
create_request = record {
  request_id = "r1";
  command_type = CommandType.create;
  order_id = "o1";
  amount = ten_euros;
}

abbrev pub pay_request : RequestSignature
pay_request = record {
  request_id = "r2";
  command_type = CommandType.pay;
  order_id = "o1";
  amount = ten_euros;
}

abbrev pub created_event : OrderEvent
created_event = record {
  event_id = "e1";
  request_id = "r1";
  order_id = "o1";
  sequence = 1;
  event_type = EventType.created;
  amount = ten_euros;
  occurred_at_ms = 5;
  proof = record { prev_status = OrderStatus.init; prev_version = 0; prev_event_id = none };
}

abbrev pub paid_event : OrderEvent
paid_event = record {
  event_id = "e2";
  request_id = "r2";
  order_id = "o1";
  sequence = 2;
  event_type = EventType.paid;
  amount = ten_euros;
  occurred_at_ms = 9;
  proof = record { prev_status = OrderStatus.created; prev_version = 1; prev_event_id = some "e1" };
}

abbrev pub strict_runtime : ValidationRuntime
strict_runtime = default_runtime strict

abbrev pub requests : List (Stamp × RequestSignature)
requests = (create_stamp, create_request) ∷ (pay_stamp, pay_request) ∷ []
