-- ===== src/Tests/Postgres.antt =====
-- The PostgreSQL write side's theorems over a small database, and the theorems on what is made of its
-- results.
use streaming_system_compass.Base.{
  true, false, String, str_eq, Option, none, some, List, [], ◌∷◌, ◌++◌, length, ◌≡◌, refl, ap,
  if◌then◌else◌,
}
use streaming_system_compass.Base.Result.{ok}
use streaming_system_compass.Base.Triple.{Post}
use streaming_system_compass.Postgres.Rows.{OrderEventRow, IdempotencyRow, IdempotencyInsert}
use streaming_system_compass.Postgres.Session.{Session}
use streaming_system_compass.Postgres.Transaction.{Write, event, request, Ledger, IsTransactional}
use streaming_system_compass.Postgres.IdempotencyStore.Replay.{joined_row}
use streaming_system_compass.Postgres.Trace.{pre_transaction}
use streaming_system_compass.Postgres.Gate.{pessimistic}
use streaming_system_compass.Postgres.WriteSide.{WriteSide, with_evidence}
use streaming_system_compass.Postgres.WriteSide.Flows.{
  execute_command, create_order, create_order_with_trace,
}
use streaming_system_compass.Postgres.WriteSide.Tracing.{delivered}
use streaming_system_compass.Postgres.WriteSide.Transparency.{create_order_with_trace-transparent}
use streaming_system_compass.Postgres.WriteSide.Settlement.{Settled, Raised}
use streaming_system_compass.Postgres.WriteSide.Atomicity.{execute_command-atomic}
use streaming_system_compass.Tests.{create_stamp, create_request, strict_runtime, ten_euros}

-- The published and the pending writes of a database that one connection uses.
abbrev Rows : Type 0
Rows = List Write × List Write

event_rows : String → List Write → List OrderEventRow
event_rows order_id [] = []
event_rows order_id (event row ∷ ws) =
    let rest = event_rows order_id ws in if str_eq row.order_id order_id then row ∷ rest else rest
event_rows order_id (request row ∷ ws) = event_rows order_id ws

event_row_of : String → List Write → Option OrderEventRow
event_row_of event_id [] = none
event_row_of event_id (event row ∷ ws) =
    let rest = event_row_of event_id ws in
    if str_eq row.accepted_event_id event_id then some row else rest
event_row_of event_id (request row ∷ ws) = event_row_of event_id ws

joined_row_of : IdempotencyInsert → Option OrderEventRow → Option IdempotencyRow
joined_row_of row none = none
joined_row_of row (some e) = some (joined_row row e)

record_of : String → List Write → List Write → Option IdempotencyRow
record_of request_id all [] = none
record_of request_id all (event row ∷ ws) = record_of request_id all ws
record_of request_id all (request row ∷ ws) =
    let rest = record_of request_id all ws in
    if str_eq row.request_id request_id
    then joined_row_of row (event_row_of row.accepted_event_id all)
    else rest

abbrev rows_session : Session Rows
rows_session = record {
  autocommit = λ _. false;
  commit = λ s. (ok tt, (s.0 ++ s.1, []));
  rollback = λ s. (ok tt, (s.0, []));
  current_version = λ order_id s. (ok (length (event_rows order_id (s.0 ++ s.1))), s);
  select_events = λ order_id s. (ok (event_rows order_id (s.0 ++ s.1)), s);
  insert_event = λ row s. (ok tt, (s.0, s.1 ++ event row ∷ []));
  select_record = λ request_id s. (ok (record_of request_id (s.0 ++ s.1) (s.0 ++ s.1)), s);
  insert_record = λ row s. (ok tt, (s.0, s.1 ++ request row ∷ []));
  try_lock = λ _ s. (ok true, s);
}

abbrev rows_ledger : Ledger Rows
rows_ledger = record { published = λ s. s.0; pending = λ s. s.1 }

rows_session-IsTransactional : IsTransactional rows_session rows_ledger
unfolding Post
rows_session-IsTransactional = record {
  commit_law = λ s. refl;
  rollback_law = λ s. (refl, refl);
  version_law = λ _ p w s h. h;
  events_law = λ _ p w s h. h;
  record_law = λ _ p w s h. h;
  lock_law = λ _ p w s h. h;
  insert_event_law = λ row p w s h. record {
    published_eq = h.published_eq;
    pending_eq = ap (λ ws. ws ++ event row ∷ []) h.pending_eq;
    autocommit_eq = refl;
  };
  insert_record_law = λ row p w s h. record {
    published_eq = h.published_eq;
    pending_eq = ap (λ ws. ws ++ request row ∷ []) h.pending_eq;
    autocommit_eq = refl;
  };
}

abbrev sample_writer : WriteSide
sample_writer = record {
  validation = with_evidence strict_runtime;
  gate = pessimistic;
  validation_placement = pre_transaction;
}

abbrev no_rows : Rows
no_rows = ([], [])

execute_command-atomic_example :
    Post
      (Settled rows_session rows_ledger create_request [])
      (Raised rows_session rows_ledger create_request [])
      (execute_command rows_session sample_writer create_stamp create_request none no_rows)
execute_command-atomic_example =
    execute_command-atomic rows_session rows_ledger rows_session-IsTransactional sample_writer
      create_stamp create_request [] none no_rows
      (record { published_eq = refl; pending_eq = refl; autocommit_eq = refl })

create_order_with_trace-transparent_example :
    delivered
      (create_order_with_trace rows_session sample_writer create_stamp "r1" "o1" ten_euros no_rows)
    ≡ delivered (create_order rows_session sample_writer create_stamp "r1" "o1" ten_euros no_rows)
create_order_with_trace-transparent_example =
    create_order_with_trace-transparent rows_session sample_writer create_stamp "r1" "o1" ten_euros
      no_rows
