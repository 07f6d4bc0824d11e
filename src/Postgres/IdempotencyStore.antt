-- ===== src/Postgres/IdempotencyStore.antt =====
-- src/storage/postgres_idempotency_store.py: the durable request memory.
pub mod Replay
pub mod Verdict
use streaming_system_compass.Base.{
  ℕ, Bool, true, false, ◌&&◌, not, Option, none, some, List, [], ◌∷◌, String, ◌==◌, if◌then◌else◌,
}
use streaming_system_compass.Base.Result.{Result, ok, err}
use streaming_system_compass.Base.Action.{Action, ◌>>=◌, ◌>>◌, return, lift}
use streaming_system_compass.Decimal.{Decimal}
use streaming_system_compass.Decimal.Parse.{parse_decimal}
use streaming_system_compass.Failure.{Failure, invalid_operation}
use streaming_system_compass.Money.{decimal, money_to_storage_string}
use streaming_system_compass.Order.{OrderEvent}
use streaming_system_compass.Postgres.Rows.{
  OrderEventRow, IdempotencyRow, IdempotencyInsert, row_to_order_event, command_of, command_value,
}
use streaming_system_compass.Postgres.Fingerprint.{fingerprint_version, build_semantic_fingerprint}
use streaming_system_compass.Postgres.Session.{Session}
use streaming_system_compass.Storage.Idempotency.{
  RequestSignature, IdempotencyRecord, IdempotencyDecision, IdempotencyVerdict, miss, replay,
  conflict,
}
use streaming_system_compass.Base.Result

-- `==` of two texts
unfoldable pub same_text : List ℕ → List ℕ → Bool
same_text [] [] = true
same_text (x ∷ xs) (y ∷ ys) = let rest = same_text xs ys in (x == y) && rest
same_text _ _ = false

-- `_row_to_idempotency_record`
unfoldable pub row_to_idempotency_record : IdempotencyRow → Result Failure IdempotencyRecord
row_to_idempotency_record row = Result.◌>>=◌ (command_of row.command_type) λ command_type.
    Result.◌>>=◌ (row_to_order_event row.accepted_event) λ e. ok (record {
      signature = record {
        request_id = row.request_id;
        command_type = command_type;
        order_id = row.order_id;
        amount = row.amount;
      };
      accepted_event = e;
    })

-- The verdict on a row that was found.
found_verdict : Bool → IdempotencyVerdict
found_verdict true = replay
found_verdict false = conflict

-- `PostgresIdempotencyStore.check`, behind the read
unfoldable pub classify_row :
    RequestSignature → Option IdempotencyRow → Result Failure IdempotencyDecision
unfolding found_verdict
classify_row signature none = ok (record { verdict = miss; prior = none })
classify_row signature (some existing) =
    Result.◌>>=◌ (build_semantic_fingerprint signature) λ expected.
      Result.◌>>=◌ (row_to_idempotency_record existing) λ r. ok (record {
        verdict = found_verdict (
            (existing.fingerprint_version == fingerprint_version)
            && same_text existing.semantic_fingerprint expected);
        prior = some r;
      })

-- `Decimal(money_to_storage_string(amount))`
stored_amount : List ℕ → Result Failure Decimal
stored_amount cs = elim (parse_decimal cs) [ none ↦ err invalid_operation | some d ↦ ok d ]

-- The parameters of the INSERT of `record`.
unfoldable pub record_row : RequestSignature → OrderEvent → Result Failure IdempotencyInsert
unfolding stored_amount
record_row signature accepted =
    Result.◌>>=◌ (money_to_storage_string (decimal signature.amount)) λ text.
      Result.◌>>=◌ (stored_amount text) λ amount.
        Result.◌>>=◌ (build_semantic_fingerprint signature) λ fingerprint. ok (record {
          request_id = signature.request_id;
          order_id = signature.order_id;
          command_type = command_value signature.command_type;
          amount = amount;
          fingerprint_version = fingerprint_version;
          semantic_fingerprint = fingerprint;
          accepted_event_id = accepted.event_id;
          result_sequence = accepted.sequence;
          status = "SUCCEEDED";
        })

module _ {D : Type 0} (db : Session D) where
  -- `PostgresIdempotencyStore.check`
  unfoldable pub check_request : RequestSignature → Action D IdempotencyDecision
  check_request signature = do
    existing ← db.select_record signature.request_id
    lift (classify_row signature existing)

  -- `PostgresIdempotencyStore.record`
  unfoldable pub record_request : RequestSignature → OrderEvent → Action D (Unit {0})
  record_request signature accepted = do
    row ← lift (record_row signature accepted)
    db.insert_record row
