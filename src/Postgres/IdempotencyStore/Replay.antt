-- ===== src/Postgres/IdempotencyStore/Replay.antt =====
-- src/storage/postgres_idempotency_store.py: what `check` makes of the row that `record` wrote.
use streaming_system_compass.Base.{ℕ, true, List, [], ◌∷◌, some, ◌≡◌, refl, sym, arith, inl, inr}
use streaming_system_compass.Base.Result.{ok, Result-cases}
use streaming_system_compass.Decimal.{Decimal}
use streaming_system_compass.Money.{decimal, money_to_storage_string}
use streaming_system_compass.Order.{OrderEvent}
use streaming_system_compass.Postgres.Rows.{
  OrderEventRow, IdempotencyRow, IdempotencyInsert, event_row, command_value,
  command_of-command_value, row_to_order_event-event_row,
}
use streaming_system_compass.Postgres.Fingerprint.{fingerprint_version, build_semantic_fingerprint}
use streaming_system_compass.Postgres.IdempotencyStore.{
  same_text, row_to_idempotency_record, found_verdict, classify_row, stored_amount, record_row,
}
use streaming_system_compass.Storage.Idempotency.{RequestSignature, IdempotencyRecord, replay}

-- The row of `idempotency_records` joined with a row of `order_events`.
abbrev pub joined_row : IdempotencyInsert → OrderEventRow → IdempotencyRow
joined_row row e = record {
  request_id = row.request_id;
  order_id = row.order_id;
  command_type = row.command_type;
  amount = row.amount;
  fingerprint_version = row.fingerprint_version;
  semantic_fingerprint = row.semantic_fingerprint;
  accepted_event = e;
}

-- The record that a replay of the row reports.
abbrev pub replayed_record : RequestSignature → IdempotencyInsert → OrderEvent → IdempotencyRecord
replayed_record signature row e = record {
  signature = record {
    request_id = signature.request_id;
    command_type = signature.command_type;
    order_id = signature.order_id;
    amount = row.amount;
  };
  accepted_event = e;
}

same_text_refl : (cs : List ℕ) → same_text cs cs ≡ true
unfolding same_text
same_text_refl [] = refl
same_text_refl (c ∷ cs) = ground (arith, same_text_refl cs)

-- The row that `record` writes.
abbrev inserted : RequestSignature → OrderEvent → Decimal → List ℕ → IdempotencyInsert
inserted signature e amount fingerprint = record {
  request_id = signature.request_id;
  order_id = signature.order_id;
  command_type = command_value signature.command_type;
  amount = amount;
  fingerprint_version = fingerprint_version;
  semantic_fingerprint = fingerprint;
  accepted_event_id = e.event_id;
  result_sequence = e.sequence;
  status = "SUCCEEDED";
}

classify_row-inserted :
    (signature : RequestSignature) (e : OrderEvent) (amount : Decimal) (fingerprint : List ℕ)
    → build_semantic_fingerprint signature ≡ ok fingerprint
    → (row : IdempotencyInsert) → row ≡ inserted signature e amount fingerprint
    → classify_row signature (some (joined_row row (event_row e)))
      ≡ ok (record { verdict = replay; prior = some (replayed_record signature row e) })
unfolding classify_row row_to_idempotency_record found_verdict
classify_row-inserted signature e amount fingerprint c row eq =
    rw
      (
        eq,
        c,
        command_of-command_value signature.command_type,
        row_to_order_event-event_row e,
        same_text_refl fingerprint,
      )
      refl

-- A row that `record` wrote for a request and its event, read back beside the event's own row, is
-- classified as a replay of the same request, with the same event. Only the amount is the stored one.
pub classify_row-record_row :
    (signature : RequestSignature) (e : OrderEvent) (row : IdempotencyInsert)
    → record_row signature e ≡ ok row
    → classify_row signature (some (joined_row row (event_row e)))
      ≡ ok (record { verdict = replay; prior = some (replayed_record signature row e) })
unfolding record_row
classify_row-record_row signature e row h =
    elim (Result-cases (money_to_storage_string (decimal signature.amount))) [
      | inr (f, a) ↦ absurd (cc (rw a at h))
      | inl (text, a) ↦ elim (Result-cases (stored_amount text)) [
        | inr (f, b) ↦ absurd (cc (rw (a, b) at h))
        | inl (amount, b) ↦ elim (Result-cases (build_semantic_fingerprint signature)) [
          | inr (f, c) ↦ absurd (cc (rw (a, b, c) at h))
          | inl (fingerprint, c) ↦
              classify_row-inserted signature e amount fingerprint c row
                (sym (cc (rw (a, b, c) at h)))
        ]
      ]
    ]
