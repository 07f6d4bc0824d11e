-- ===== src/Tests/Replays.antt =====
-- The round trips of the database rows at the sample order.
use streaming_system_compass.Base.{some, ◌≡◌, refl}
use streaming_system_compass.Base.Result.{ok}
use streaming_system_compass.Base.Text.{strip, is_space}
use streaming_system_compass.Decimal.{rescale}
use streaming_system_compass.Decimal.Parse.{parse_decimal, show_cents}
use streaming_system_compass.Money.{
  normalize_money, parse_money, quantize_money, money_to_storage_string,
}
use streaming_system_compass.Storage.Idempotency.{replay}
use streaming_system_compass.Postgres.Rows.{IdempotencyInsert, event_row}
use streaming_system_compass.Postgres.Fingerprint.{build_semantic_fingerprint}
use streaming_system_compass.Postgres.IdempotencyStore.{record_row, classify_row}
use streaming_system_compass.Postgres.IdempotencyStore.Replay.{
  joined_row, replayed_record, classify_row-record_row,
}
use streaming_system_compass.Postgres.IdempotencyStore.Verdict.{classify_row-SameRequest}
use streaming_system_compass.Postgres.Fingerprint.Discrimination.{SameRequest}
use streaming_system_compass.Tests.{create_request, created_event}

recorded : (row : IdempotencyInsert) × (record_row create_request created_event ≡ ok row)
unfolding record_row build_semantic_fingerprint money_to_storage_string normalize_money parse_money
    quantize_money rescale parse_decimal strip show_cents is_space
recorded = (_, refl)

classify_row-record_row_example :
    classify_row create_request (some (joined_row (recorded.0) (event_row created_event)))
    ≡ ok (record {
      verdict = replay;
      prior = some (replayed_record create_request (recorded.0) created_event);
    })
classify_row-record_row_example =
    classify_row-record_row create_request created_event (recorded.0) (recorded.1)

create_replayed :
    classify_row create_request (some (joined_row (recorded.0) (event_row created_event)))
    ≡ ok (record {
      verdict = replay;
      prior = some (replayed_record create_request (recorded.0) created_event);
    })
create_replayed = classify_row-record_row create_request created_event (recorded.0) (recorded.1)

classify_row-SameRequest_example : SameRequest create_request create_request
classify_row-SameRequest_example =
    classify_row-SameRequest create_request create_request created_event (recorded.0) (recorded.1)
      (event_row created_event)
      (record {
        verdict = replay;
        prior = some (replayed_record create_request (recorded.0) created_event);
      })
      create_replayed refl
