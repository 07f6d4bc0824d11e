-- ===== src/Tests/Snapshots.antt =====
-- The snapshot-assisted resolver at the sample order, its tail served one event at a time.
use streaming_system_compass.Base.{
  ℕ, ◌+◌, Option, some, List, [], ◌∷◌, ◌++◌, String, true, ◌≡◌, refl, ap, subst, arith,
}
use streaming_system_compass.Base.Slice.{take, drop}
use streaming_system_compass.Base.Result.{ok}
use streaming_system_compass.Decimal.{zero_amount, decimal_eq}
use streaming_system_compass.Order.{OrderEvent, OrderState}
use streaming_system_compass.Order.Aggregate.{fresh, applied}
use streaming_system_compass.Order.History.{IsHistory, final}
use streaming_system_compass.Registry.Soundness.{serve_from_empty-IsSound}
use streaming_system_compass.Projection.{
  reduce_all, build_empty_projection_state, reduce_order_event,
}
use streaming_system_compass.Projection.Agreement.{project}
use streaming_system_compass.Postgres.Rows.{status_of}
use streaming_system_compass.Projection.Snapshot.{
  ProjectionSnapshot, resolved_from_snapshot, is_compatible, hydrate_snapshot_state, resolve_order,
  results, load_all_tail_records, check_batch,
}
use streaming_system_compass.Projection.Snapshot.Tail.{Serves}
use streaming_system_compass.Projection.Snapshot.Resolution.{resolve_order-full_replay}
use streaming_system_compass.Tests.Runs.{serve_run-load}
use streaming_system_compass.Tests.{created_event, strict_runtime, paid_event, requests}
use streaming_system_compass.Projection.Validator.{state_eq}
use streaming_system_compass.Projection.Snapshot.ReplayValidator.{
  SnapshotValidationResult, match, is_valid_boundary, reduce_tail, compare_tail, on_loaded_tail,
  on_hydrated, check_snapshot, on_authority, on_history, validate_snapshot,
}
use streaming_system_compass.Projection.Snapshot.Trust.{match-Resolves}

abbrev after_create : ProjectionSnapshot
after_create = record {
  snapshot_id = "s1";
  order_id = "o1";
  source_global_position = 1;
  source_event_sequence = 1;
  state_status = "CREATED";
  total_amount = created_event.amount;
  paid_amount = zero_amount;
  state_version = 1;
  snapshot_schema_version = 1;
  reducer_version = "order_projection_reducer:v1";
}

abbrev first_part : List OrderEvent
first_part = created_event ∷ []

abbrev second_part : List OrderEvent
second_part = paid_event ∷ []

abbrev snapshots : String → Option ProjectionSnapshot
snapshots id = some after_create

abbrev tail_of : String → ℕ → ℕ → List OrderEvent
tail_of o n limit = take limit (drop n (first_part ++ second_part))

parts-IsHistory : IsHistory (fresh "o1") (first_part ++ second_part)
parts-IsHistory =
    subst (IsHistory (fresh "o1")) serve_run-load
      ((serve_from_empty-IsSound strict_runtime requests).histories "o1")

tail_of-Serves : Serves tail_of 1 "o1" 0 (first_part ++ second_part)
tail_of-Serves k =
    let start : 0 + k ≡ k = omega arith in
    ap (λ n. take 1 (drop n (first_part ++ second_part))) start

after_create-is_compatible : is_compatible after_create "o1" ≡ true
unfolding is_compatible
after_create-is_compatible = refl

after_create-hydrated :
    hydrate_snapshot_state after_create ≡ ok (project (final (fresh "o1") first_part))
unfolding hydrate_snapshot_state status_of applied
after_create-hydrated = refl

resolve_order-full_replay_example :
    (full : OrderState) × (reduce_all
        (build_empty_projection_state "o1")
        (first_part ++ second_part)
      ≡ ok full)
    × (resolve_order snapshots tail_of 1 2 "o1" (some "s1")
        ≡ some (ok (results "o1" after_create resolved_from_snapshot (some full))))
resolve_order-full_replay_example =
    resolve_order-full_replay snapshots tail_of 0 2 "o1" "s1" after_create first_part second_part
      refl after_create-is_compatible after_create-hydrated parts-IsHistory tail_of-Serves
      (omega arith)

abbrev latest : String → Option ProjectionSnapshot
latest o = some after_create

abbrev accepted : String → List OrderEvent
accepted o = first_part ++ second_part

matched :
    (r : SnapshotValidationResult) × (validate_snapshot latest accepted tail_of 1 2 "o1"
      ≡ some (ok r))
    × (r.status ≡ match)
unfolding validate_snapshot on_history on_authority check_snapshot on_hydrated on_loaded_tail
    compare_tail reduce_tail is_valid_boundary hydrate_snapshot_state status_of
    load_all_tail_records check_batch reduce_all reduce_order_event state_eq decimal_eq
matched = (_, refl, refl)

match-Resolves_example :
    (s authority : OrderState) × (reduce_all (build_empty_projection_state "o1") (accepted "o1")
      ≡ ok authority)
    × (state_eq s authority ≡ true)
    × (resolve_order snapshots tail_of 1 2 "o1" (some "s1")
        ≡ some (ok (results "o1" after_create resolved_from_snapshot (some s))))
match-Resolves_example =
    match-Resolves latest snapshots accepted tail_of 1 2 "o1" "s1" after_create (matched.0) refl
      refl refl refl (matched.1) (matched.2)
