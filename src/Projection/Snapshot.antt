-- ===== src/Projection/Snapshot.antt =====
-- src/pipeline/projection/projection_snapshot_assisted_state_resolver.py: the state of an order from a
-- snapshot and the tail of its history. The snapshot store and the tail source are parameters; the
-- loop over the batches of the tail takes fuel.
pub mod Tail
pub mod Resolution
pub mod ReplayValidator
pub mod Trust
use streaming_system_compass.Base.{
  ℕ, suc, zero, ◌+◌, Bool, true, false, not, ◌||◌, Option, none, some, List, [], ◌∷◌, ◌++◌, String,
  str_eq, ◌==◌, if◌then◌else◌,
}
use streaming_system_compass.Base.Result.{Result, ok, err, ◌>>=◌, ◌>>◌, raise_if}
use streaming_system_compass.Decimal.{Decimal}
use streaming_system_compass.Failure.{
  Failure, is_value_error, tail_order_mismatch, tail_not_contiguous,
}
use streaming_system_compass.Order.{OrderEvent, OrderState}
use streaming_system_compass.Postgres.Rows.{status_of}
use streaming_system_compass.Projection.{reduce_all}

-- The fields of `ProjectionSnapshot` that the resolver reads.
pub record ProjectionSnapshot : Type 0 where
  pub snapshot_id : String
  pub order_id : String
  pub source_global_position : ℕ
  pub source_event_sequence : ℕ
  pub state_status : String
  pub total_amount : Decimal
  pub paid_amount : Decimal
  pub state_version : ℕ
  pub snapshot_schema_version : ℕ
  pub reducer_version : String

pub data ResolutionStatus : Type 0 where
  resolved_from_snapshot missing_snapshot invalid_snapshot_precondition : ResolutionStatus
  invalid_snapshot_compatibility tail_event_source_contract_violation : ResolutionStatus
  tail_replay_failed : ResolutionStatus

-- `ProjectionSnapshotAssistedResolutionResult`, its reason left out
pub record ResolutionResult : Type 0 where
  pub order_id : String
  pub status : ResolutionStatus
  pub resolved_state : Option OrderState
  pub snapshot_id : Option String
  pub source_global_position : Option ℕ

-- `_validate_snapshot_compatibility`: true where it returns no reason. Versions are naturals here.
unfoldable pub is_compatible : ProjectionSnapshot → String → Bool
is_compatible snapshot order_id = not (
    not (str_eq snapshot.order_id order_id)
    || (snapshot.source_global_position == 0)
    || (snapshot.source_event_sequence == 0)
    || not (snapshot.state_version == snapshot.source_event_sequence)
    || not (snapshot.snapshot_schema_version == 1)
    || not (str_eq snapshot.reducer_version "order_projection_reducer:v1")
    || not (str_eq snapshot.state_status "CREATED" || str_eq snapshot.state_status "PAID"))

-- `_hydrate_snapshot_state`
unfoldable pub hydrate_snapshot_state : ProjectionSnapshot → Result Failure OrderState
unfolding status_of
hydrate_snapshot_state snapshot = do
  status ← status_of snapshot.state_status
  ok (record {
    order_id = snapshot.order_id;
    status = status;
    total_amount = snapshot.total_amount;
    paid_amount = snapshot.paid_amount;
    version = snapshot.state_version;
  })

-- `for record in batch`: the last sequence of a batch that is the order's own and contiguous.
unfoldable pub check_batch : String → ℕ → List OrderEvent → Result Failure ℕ
check_batch order_id sequence [] = ok sequence
check_batch order_id sequence (e ∷ es) = do
  raise_if (not (str_eq e.order_id order_id)) tail_order_mismatch
  raise_if (not (e.sequence == sequence + 1)) (tail_not_contiguous (sequence + 1) e.sequence)
  check_batch order_id e.sequence es

-- What a batch means for the loop: the end, an exception, or the next turn.
pub after_batch :
    {A : Type 0} → List OrderEvent → Result Failure ℕ → A → (Failure → A) → (ℕ → A) → A
after_batch [] r finish fail next = finish
after_batch (e ∷ es) (err f) finish fail next = fail f
after_batch (e ∷ es) (ok sequence) finish fail next = next sequence

abbrev pub results :
    String → ProjectionSnapshot → ResolutionStatus → Option OrderState → ResolutionResult
results order_id snapshot status state = record {
  order_id = order_id;
  status = status;
  resolved_state = state;
  snapshot_id = some snapshot.snapshot_id;
  source_global_position = some snapshot.source_global_position;
}

-- `except ValueError`, at one status
caught : String → ProjectionSnapshot → ResolutionStatus → Failure → Result Failure ResolutionResult
unfolding is_value_error
caught order_id snapshot status f =
    if is_value_error f then ok (results order_id snapshot status none) else err f

-- The replay of the tail.
unfoldable pub replay_tail :
    String → ProjectionSnapshot → Result Failure OrderState → Result Failure ResolutionResult
unfolding caught
replay_tail order_id snapshot (ok s) =
    ok (results order_id snapshot resolved_from_snapshot (some s))
replay_tail order_id snapshot (err f) = caught order_id snapshot tail_replay_failed f

on_tail :
    String
    → ProjectionSnapshot
    → OrderState
    → Result Failure (List OrderEvent)
    → Result Failure ResolutionResult
unfolding replay_tail caught
on_tail order_id snapshot s (ok tail) = replay_tail order_id snapshot (reduce_all s tail)
on_tail order_id snapshot s (err f) =
    caught order_id snapshot tail_event_source_contract_violation f

abbrev map_tail :
    Option (Result Failure (List OrderEvent))
    → (Result Failure (List OrderEvent) → Result Failure ResolutionResult)
    → Option (Result Failure ResolutionResult)
map_tail none k = none
map_tail (some r) k = some (k r)

module _ (load_after_sequence : String → ℕ → ℕ → List OrderEvent) (tail_event_limit : ℕ) where
  -- `_load_all_tail_records`; none where the fuel runs out
  unfoldable pub load_all_tail_records :
      ℕ → String → ℕ → List OrderEvent → Option (Result Failure (List OrderEvent))
  unfolding after_batch
  load_all_tail_records zero order_id sequence records = none
  load_all_tail_records (suc fuel) order_id sequence records =
      let batch = load_after_sequence order_id sequence tail_event_limit in
      after_batch batch (check_batch order_id sequence batch) (some (ok records))
        (λ f. some (err f))
        (λ sequence'. load_all_tail_records fuel order_id sequence' (records ++ batch))

module _ (load_snapshot : String → Option ProjectionSnapshot)
    (load_after_sequence : String → ℕ → ℕ → List OrderEvent) (tail_event_limit : ℕ) where
  -- From the hydration on.
  resolve_hydrated :
      ℕ
      → String
      → ProjectionSnapshot
      → Result Failure OrderState
      → Option (Result Failure ResolutionResult)
  unfolding on_tail caught
  resolve_hydrated fuel order_id snapshot (err f) =
      some (caught order_id snapshot invalid_snapshot_compatibility f)
  resolve_hydrated fuel order_id snapshot (ok s) =
      map_tail
        (load_all_tail_records load_after_sequence tail_event_limit fuel order_id
          snapshot.source_event_sequence [])
        (on_tail order_id snapshot s)

  resolve_loaded :
      ℕ → String → String → Option ProjectionSnapshot → Option (Result Failure ResolutionResult)
  unfolding resolve_hydrated
  resolve_loaded fuel order_id id none = some (
      ok (record {
        order_id = order_id;
        status = missing_snapshot;
        resolved_state = none;
        snapshot_id = some id;
        source_global_position = none;
      }))
  resolve_loaded fuel order_id id (some snapshot) =
      if is_compatible snapshot order_id
      then resolve_hydrated fuel order_id snapshot (hydrate_snapshot_state snapshot)
      else some (ok (results order_id snapshot invalid_snapshot_compatibility none))

  -- `resolve_order`
  unfoldable pub resolve_order :
      ℕ → String → Option String → Option (Result Failure ResolutionResult)
  unfolding resolve_loaded
  resolve_order fuel order_id none = some (
      ok (record {
        order_id = order_id;
        status = invalid_snapshot_precondition;
        resolved_state = none;
        snapshot_id = none;
        source_global_position = none;
      }))
  resolve_order fuel order_id (some id) = resolve_loaded fuel order_id id (load_snapshot id)
