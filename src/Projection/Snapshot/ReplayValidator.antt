-- ===== src/Projection/Snapshot/ReplayValidator.antt =====
-- src/pipeline/projection/projection_snapshot_replay_validator.py: an order's snapshot with its tail
-- against the replay of accepted history. Its hydration and its loop over the tail are, line for
-- line, those of the resolver.
use streaming_system_compass.Base.{
  ℕ, Bool, not, ◌||◌, Option, none, some, List, [], ◌∷◌, String, str_eq, ◌==◌, ltb, leb,
  if◌then◌else◌,
}
use streaming_system_compass.Base.Result.{Result, ok, err}
use streaming_system_compass.Failure.{Failure, is_value_error}
use streaming_system_compass.Order.{OrderEvent, OrderState}
use streaming_system_compass.Projection.{
  build_empty_projection_state, reduce_order_event, reduce_all,
}
use streaming_system_compass.Projection.Validator.{state_eq}
use streaming_system_compass.Projection.Snapshot.{
  ProjectionSnapshot, hydrate_snapshot_state, load_all_tail_records,
}

pub data SnapshotValidationStatus : Type 0 where
  match missing_snapshot no_accepted_history invalid_boundary : SnapshotValidationStatus
  tail_contract_violation assisted_drift : SnapshotValidationStatus

-- `ProjectionSnapshotReplayValidationResult`, its reason left out
pub record SnapshotValidationResult : Type 0 where
  pub status : SnapshotValidationStatus
  pub order_id : String
  pub snapshot_id : Option String
  pub source_global_position : Option ℕ
  pub snapshot_assisted_state : Option OrderState
  pub authority_state : Option OrderState

-- `_validate_snapshot_boundary`: true where it returns no reason.
unfoldable pub is_valid_boundary : ProjectionSnapshot → String → ℕ → Bool
is_valid_boundary snapshot order_id max_sequence = not (
    not (str_eq snapshot.order_id order_id)
    || (snapshot.source_global_position == 0)
    || (snapshot.source_event_sequence == 0)
    || ltb max_sequence snapshot.source_event_sequence
    || not (snapshot.state_version == snapshot.source_event_sequence)
    || not (str_eq snapshot.state_status "CREATED" || str_eq snapshot.state_status "PAID"))

-- `max(event.sequence for event in accepted_events)`
pub max_sequence : OrderEvent → List OrderEvent → ℕ
max_sequence e [] = e.sequence
max_sequence e (f ∷ es) =
    let rest = max_sequence f es in if leb rest e.sequence then e.sequence else rest

-- The state that an exception of the reducer leaves, with it.
pub after_event : {A : Type 0} → Result Failure OrderState → (Failure → A) → (OrderState → A) → A
after_event (ok s) fail next = next s
after_event (err f) fail next = fail f

-- `for record in tail_records`
unfoldable pub reduce_tail : OrderState → List OrderEvent → OrderState × Option Failure
unfolding after_event
reduce_tail s [] = (s, none)
reduce_tail s (e ∷ es) =
    after_event (reduce_order_event s e) (λ f. (s, some f)) (λ s'. reduce_tail s' es)

abbrev pub verdict :
    String
    → ProjectionSnapshot
    → SnapshotValidationStatus
    → Option OrderState
    → OrderState
    → SnapshotValidationResult
verdict order_id snapshot status assisted authority = record {
  status = status;
  order_id = order_id;
  snapshot_id = some snapshot.snapshot_id;
  source_global_position = some snapshot.source_global_position;
  snapshot_assisted_state = assisted;
  authority_state = some authority;
}

module _ (order_id : String) (snapshot : ProjectionSnapshot) (authority : OrderState) where
  -- From the replay of the tail on.
  unfoldable pub compare_tail :
      OrderState × Option Failure → Result Failure SnapshotValidationResult
  compare_tail (s, none) = ok (
      verdict order_id snapshot (if state_eq s authority then match else assisted_drift) (some s)
        authority)
  compare_tail (s, some f) =
      if is_value_error f
      then ok (verdict order_id snapshot assisted_drift (some s) authority)
      else err f

  -- From the loading of the tail on.
  unfoldable pub on_loaded_tail :
      OrderState
      → Option (Result Failure (List OrderEvent))
      → Option (Result Failure SnapshotValidationResult)
  on_loaded_tail s none = none
  on_loaded_tail s (some (ok tail)) = some (compare_tail (reduce_tail s tail))
  on_loaded_tail s (some (err f)) = some (
      if is_value_error f
      then ok (verdict order_id snapshot tail_contract_violation (some s) authority)
      else err f)

  -- From the hydration on.
  unfoldable pub on_hydrated :
      (OrderState → Option (Result Failure (List OrderEvent)))
      → Result Failure OrderState
      → Option (Result Failure SnapshotValidationResult)
  on_hydrated load (ok s) = on_loaded_tail s (load s)
  on_hydrated load (err f) = some (
      if is_value_error f
      then ok (verdict order_id snapshot invalid_boundary none authority)
      else err f)

module _ (load_latest_snapshot : String → Option ProjectionSnapshot)
    (load : String → List OrderEvent) (load_after_sequence : String → ℕ → ℕ → List OrderEvent)
    (tail_event_limit : ℕ) where
  -- From the boundary check on.
  unfoldable pub check_snapshot :
      ℕ
      → String
      → ℕ
      → OrderState
      → Option ProjectionSnapshot
      → Option (Result Failure SnapshotValidationResult)
  check_snapshot fuel order_id newest authority none = some (
      ok (record {
        status = missing_snapshot;
        order_id = order_id;
        snapshot_id = none;
        source_global_position = none;
        snapshot_assisted_state = none;
        authority_state = some authority;
      }))
  check_snapshot fuel order_id newest authority (some snapshot) =
      if is_valid_boundary snapshot order_id newest
      then on_hydrated order_id snapshot authority
          (λ s.
            load_all_tail_records load_after_sequence tail_event_limit fuel order_id
              snapshot.source_event_sequence [])
          (hydrate_snapshot_state snapshot)
      else some (ok (verdict order_id snapshot invalid_boundary none authority))

  unfoldable pub on_authority :
      ℕ → String → ℕ → Result Failure OrderState → Option (Result Failure SnapshotValidationResult)
  on_authority fuel order_id newest (err f) = some (err f)
  on_authority fuel order_id newest (ok authority) =
      check_snapshot fuel order_id newest authority (load_latest_snapshot order_id)

  snapshot_id_of : Option ProjectionSnapshot → Option String
  snapshot_id_of none = none
  snapshot_id_of (some snapshot) = some snapshot.snapshot_id

  position_of : Option ProjectionSnapshot → Option ℕ
  position_of none = none
  position_of (some snapshot) = some snapshot.source_global_position

  unfoldable pub on_history :
      ℕ → String → List OrderEvent → Option (Result Failure SnapshotValidationResult)
  unfolding on_authority max_sequence snapshot_id_of position_of
  on_history fuel order_id [] = some (
      ok (record {
        status = no_accepted_history;
        order_id = order_id;
        snapshot_id = snapshot_id_of (load_latest_snapshot order_id);
        source_global_position = position_of (load_latest_snapshot order_id);
        snapshot_assisted_state = none;
        authority_state = none;
      }))
  on_history fuel order_id (e ∷ es) =
      on_authority fuel order_id (max_sequence e es)
        (reduce_all (build_empty_projection_state order_id) (e ∷ es))

  -- `validate_order`
  unfoldable pub validate_snapshot : ℕ → String → Option (Result Failure SnapshotValidationResult)
  unfolding on_history
  validate_snapshot fuel order_id = on_history fuel order_id (load order_id)
