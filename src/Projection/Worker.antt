-- ===== src/Projection/Worker.antt =====
-- src/pipeline/projection/worker.py, with the in-memory stores of src/storage/projection_store.py and
-- src/storage/checkpoint_store.py.
pub mod Progress
pub mod Feed
use streaming_system_compass.Base.{
  ℕ, suc, zero, ◌+◌, Bool, true, false, Option, none, some, List, [], ◌∷◌, String, leb, ltb,
  if◌then◌else◌,
}
use streaming_system_compass.Base.Dict.{Dict, lookup, insert}
use streaming_system_compass.Base.Result.{Result, ok, err}
use streaming_system_compass.Failure.{Failure, sequence_gap}
use streaming_system_compass.Order.{OrderEvent, OrderState}
use streaming_system_compass.Projection.{build_empty_projection_state, reduce_order_event}

-- The two stores behind a worker. An offset of the checkpoint store is a natural; no entry is -1.
pub record Stores : Type 0 where
  pub states : Dict OrderState
  pub offsets : Dict ℕ

pub record ProjectionRecord : Type 0 where
  pub offset : ℕ
  pub event : OrderEvent

pub data Action : Type 0 where
  applied skipped_already_consumed skipped_already_projected : Action

pub record ProjectionProcessResult : Type 0 where
  pub offset : ℕ
  pub order_id : String
  pub event_sequence : ℕ
  pub action : Action
  pub projected_version : ℕ

-- `record.offset <= checkpoint`, where no checkpoint is -1
unfoldable pub already_consumed : ℕ → Option ℕ → Bool
already_consumed offset none = false
already_consumed offset (some current) = leb offset current

or_empty : String → Option OrderState → OrderState
or_empty order_id none = build_empty_projection_state order_id
or_empty order_id (some s) = s

-- `_load_or_init_state`
unfoldable pub load_or_init : String → Stores → OrderState
unfolding or_empty
load_or_init order_id st = or_empty order_id (lookup order_id st.states)

-- `save_state` and `save_offset`
abbrev pub save_state : OrderState → Stores → Stores
save_state s st = record st { states = insert s.order_id s st.states }

abbrev pub save_offset : String → ℕ → Stores → Stores
save_offset worker offset st = record st { offsets = insert worker offset st.offsets }

abbrev pub report : ProjectionRecord → Action → ℕ → ProjectionProcessResult
report r action version = record {
  offset = r.offset;
  order_id = r.event.order_id;
  event_sequence = r.event.sequence;
  action = action;
  projected_version = version;
}

-- The last part of `process_record`: both saves, behind the reducer.
save_reduced :
    String
    → ProjectionRecord
    → Stores
    → Result Failure OrderState
    → Result Failure ProjectionProcessResult × Stores
save_reduced worker r st (err f) = (err f, st)
save_reduced worker r st (ok s) =
    (ok (report r applied s.version), save_offset worker r.offset (save_state s st))

-- `ProjectionWorker.process_record`
unfoldable pub process_record :
    String → ProjectionRecord → Stores → Result Failure ProjectionProcessResult × Stores
unfolding already_consumed load_or_init save_reduced
process_record worker r st =
    let current = load_or_init r.event.order_id st in
    if already_consumed r.offset (lookup worker st.offsets)
    then (ok (report r skipped_already_consumed current.version), st)
    else if leb r.event.sequence current.version
    then (ok (report r skipped_already_projected current.version), save_offset worker r.offset st)
    else if ltb (current.version + 1) r.event.sequence
    then (err (sequence_gap (current.version + 1) r.event.sequence), st)
    else save_reduced worker r st (reduce_order_event current r.event)

-- `ProjectionWorker.replay`: a raise ends the loop and leaves what was saved before it.
replay_rest :
    Result Failure ProjectionProcessResult
    → Result Failure (List ProjectionProcessResult) × Stores
    → Stores
    → Result Failure (List ProjectionProcessResult) × Stores
replay_rest (err f) rest st = (err f, st)
replay_rest (ok x) (ok xs, st') st = (ok (x ∷ xs), st')
replay_rest (ok x) (err f, st') st = (err f, st')

unfoldable pub replay :
    String → List ProjectionRecord → Stores → Result Failure (List ProjectionProcessResult) × Stores
unfolding replay_rest
replay worker [] st = (ok [], st)
replay worker (r ∷ rs) st =
    let (x, st') = process_record worker r st in
    let rest = replay worker rs st' in replay_rest x rest st'
