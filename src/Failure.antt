-- ===== src/Failure.antt =====
-- The exceptions that the modelled code raises, one constructor for each `raise`, with the values
-- that its message interpolates where a later handler reads them.
use streaming_system_compass.Base.{ℕ, Bool, true, false, Option, String}

pub data Failure : Type 0 where
  -- core/common/money.py: MoneyValidationError, a ValueError
  float_money invalid_money unsupported_money nan_money infinite_money not_positive_money : Failure
  -- decimal.InvalidOperation from `quantize`, an ArithmeticError
  invalid_operation : Failure
  -- core/order/aggregate.py: ValueError
  empty_order_id empty_request_id already_created already_paid pay_before_create : Failure
  amount_not_total order_mismatch : Failure
  sequence_discontinuity : ℕ → ℕ → Failure
  -- storage/event_store.py: ValueError, with the two versions or the two sequences
  version_conflict : ℕ → ℕ → Failure
  continuity_broken : ℕ → ℕ → Failure
  -- pipeline/projection/reducer.py: ValueError
  reduce_order_mismatch reduce_created_not_init reduce_paid_not_created : Failure
  reduce_amount_mismatch : Failure
  reduce_sequence : ℕ → ℕ → Failure
  -- pipeline/projection/worker.py: ProjectionSequenceGapError, an Exception
  sequence_gap : ℕ → ℕ → Failure
  -- pipeline/projection/projection_snapshot_assisted_state_resolver.py: ValueError
  tail_order_mismatch : Failure
  tail_not_contiguous : ℕ → ℕ → Failure
  -- dataclass checks in __post_init__: TypeError and ValueError
  incoherent_evidence : Failure
  -- src/core/order/correctness_contract.py: ValueError
  no_definition invalid_contract : Failure
  -- src/compass/runtime: ValueError
  blank_reason blank_status unsupported_status status_conflict context_conflict : Failure
  invalid_result contradictory_evidence missing_rule_evidence : Failure
  -- src/compass/runtime/write_side_runtime_decision.py: a refusal, which is a ValueError
  decision_refused : Failure
  -- src/storage/errors.py: AppendVersionMismatchError is a ValueError too, the others are not
  append_version_mismatch : ℕ → ℕ → Failure
  stale_write_error append_conflict_error storage_infrastructure_error : Failure
  -- psycopg: UniqueViolation with its constraint name, LockNotAvailable, and any other error
  unique_violation : Option String → Failure
  lock_not_available database_error : Failure
  -- a database value that is no member of its enum: ValueError
  unknown_value : Failure
  -- src/pipeline/transactional: RuntimeError
  autocommit_enabled replay_without_record no_checkpoint lifecycle_misuse : Failure
  -- src/pipeline/transactional/postgres_write_side_execution_trace.py and
  -- postgres_write_side.py: ValueError
  no_canonical_prefix incompatible_terminal : Failure

-- `except ValueError`: which of them the handler takes.
unfoldable pub is_value_error : Failure → Bool
is_value_error Failure.invalid_operation = false
is_value_error (Failure.sequence_gap _ _) = false
is_value_error Failure.stale_write_error = false
is_value_error Failure.append_conflict_error = false
is_value_error Failure.storage_infrastructure_error = false
is_value_error (Failure.unique_violation _) = false
is_value_error Failure.lock_not_available = false
is_value_error Failure.database_error = false
is_value_error Failure.autocommit_enabled = false
is_value_error Failure.replay_without_record = false
is_value_error Failure.no_checkpoint = false
is_value_error Failure.lifecycle_misuse = false
is_value_error _ = true
