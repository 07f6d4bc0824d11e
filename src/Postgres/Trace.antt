-- ===== src/Postgres/Trace.antt =====
-- src/pipeline/transactional/postgres_write_side_execution_trace.py, and the placement of
-- postgres_write_side_config.py.
use streaming_system_compass.Base.{
  ℕ, Bool, true, false, not, ◌&&◌, ◌||◌, Option, List, [], ◌∷◌, last?, ◌==◌,
}
use streaming_system_compass.Base.Result.{Result, ok, ◌>>◌, raise_if}
use streaming_system_compass.Failure.{Failure, no_canonical_prefix}

pub data ValidationPlacement : Type 0 where
  in_transaction pre_transaction : ValidationPlacement

-- `PostgresWriteSideExecutionCheckpoint`
pub data Checkpoint : Type 0 where
  preliminary_idempotency_check_returned accepted_history_observed : Checkpoint
  validation_returned business_uow_reached authoritative_idempotency_check_returned : Checkpoint
  concurrency_preparation_returned append_admission_returned : Checkpoint
  idempotency_persistence_returned : Checkpoint

-- `==` on checkpoints, by their number in the order of the enum.
abbrev position : Checkpoint → ℕ
position preliminary_idempotency_check_returned = 0
position accepted_history_observed = 1
position validation_returned = 2
position business_uow_reached = 3
position authoritative_idempotency_check_returned = 4
position concurrency_preparation_returned = 5
position append_admission_returned = 6
position idempotency_persistence_returned = 7

abbrev pub checkpoint_eq : Checkpoint → Checkpoint → Bool
checkpoint_eq a b = position a == position b

-- `_canonical_checkpoints_for`
unfoldable pub canonical_checkpoints : ValidationPlacement → List Checkpoint
canonical_checkpoints pre_transaction =
    preliminary_idempotency_check_returned ∷ accepted_history_observed ∷ validation_returned
    ∷ business_uow_reached ∷ authoritative_idempotency_check_returned
    ∷ concurrency_preparation_returned ∷ append_admission_returned
    ∷ idempotency_persistence_returned ∷ []
canonical_checkpoints in_transaction =
    business_uow_reached ∷ authoritative_idempotency_check_returned
    ∷ concurrency_preparation_returned ∷ accepted_history_observed ∷ validation_returned
    ∷ append_admission_returned ∷ idempotency_persistence_returned ∷ []

-- `checkpoint in …`
unfoldable pub member : Checkpoint → List Checkpoint → Bool
member c [] = false
member c (x ∷ xs) = let rest = member c xs in checkpoint_eq c x || rest

-- `len(set(checkpoints)) != len(checkpoints)`
unfoldable pub has_duplicates : List Checkpoint → Bool
unfolding member
has_duplicates [] = false
has_duplicates (x ∷ xs) = let rest = has_duplicates xs in member x xs || rest

-- `checkpoints == canonical[: len(checkpoints)]`
unfoldable pub is_prefix : List Checkpoint → List Checkpoint → Bool
is_prefix [] ys = true
is_prefix (x ∷ xs) [] = false
is_prefix (x ∷ xs) (y ∷ ys) = let rest = is_prefix xs ys in checkpoint_eq x y && rest

pub record Trace : Type 0 where
  pub validation_placement : ValidationPlacement
  pub checkpoints : List Checkpoint

abbrev is_empty : List Checkpoint → Bool
is_empty [] = true
is_empty (_ ∷ _) = false

-- `PostgresWriteSideExecutionTrace(...)` with its `__post_init__`
unfoldable pub execution_trace : ValidationPlacement → List Checkpoint → Result Failure Trace
unfolding has_duplicates is_prefix canonical_checkpoints member
execution_trace placement checkpoints = do
  raise_if (is_empty checkpoints) no_canonical_prefix
  raise_if (has_duplicates checkpoints) no_canonical_prefix
  raise_if (not (is_prefix checkpoints (canonical_checkpoints placement))) no_canonical_prefix
  ok (record { validation_placement = placement; checkpoints = checkpoints })

-- `terminal_checkpoint`
unfoldable pub terminal_checkpoint : Trace → Option Checkpoint
terminal_checkpoint trace = last? trace.checkpoints
