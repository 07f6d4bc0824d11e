-- ===== src/Postgres/Delivery.antt =====
-- src/pipeline/transactional/postgres_write_side.py: the result types, the trace collector and what
-- a traced call returns.
use streaming_system_compass.Base.{Bool, true, false, not, Option, none, some, List, [], ◌∷◌, ◌++◌}
use streaming_system_compass.Base.Result.{Result, ok, err, ◌>>=◌, ◌>>◌, raise_if}
use streaming_system_compass.Failure.{
  Failure, no_checkpoint, incompatible_terminal, replay_without_record,
}
use streaming_system_compass.Order.{OrderEvent}
use streaming_system_compass.Order.Contract.{OrderRuleViolationEvidence}
use streaming_system_compass.Transition.{ValidationDecision}
use streaming_system_compass.Transition.Runtime.{ValidationDecisionWithRuleEvidence}
use streaming_system_compass.Storage.Idempotency.{IdempotencyDecision, IdempotencyRecord}
use streaming_system_compass.Admission.{StreamAdmissionResult, AdmissionResult}
use streaming_system_compass.Postgres.Trace.{
  ValidationPlacement, pre_transaction, Checkpoint, Trace, execution_trace, terminal_checkpoint,
  preliminary_idempotency_check_returned, validation_returned,
  authoritative_idempotency_check_returned, concurrency_preparation_returned,
  append_admission_returned, idempotency_persistence_returned,
}

pub data PostgresWriteSideOutcome : Type 0 where
  accepted replay conflict validation_blocked admission_rejected : PostgresWriteSideOutcome

-- A carrier, where there is one, holds the decision beside it: `invoke_validation` makes both.
pub record PostgresWriteSideResult : Type 0 where
  pub outcome : PostgresWriteSideOutcome
  pub accepted_event : Option OrderEvent
  pub idempotency_decision : IdempotencyDecision
  pub stream_admission_result : Option StreamAdmissionResult
  pub validation_decision : Option ValidationDecision
  pub admission_result : Option AdmissionResult
  pub validation_decision_evidence : Option ValidationDecisionWithRuleEvidence

-- The constructor with its defaults.
abbrev pub bare_result :
    PostgresWriteSideOutcome → Option OrderEvent → IdempotencyDecision → PostgresWriteSideResult
bare_result outcome accepted_event decision = record {
  outcome = outcome;
  accepted_event = accepted_event;
  idempotency_decision = decision;
  stream_admission_result = none;
  validation_decision = none;
  admission_result = none;
  validation_decision_evidence = none;
}

violation_of : Option ValidationDecisionWithRuleEvidence → Option OrderRuleViolationEvidence
violation_of none = none
violation_of (some carrier) = carrier.observed_violation

-- `observed_rule_violation`
unfoldable pub observed_rule_violation : PostgresWriteSideResult → Option OrderRuleViolationEvidence
unfolding violation_of
observed_rule_violation result = violation_of result.validation_decision_evidence

accepted_event_of : Option IdempotencyRecord → Result Failure OrderEvent
accepted_event_of none = err replay_without_record
accepted_event_of (some r) = ok r.accepted_event

-- `_accepted_event_from_replay`
unfoldable pub accepted_event_from_replay : IdempotencyDecision → Result Failure OrderEvent
unfolding accepted_event_of
accepted_event_from_replay decision = accepted_event_of decision.prior

-- `_ALLOWED_EXECUTION_TERMINALS`
unfoldable pub is_allowed_terminal :
    ValidationPlacement → PostgresWriteSideOutcome → Option Checkpoint → Bool
is_allowed_terminal pre_transaction replay (some preliminary_idempotency_check_returned) = true
is_allowed_terminal pre_transaction conflict (some preliminary_idempotency_check_returned) = true
is_allowed_terminal _ replay (some authoritative_idempotency_check_returned) = true
is_allowed_terminal _ conflict (some authoritative_idempotency_check_returned) = true
is_allowed_terminal _ validation_blocked (some validation_returned) = true
is_allowed_terminal _ admission_rejected (some concurrency_preparation_returned) = true
is_allowed_terminal _ admission_rejected (some append_admission_returned) = true
is_allowed_terminal _ accepted (some idempotency_persistence_returned) = true
is_allowed_terminal _ _ _ = false

pub record PostgresWriteSideExecution : Type 0 where
  pub result : PostgresWriteSideResult
  pub trace : Trace

-- `PostgresWriteSideExecution(...)` with its `__post_init__`
unfoldable pub execution :
    PostgresWriteSideResult → Trace → Result Failure PostgresWriteSideExecution
unfolding is_allowed_terminal terminal_checkpoint
execution result trace = do
  raise_if
      (not
        (is_allowed_terminal trace.validation_placement result.outcome (terminal_checkpoint trace)))
      incompatible_terminal
  ok (record { result = result; trace = trace })

-- `_PostgresWriteSideTraceCollector`
pub record Collector : Type 0 where
  pub validation_placement : ValidationPlacement
  pub trace : Option Trace

abbrev pub new_collector : ValidationPlacement → Collector
new_collector placement = record { validation_placement = placement; trace = none }

abbrev checkpoints_of : Option Trace → List Checkpoint
checkpoints_of none = []
checkpoints_of (some trace) = trace.checkpoints

-- `record`
unfoldable pub collect : Checkpoint → Collector → Result Failure Collector
unfolding execution_trace
collect checkpoint collector = do
  trace ←
      execution_trace collector.validation_placement
        (checkpoints_of collector.trace ++ checkpoint ∷ [])
  ok (record collector { trace = some trace })

-- `trace`
collected : Option Trace → Result Failure Trace
collected none = err no_checkpoint
collected (some trace) = ok trace

-- `_record_checkpoint`
unfoldable pub record_checkpoint : Checkpoint → Option Collector → Result Failure (Option Collector)
unfolding collect
record_checkpoint checkpoint none = ok none
record_checkpoint checkpoint (some collector) = do
  collector' ← collect checkpoint collector
  ok (some collector')

-- `_PostgresWriteSideCommandResult`
pub data CommandResult : Type 0 where
  plain : PostgresWriteSideResult → CommandResult
  traced : PostgresWriteSideExecution → CommandResult

-- `_finalize_result`
unfoldable pub finalize_result :
    PostgresWriteSideResult → Option Collector → Result Failure CommandResult
unfolding collected execution
finalize_result result none = ok (plain result)
finalize_result result (some collector) = do
  trace ← collected collector.trace
  e ← execution result trace
  ok (traced e)

-- The primary result of either.
unfoldable pub result_of : CommandResult → PostgresWriteSideResult
result_of (plain r) = r
result_of (traced e) = e.result
