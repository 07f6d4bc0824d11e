-- ===== src/Postgres/WriteSide.antt =====
-- src/pipeline/transactional/postgres_write_side.py: `PostgresTransactionalWriteSide`. The steps that
-- both placements run inside the unit of work stand here; its two flows are the child modules'.
pub mod Flows
pub mod Tracing
pub mod Closing
pub mod Transparency
pub mod Writes
pub mod Settlement
pub mod Atomicity
use streaming_system_compass.Base.{
  ℕ, Bool, Option, none, some, List, [], ◌∷◌, String, last?, if◌then◌else◌,
}
use streaming_system_compass.Base.Result.{Result, ok, err}
use streaming_system_compass.Base.Action.{Action, ◌>>=◌, ◌>>◌, return, raise, lift}
use streaming_system_compass.Failure.{Failure}
use streaming_system_compass.Money.{decimal}
use streaming_system_compass.Order.{OrderEvent, Stamp}
use streaming_system_compass.Order.Aggregate.{new_aggregate, OrderAggregate}
use streaming_system_compass.Transition.{
  ValidationContext, ValidationDecision, EnforcementAction, allow, block,
}
use streaming_system_compass.Transition.Runtime.{
  ValidationRuntime, ValidationDecisionWithRuleEvidence, decide_with_rule_evidence,
}
use streaming_system_compass.Storage.Idempotency.{
  RequestSignature, IdempotencyDecision, IdempotencyVerdict, miss,
}
use streaming_system_compass.Admission.{is_admitted}
use streaming_system_compass.Registry.{validation_context, run_command}
use streaming_system_compass.Postgres.Session.{Session}
use streaming_system_compass.Postgres.IdempotencyStore.{check_request, record_request}
use streaming_system_compass.Postgres.Trace.{
  ValidationPlacement, Checkpoint, authoritative_idempotency_check_returned,
  concurrency_preparation_returned, append_admission_returned, idempotency_persistence_returned,
}
use streaming_system_compass.Postgres.UnitOfWork.{UnitOfWork, on_session, uow_rollback}
use streaming_system_compass.Postgres.Gate.{Gate, gate_prepare, gate_append}
use streaming_system_compass.Postgres.Delivery.{
  PostgresWriteSideResult, Collector, CommandResult, finalize_result, record_checkpoint,
  accepted_event_from_replay, accepted, replay, conflict, admission_rejected,
}
use streaming_system_compass.Base.Result
use streaming_system_compass.Order.Aggregate
use streaming_system_compass.Storage.Idempotency

-- A validation runtime that has `decide_with_rule_evidence`, or a substitute with `decide` only.
pub data Validation : Type 0 where
  with_evidence : ValidationRuntime → Validation
  decide_only : (OrderEvent → ValidationContext → ValidationDecision) → Validation

-- The collaborators of `__init__`: the runtime, the gate that the factory builds and the placement.
pub record WriteSide : Type 0 where
  pub validation : Validation
  pub gate : Gate
  pub validation_placement : ValidationPlacement

-- The decision, and the carrier that it came with.
abbrev pub Validated : Type 0
Validated = ValidationDecision × Option ValidationDecisionWithRuleEvidence

-- `_invoke_validation`
unfoldable pub invoke_validation :
    Validation → OrderEvent → ValidationContext → Result Failure Validated
invoke_validation (decide_only decide) candidate context = ok (decide candidate context, none)
invoke_validation (with_evidence runtime) candidate context =
    Result.◌>>=◌ (decide_with_rule_evidence runtime candidate context)
      λ carrier. ok (carrier.decision, some carrier)

-- A candidate, what it is validated against, and the version that it expects.
pub record Proposal : Type 0 where
  pub candidate : OrderEvent
  pub context : ValidationContext
  pub expected_current_version : ℕ

-- `_rehydrate_aggregate_from_history`
unfoldable pub rehydrate_from_history : String → List OrderEvent → Result Failure OrderAggregate
rehydrate_from_history order_id history =
    Result.◌>>=◌ (new_aggregate order_id) λ aggregate. Aggregate.replay aggregate history

-- From the loaded history to the candidate: rehydration, context, `build_candidate_event`.
unfoldable pub make_proposal : Stamp → RequestSignature → List OrderEvent → Result Failure Proposal
unfolding rehydrate_from_history validation_context run_command
make_proposal stamp signature history =
    Result.◌>>=◌ (rehydrate_from_history signature.order_id history) λ aggregate.
      Result.◌>>=◌
        (run_command signature.command_type aggregate stamp signature.request_id
          (decimal signature.amount))
        λ candidate. ok (record {
          candidate = candidate;
          context = validation_context aggregate (last? history);
          expected_current_version = aggregate.current_version;
        })

module _ {D : Type 0} (db : Session D) (writer : WriteSide) (signature : RequestSignature) where
  -- `uow.rollback(); return _finalize_result(result, trace_collector)`
  unfoldable pub stop :
      Option Collector → PostgresWriteSideResult → Action (UnitOfWork D) CommandResult
  stop c result = do uow_rollback db; lift (finalize_result result c)

  -- From `idempotency_store.record` to the accepted result.
  unfoldable pub persist :
      Option Collector → PostgresWriteSideResult → OrderEvent → Action (UnitOfWork D) CommandResult
  persist c result candidate = do
    on_session (record_request db signature candidate)
    c' ← lift (record_checkpoint idempotency_persistence_returned c)
    lift
        (finalize_result (record result { outcome = accepted; accepted_event = some candidate }) c')

  -- From `append_if_admitted` on. `result` has what was decided before.
  unfoldable pub append_candidate :
      Option Collector
      → PostgresWriteSideResult
      → List String
      → Proposal
      → Action (UnitOfWork D) CommandResult
  unfolding persist stop
  append_candidate c result prepared proposal = do
    admission ←
        on_session
          (gate_append db writer.gate prepared proposal.candidate proposal.expected_current_version)
    c' ← lift (record_checkpoint append_admission_returned c)
    let result' = record result {
      outcome = admission_rejected;
      accepted_event = none;
      admission_result = some admission;
    }
    if is_admitted admission.verdict then persist c' result' proposal.candidate else stop c' result'

  -- From `prepare_stream` on, the gate being new; `k` is what follows an admission.
  unfoldable pub prepare_writer :
      Option Collector
      → PostgresWriteSideResult
      → (Option Collector
          → PostgresWriteSideResult
          → List String
          → Action (UnitOfWork D) CommandResult)
      → Action (UnitOfWork D) CommandResult
  unfolding stop
  prepare_writer c result k = do
    stream ← on_session (gate_prepare db writer.gate [] signature.order_id)
    c' ← lift (record_checkpoint concurrency_preparation_returned c)
    let result' = record result {
      outcome = admission_rejected;
      stream_admission_result = some (stream.0);
    }
    if is_admitted (stream.0).verdict then k c' result' (stream.1) else stop c' result'

  -- The returns on REPLAY and CONFLICT; `k` is what follows a MISS.
  unfoldable pub by_verdict :
      Option Collector
      → PostgresWriteSideResult
      → IdempotencyVerdict
      → Action (UnitOfWork D) CommandResult
      → Action (UnitOfWork D) CommandResult
  unfolding stop
  by_verdict c result miss k = k
  by_verdict c result Idempotency.replay k = do
    uow_rollback db
    prior ← lift (accepted_event_from_replay result.idempotency_decision)
    lift (finalize_result (record result { outcome = replay; accepted_event = some prior }) c)
  by_verdict c result Idempotency.conflict k = stop c (record result { outcome = conflict })

  -- From the authoritative `idempotency_store.check` on.
  unfoldable pub check_authoritatively :
      Option Collector
      → (IdempotencyDecision → PostgresWriteSideResult)
      → (Option Collector → PostgresWriteSideResult → Action (UnitOfWork D) CommandResult)
      → Action (UnitOfWork D) CommandResult
  unfolding by_verdict
  check_authoritatively c base k = do
    decision ← on_session (check_request db signature)
    c' ← lift (record_checkpoint authoritative_idempotency_check_returned c)
    by_verdict c' (base decision) decision.verdict (k c' (base decision))
