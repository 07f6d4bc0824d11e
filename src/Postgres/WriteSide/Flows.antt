-- ===== src/Postgres/WriteSide/Flows.antt =====
-- src/pipeline/transactional/postgres_write_side.py: the flows of the two validation placements, the
-- dispatch between them and the public operations.
use streaming_system_compass.Base.{
  Bool, true, false, Option, none, some, List, String, if◌then◌else◌,
}
use streaming_system_compass.Base.Result.{Result}
use streaming_system_compass.Base.Action.{Action, resume, ◌>>=◌, ◌>>◌, return, lift}
use streaming_system_compass.Failure.{Failure}
use streaming_system_compass.Decimal.{Decimal}
use streaming_system_compass.Order.{OrderEvent, Stamp, CommandType}
use streaming_system_compass.Transition.{EnforcementAction, allow, block}
use streaming_system_compass.Storage.Idempotency.{
  RequestSignature, IdempotencyDecision, IdempotencyVerdict, miss,
}
use streaming_system_compass.Postgres.Session.{Session}
use streaming_system_compass.Postgres.EventStore.{load_history}
use streaming_system_compass.Postgres.IdempotencyStore.{check_request}
use streaming_system_compass.Postgres.Trace.{
  ValidationPlacement, in_transaction, pre_transaction, preliminary_idempotency_check_returned,
  accepted_history_observed, validation_returned, business_uow_reached,
}
use streaming_system_compass.Postgres.UnitOfWork.{UnitOfWork, on_session, with_uow}
use streaming_system_compass.Postgres.Delivery.{
  PostgresWriteSideResult, bare_result, Collector, new_collector, CommandResult, finalize_result,
  record_checkpoint, accepted_event_from_replay, replay, conflict, validation_blocked,
  admission_rejected,
}
use streaming_system_compass.Postgres.WriteSide.{
  WriteSide, Validated, Proposal, invoke_validation, make_proposal, stop, append_candidate,
  prepare_writer, check_authoritatively,
}
use streaming_system_compass.Storage.Idempotency

-- The fields that a validation adds to a result.
abbrev pub validated_result : PostgresWriteSideResult → Validated → PostgresWriteSideResult
validated_result result v = record result {
  validation_decision = some (v.0);
  validation_decision_evidence = v.1;
}

-- `validation_decision.action == EnforcementAction.ALLOW`
abbrev pub allows : EnforcementAction → Bool
allows allow = true
allows block = false

-- What the read phase before the transaction ends with: a result that is returned at once, or the
-- decision and the history.
pub data Reading : Type 0 where
  returned : CommandResult → Reading
  observed : Option Collector → IdempotencyDecision → List OrderEvent → Reading

-- `try: … finally: self._connection.rollback()`
unfoldable pub finally_rollback :
    {D A : Type 0} → Session D → Result Failure A × D → Result Failure A × D
finally_rollback db (r, s) = (db.rollback >> lift r) s

module _ {D : Type 0} (db : Session D) (writer : WriteSide) (stamp : Stamp) where
  module _ (signature : RequestSignature) where
    -- From `_invoke_validation` on, inside the unit of work.
    unfoldable pub validate_inside :
        Option Collector
        → PostgresWriteSideResult
        → List String
        → Proposal
        → Action (UnitOfWork D) CommandResult
    validate_inside c result prepared proposal = do
      v ← lift (invoke_validation writer.validation proposal.candidate proposal.context)
      c' ← lift (record_checkpoint validation_returned c)
      let result' = validated_result result v
      if allows (v.0).action
          then append_candidate db writer signature c' result' prepared proposal
          else stop db writer signature c' (record result' { outcome = validation_blocked })

    -- From `_rehydrate_aggregate` on, inside the unit of work.
    unfoldable pub propose_inside :
        Option Collector
        → PostgresWriteSideResult
        → List String
        → Action (UnitOfWork D) CommandResult
    unfolding validate_inside
    propose_inside c result prepared = do
      history ← on_session (load_history db signature.order_id)
      c' ← lift (record_checkpoint accepted_history_observed c)
      proposal ← lift (make_proposal stamp signature history)
      validate_inside c' result prepared proposal

    -- The body of the unit of work, validation inside.
    unfoldable pub body_inside : Option Collector → Action (UnitOfWork D) CommandResult
    unfolding propose_inside
    body_inside c = do
      c' ← lift (record_checkpoint business_uow_reached c)
      check_authoritatively db writer signature c' (bare_result admission_rejected none)
          λ c'' result. prepare_writer db writer signature c'' result propose_inside

    -- `_execute_in_transaction_command`
    unfoldable pub execute_in_transaction : Option Collector → Action D CommandResult
    unfolding body_inside
    execute_in_transaction c = with_uow db (body_inside c)

    -- The returns on REPLAY and CONFLICT of the preliminary check, or the history.
    unfoldable pub read_on :
        Option Collector → IdempotencyDecision → IdempotencyVerdict → Action D Reading
    read_on c decision miss = do
      history ← load_history db signature.order_id
      c' ← lift (record_checkpoint accepted_history_observed c)
      return (observed c' decision history)
    read_on c decision Idempotency.replay = do
      prior ← lift (accepted_event_from_replay decision)
      r ← lift (finalize_result (bare_result replay (some prior) decision) c)
      return (returned r)
    read_on c decision Idempotency.conflict = do
      r ← lift (finalize_result (bare_result conflict none decision) c)
      return (returned r)

    -- The `try` block before the transaction.
    unfoldable pub read_phase : Option Collector → Action D Reading
    unfolding read_on
    read_phase c = do
      decision ← check_request db signature
      c' ← lift (record_checkpoint preliminary_idempotency_check_returned c)
      read_on c' decision decision.verdict

    -- The body of the unit of work, the candidate validated before.
    unfoldable pub body_after :
        Option Collector → Validated → Proposal → Action (UnitOfWork D) CommandResult
    body_after c v proposal = do
      c' ← lift (record_checkpoint business_uow_reached c)
      check_authoritatively db writer signature c'
          (λ decision. validated_result (bare_result admission_rejected none decision) v)
          λ c'' result.
            prepare_writer db writer signature c'' result λ c3 result' prepared.
              append_candidate db writer signature c3 result' prepared proposal

    -- From `_invoke_validation` on, before the transaction.
    unfoldable pub validate_before :
        Option Collector → IdempotencyDecision → Proposal → Action D CommandResult
    unfolding body_after
    validate_before c decision proposal = do
      v ← lift (invoke_validation writer.validation proposal.candidate proposal.context)
      c' ← lift (record_checkpoint validation_returned c)
      if allows (v.0).action
          then with_uow db (body_after c' v proposal)
          else lift (
              finalize_result (validated_result (bare_result validation_blocked none decision) v)
                c')

    unfoldable pub after_reading : Reading → Action D CommandResult
    unfolding validate_before
    after_reading (returned r) = return r
    after_reading (observed c decision history) = do
      proposal ← lift (make_proposal stamp signature history)
      validate_before c decision proposal

    -- `_execute_pre_transaction_command`
    unfoldable pub execute_pre_transaction : Option Collector → Action D CommandResult
    unfolding read_phase after_reading finally_rollback
    execute_pre_transaction c s = resume after_reading (finally_rollback db (read_phase c s))

    unfoldable pub execute_at : ValidationPlacement → Option Collector → Action D CommandResult
    unfolding execute_in_transaction execute_pre_transaction
    execute_at in_transaction = execute_in_transaction
    execute_at pre_transaction = execute_pre_transaction

    -- `_execute_command`
    unfoldable pub execute_command : Option Collector → Action D CommandResult
    unfolding execute_at
    execute_command c = execute_at writer.validation_placement c

  abbrev pub command_signature : CommandType → String → String → Decimal → RequestSignature
  command_signature command_type request_id order_id amount = record {
    request_id = request_id;
    command_type = command_type;
    order_id = order_id;
    amount = amount;
  }

  -- `create_order` and `pay_order`
  unfoldable pub create_order : String → String → Decimal → Action D CommandResult
  unfolding execute_command
  create_order request_id order_id amount =
      execute_command (command_signature CommandType.create request_id order_id amount) none

  unfoldable pub pay_order : String → String → Decimal → Action D CommandResult
  unfolding execute_command
  pay_order request_id order_id amount =
      execute_command (command_signature CommandType.pay request_id order_id amount) none

  -- `create_order_with_trace` and `pay_order_with_trace`
  unfoldable pub create_order_with_trace : String → String → Decimal → Action D CommandResult
  unfolding execute_command
  create_order_with_trace request_id order_id amount =
      execute_command (command_signature CommandType.create request_id order_id amount)
        (some (new_collector writer.validation_placement))

  unfoldable pub pay_order_with_trace : String → String → Decimal → Action D CommandResult
  unfolding execute_command
  pay_order_with_trace request_id order_id amount =
      execute_command (command_signature CommandType.pay request_id order_id amount)
        (some (new_collector writer.validation_placement))
