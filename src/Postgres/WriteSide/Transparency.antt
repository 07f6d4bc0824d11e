-- ===== src/Postgres/WriteSide/Transparency.antt =====
-- src/pipeline/transactional/postgres_write_side.py: the traced operations beside the plain ones.
use streaming_system_compass.Base.{none, some, List, [], ◌∷◌, ◌++◌, String, ◌≡◌, refl, sym, ◌∙◌, ap}
use streaming_system_compass.Base.Result.{Result, ok, err}
use streaming_system_compass.Base.Action.{resume, lift}
use streaming_system_compass.Failure.{Failure}
use streaming_system_compass.Decimal.{Decimal}
use streaming_system_compass.Order.{Stamp, CommandType}
use streaming_system_compass.Storage.Idempotency.{
  RequestSignature, IdempotencyDecision, IdempotencyVerdict, miss,
}
use streaming_system_compass.Postgres.Session.{Session}
use streaming_system_compass.Postgres.EventStore.{load_history}
use streaming_system_compass.Postgres.IdempotencyStore.{check_request}
use streaming_system_compass.Postgres.Trace.{
  ValidationPlacement, in_transaction, pre_transaction, Checkpoint, execution_trace, is_prefix,
  has_duplicates, member, canonical_checkpoints, terminal_checkpoint,
  preliminary_idempotency_check_returned, accepted_history_observed, validation_returned,
  business_uow_reached, authoritative_idempotency_check_returned, concurrency_preparation_returned,
  append_admission_returned,
}
use streaming_system_compass.Postgres.UnitOfWork.{UnitOfWork, on_session}
use streaming_system_compass.Postgres.Delivery.{
  PostgresWriteSideResult, bare_result, result_of, new_collector, collect, record_checkpoint,
  finalize_result, execution, is_allowed_terminal, accepted_event_from_replay, validation_blocked,
  admission_rejected,
}
use streaming_system_compass.Postgres.WriteSide.{
  WriteSide, Proposal, Validated, invoke_validation, make_proposal,
}
use streaming_system_compass.Postgres.WriteSide.Flows.{
  Reading, returned, observed, allows, validated_result, finally_rollback, validate_inside,
  propose_inside, body_inside, execute_in_transaction, read_on, read_phase, body_after,
  validate_before, after_reading, execute_pre_transaction, execute_at, execute_command,
  command_signature, create_order, pay_order, create_order_with_trace, pay_order_with_trace,
}
use streaming_system_compass.Postgres.WriteSide.Tracing.{
  deliver, delivered, Agree, resume-Agree, if-Agree, collected_at, stop-Agree,
  append_candidate-Agree, prepare_writer-Agree, check_authoritatively-Agree,
}
use streaming_system_compass.Postgres.WriteSide.Closing.{
  with_uow-Agree, observed_before, trace_reading, traced_reading, resume-traced_reading,
  finally-traced_reading,
}
use streaming_system_compass.Storage.Idempotency

-- The checkpoints that the flow inside the transaction has passed when it validates.
abbrev validating_inside : List Checkpoint
validating_inside =
    business_uow_reached ∷ authoritative_idempotency_check_returned
    ∷ concurrency_preparation_returned ∷ accepted_history_observed ∷ []

abbrev validated_inside : List Checkpoint
validated_inside = validating_inside ++ validation_returned ∷ []

abbrev prepared_inside : List Checkpoint
prepared_inside =
    business_uow_reached ∷ authoritative_idempotency_check_returned
    ∷ concurrency_preparation_returned ∷ []

abbrev validated_before : List Checkpoint
validated_before = observed_before ++ validation_returned ∷ []

abbrev entered_after : List Checkpoint
entered_after = validated_before ++ business_uow_reached ∷ []

abbrev checked_after : List Checkpoint
checked_after = entered_after ++ authoritative_idempotency_check_returned ∷ []

abbrev prepared_after : List Checkpoint
prepared_after = checked_after ++ concurrency_preparation_returned ∷ []

module _ {D : Type 0} (db : Session D) (writer : WriteSide) (stamp : Stamp)
    (signature : RequestSignature) where
  validate_inside-Agree :
      (r : PostgresWriteSideResult) (prepared : List String) (p : Proposal) (u : UnitOfWork D)
      → Agree (validate_inside db writer stamp signature none r prepared p u) (
          validate_inside db writer stamp signature
            (collected_at in_transaction validating_inside)
            r
            prepared
            p
            u)
  unfolding validate_inside record_checkpoint collect execution_trace is_prefix has_duplicates
      member canonical_checkpoints finalize_result execution is_allowed_terminal terminal_checkpoint
      deliver result_of
  validate_inside-Agree r prepared p u =
      resume-Agree _ _ (lift (invoke_validation writer.validation p.candidate p.context) u) λ v s.
        if-Agree (allows (v.0).action) _ _ _ _ s
          (append_candidate-Agree db writer signature (collected_at in_transaction validated_inside)
            (collected_at in_transaction (validated_inside ++ append_admission_returned ∷ []))
            (collected_at in_transaction (canonical_checkpoints in_transaction)) refl (λ _. refl)
            refl (λ _. refl) (validated_result r v) prepared p s)
          (stop-Agree db writer signature validation_blocked
            (collected_at in_transaction validated_inside) (λ _. refl) (validated_result r v) s)

  propose_inside-Agree :
      (r : PostgresWriteSideResult) (prepared : List String) (u : UnitOfWork D)
      → Agree (propose_inside db writer stamp signature none r prepared u) (
          propose_inside db writer stamp signature
            (collected_at in_transaction prepared_inside)
            r
            prepared
            u)
  unfolding propose_inside record_checkpoint collect execution_trace is_prefix has_duplicates member
      canonical_checkpoints
  propose_inside-Agree r prepared u =
      resume-Agree _ _ (on_session (load_history db signature.order_id) u) λ history s.
        resume-Agree _ _ (lift (make_proposal stamp signature history) s)
          λ p s'. validate_inside-Agree r prepared p s'

  execute_in_transaction-Agree :
      (s : D)
      → Agree
          (execute_in_transaction db writer stamp signature none s)
          (execute_in_transaction db writer stamp signature (some (new_collector in_transaction)) s)
  unfolding execute_in_transaction body_inside record_checkpoint collect execution_trace is_prefix
      has_duplicates member canonical_checkpoints finalize_result execution is_allowed_terminal
      terminal_checkpoint deliver result_of
  execute_in_transaction-Agree = with_uow-Agree db _ _ λ u.
      check_authoritatively-Agree db writer signature
        (collected_at in_transaction (business_uow_reached ∷ []))
        (collected_at in_transaction
          (business_uow_reached ∷ authoritative_idempotency_check_returned ∷ []))
        refl (λ _. refl) (λ _. refl) (bare_result admission_rejected none) _
        (λ r u'.
          prepare_writer-Agree db writer signature
            (collected_at in_transaction
              (business_uow_reached ∷ authoritative_idempotency_check_returned ∷ []))
            (collected_at in_transaction prepared_inside) refl (λ _. refl)
            (propose_inside db writer stamp signature) propose_inside-Agree r u')
        u

  body_after-Agree :
      (v : Validated) (p : Proposal) (u : UnitOfWork D)
      → Agree (body_after db writer stamp signature none v p u) (
          body_after db writer stamp signature
            (collected_at pre_transaction validated_before)
            v
            p
            u)
  unfolding body_after record_checkpoint collect execution_trace is_prefix has_duplicates member
      canonical_checkpoints finalize_result execution is_allowed_terminal terminal_checkpoint
      deliver result_of
  body_after-Agree v p u =
      check_authoritatively-Agree db writer signature (collected_at pre_transaction entered_after)
        (collected_at pre_transaction checked_after) refl (λ _. refl) (λ _. refl)
        (λ decision. validated_result (bare_result admission_rejected none decision) v) _
        (λ r u'.
          prepare_writer-Agree db writer signature (collected_at pre_transaction checked_after)
            (collected_at pre_transaction prepared_after) refl (λ _. refl) _
            (λ r' prepared.
              append_candidate-Agree db writer signature
                (collected_at pre_transaction prepared_after)
                (collected_at pre_transaction (prepared_after ++ append_admission_returned ∷ []))
                (collected_at pre_transaction (canonical_checkpoints pre_transaction)) refl
                (λ _. refl) refl (λ _. refl) r' prepared p)
            r u')
        u

  validate_before-Agree :
      (d : IdempotencyDecision) (p : Proposal) (s : D)
      → Agree (validate_before db writer stamp signature none d p s) (
          validate_before db writer stamp signature
            (collected_at pre_transaction observed_before)
            d
            p
            s)
  unfolding validate_before record_checkpoint collect execution_trace is_prefix has_duplicates
      member canonical_checkpoints finalize_result execution is_allowed_terminal terminal_checkpoint
      delivered deliver result_of
  validate_before-Agree d p s =
      resume-Agree _ _ (lift (invoke_validation writer.validation p.candidate p.context) s) λ v s'.
        if-Agree (allows (v.0).action) _ _ _ _ s'
          (with_uow-Agree db (body_after db writer stamp signature none v p)
            (body_after db writer stamp signature (collected_at pre_transaction validated_before) v
              p)
            (body_after-Agree v p) s')
          refl

  read_on-traced_reading :
      (d : IdempotencyDecision) (v : IdempotencyVerdict) (s : D)
      → read_on db writer stamp signature
          (collected_at pre_transaction (preliminary_idempotency_check_returned ∷ []))
          d
          v
          s
        ≡ traced_reading (read_on db writer stamp signature none d v s)
  unfolding read_on record_checkpoint collect execution_trace is_prefix has_duplicates member
      canonical_checkpoints finalize_result execution is_allowed_terminal terminal_checkpoint
      result_of trace_reading traced_reading
  read_on-traced_reading d miss s =
      resume-traced_reading _ _ (load_history db signature.order_id s) λ _ _. refl
  read_on-traced_reading d Idempotency.replay s =
      resume-traced_reading _ _ (lift (accepted_event_from_replay d) s) λ _ _. refl
  read_on-traced_reading d Idempotency.conflict s = refl

  read_phase-traced_reading :
      (s : D)
      → read_phase db writer stamp signature (some (new_collector pre_transaction)) s
        ≡ traced_reading (read_phase db writer stamp signature none s)
  unfolding read_phase record_checkpoint collect execution_trace is_prefix has_duplicates member
      canonical_checkpoints
  read_phase-traced_reading s =
      resume-traced_reading _ _ (check_request db signature s)
        λ d s'. read_on-traced_reading d d.verdict s'

  -- The plain read phase leaves no collector.
  after_reading-Agree :
      (m : Result Failure Reading × D)
      → Agree
          (resume (after_reading db writer stamp signature) m)
          (resume (after_reading db writer stamp signature) (traced_reading m))
  unfolding after_reading traced_reading trace_reading delivered deliver result_of
  after_reading-Agree (ok (returned r), s) = refl
  after_reading-Agree (ok (observed (some c) d history), s) = refl
  after_reading-Agree (ok (observed none d history), s) =
      resume-Agree _ _ (lift (make_proposal stamp signature history) s)
        λ p s'. validate_before-Agree d p s'
  after_reading-Agree (err e, s) = refl

  execute_pre_transaction-Agree :
      (s : D)
      → Agree (execute_pre_transaction db writer stamp signature none s) (
          execute_pre_transaction db writer stamp signature
            (some (new_collector pre_transaction))
            s)
  unfolding execute_pre_transaction
  execute_pre_transaction-Agree s =
      after_reading-Agree (finally_rollback db (read_phase db writer stamp signature none s))
      ∙ ap (λ m. delivered (resume (after_reading db writer stamp signature) m))
          (sym (
            ap (finally_rollback db) (read_phase-traced_reading s)
            ∙ finally-traced_reading db (read_phase db writer stamp signature none s)))

  execute_at-Agree :
      (placement : ValidationPlacement) (s : D)
      → Agree
          (execute_at db writer stamp signature placement none s)
          (execute_at db writer stamp signature placement (some (new_collector placement)) s)
  unfolding execute_at
  execute_at-Agree in_transaction = execute_in_transaction-Agree
  execute_at-Agree pre_transaction = execute_pre_transaction-Agree

module _ {D : Type 0} (db : Session D) (writer : WriteSide) (stamp : Stamp) where
  -- Whatever the database does, the validation, the gate and the placement: a traced create ends with
  -- the primary result of the plain one, or with its exception, and leaves the database in the same
  -- state. So the collector and the execution envelope, which check every checkpoint and the terminal
  -- one, never raise.
  pub create_order_with_trace-transparent :
      (request_id order_id : String) (amount : Decimal) (s : D)
      → delivered (create_order_with_trace db writer stamp request_id order_id amount s)
        ≡ delivered (create_order db writer stamp request_id order_id amount s)
  unfolding create_order_with_trace create_order execute_command
  create_order_with_trace-transparent request_id order_id amount s = sym (
      execute_at-Agree db writer stamp
        (command_signature db writer stamp CommandType.create request_id order_id amount)
        writer.validation_placement s)

  -- The same of a traced payment and the plain one.
  pub pay_order_with_trace-transparent :
      (request_id order_id : String) (amount : Decimal) (s : D)
      → delivered (pay_order_with_trace db writer stamp request_id order_id amount s)
        ≡ delivered (pay_order db writer stamp request_id order_id amount s)
  unfolding pay_order_with_trace pay_order execute_command
  pay_order_with_trace-transparent request_id order_id amount s = sym (
      execute_at-Agree db writer stamp
        (command_signature db writer stamp CommandType.pay request_id order_id amount)
        writer.validation_placement s)
