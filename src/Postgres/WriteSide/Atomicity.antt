-- ===== src/Postgres/WriteSide/Atomicity.antt =====
-- src/pipeline/transactional/postgres_write_side.py: what a call of the write side makes durable.
use streaming_system_compass.Base.{
  false, Bool-cases, Option, none, some, List, [], String, ◌≡◌, refl, ap, subst, ◌∙◌, inl, inr,
}
use streaming_system_compass.Base.Result.{Result, ok, err}
use streaming_system_compass.Base.Action.{resume}
use streaming_system_compass.Base.Triple.{
  Post, resume-Post, lift-Post, returned-Post, lifted-Post, failed-Post,
}
use streaming_system_compass.Failure.{Failure}
use streaming_system_compass.Order.{Stamp}
use streaming_system_compass.Storage.Idempotency.{
  RequestSignature, IdempotencyDecision, IdempotencyVerdict, miss,
}
use streaming_system_compass.Postgres.Session.{Session}
use streaming_system_compass.Postgres.Transaction.{Write, Ledger, IsOpen, IsTransactional}
use streaming_system_compass.Postgres.EventStore.{load_history, hydrate}
use streaming_system_compass.Postgres.Trace.{
  ValidationPlacement, in_transaction, pre_transaction, preliminary_idempotency_check_returned,
  accepted_history_observed, validation_returned, business_uow_reached,
}
use streaming_system_compass.Postgres.UnitOfWork.{UnitOfWork}
use streaming_system_compass.Postgres.Delivery.{
  PostgresWriteSideResult, bare_result, Collector, CommandResult, result_of, record_checkpoint,
  finalize_result, accepted_event_from_replay, replay, conflict, validation_blocked,
  admission_rejected,
}
use streaming_system_compass.Postgres.WriteSide.{
  WriteSide, Validated, Proposal, invoke_validation, make_proposal,
}
use streaming_system_compass.Postgres.WriteSide.Flows.{
  Reading, returned, observed, allows, validated_result, finally_rollback, validate_inside,
  propose_inside, body_inside, execute_in_transaction, read_on, read_phase, body_after,
  validate_before, after_reading, execute_pre_transaction, execute_at, execute_command,
}
use streaming_system_compass.Postgres.WriteSide.Writes.{
  is_accepted, Inside, Lost, Ended, attach-Post, finalize_result-Post, stop-Post,
  append_candidate-Post, prepare_writer-Post, check_authoritatively-Post, check_request-Post,
}
use streaming_system_compass.Postgres.WriteSide.Settlement.{Settled, Raised, with_uow-Post}
use streaming_system_compass.Storage.Idempotency

module _ {D : Type 0} (db : Session D) (ledger : Ledger D) (law : IsTransactional db ledger)
    (writer : WriteSide) (stamp : Stamp) (signature : RequestSignature) where
  validate_inside-Post :
      (p : List Write) (c : Option Collector) (r : PostgresWriteSideResult) (prepared : List String)
      (proposal : Proposal) (u : UnitOfWork D)
      → Inside db ledger p [] u
      → Post
          (Ended db ledger signature p)
          (Lost db ledger p)
          (validate_inside db writer stamp signature c r prepared proposal u)
  unfolding validate_inside
  validate_inside-Post p c r prepared proposal u h =
      lift-Post _ _ _ (invoke_validation writer.validation proposal.candidate proposal.context) u
        (λ v _.
          lift-Post _ _ _ (record_checkpoint validation_returned c) u
            (λ c' _. elim (Bool-cases (allows (v.0).action)) [
              | inl e ↦ rw e (
                  append_candidate-Post db ledger law writer signature p c' (validated_result r v)
                    prepared proposal u h)
              | inr e ↦ rw e (
                  stop-Post db ledger law writer signature p c'
                    (record (validated_result r v) { outcome = validation_blocked }) u refl
                    (h.0).published_eq)
            ])
            (h.0).published_eq)
        (h.0).published_eq

  load_history-Post :
      (p w : List Write) (s : D)
      → IsOpen db ledger p w s
      → Post
          (λ _. IsOpen db ledger p w)
          (λ s'. ledger.published s' ≡ p)
          (load_history db signature.order_id s)
  unfolding load_history
  load_history-Post p w s h =
      resume-Post _ _ _ _ (law.events_law signature.order_id p w s h)
        (λ rows s' h'. lifted-Post _ _ (hydrate rows) s' h' h'.published_eq) (λ _ h'. h')

  propose_inside-Post :
      (p : List Write) (c : Option Collector) (r : PostgresWriteSideResult) (prepared : List String)
      (u : UnitOfWork D)
      → Inside db ledger p [] u
      → Post
          (Ended db ledger signature p)
          (Lost db ledger p)
          (propose_inside db writer stamp signature c r prepared u)
  unfolding propose_inside
  propose_inside-Post p c r prepared u (h, hf) =
      resume-Post _ _ _ _ (attach-Post _ _ u _ (load_history-Post p [] u.session h))
        (λ history u' (h', hf').
          lift-Post _ _ _ (record_checkpoint accepted_history_observed c) u'
            (λ c' _.
              lift-Post _ _ _ (make_proposal stamp signature history) u'
                (λ proposal _. validate_inside-Post p c' r prepared proposal u' (h', hf' ∙ hf))
                h'.published_eq)
            h'.published_eq)
        (λ _ h'. h')

  execute_in_transaction-Post :
      (p : List Write) (c : Option Collector) (s : D)
      → ledger.published s ≡ p
      → ledger.pending s ≡ []
      → Post
          (Settled db ledger signature p)
          (Raised db ledger signature p)
          (execute_in_transaction db writer stamp signature c s)
  unfolding execute_in_transaction body_inside
  execute_in_transaction-Post p c = with_uow-Post db ledger law signature p _ λ u h.
      lift-Post _ _ _ (record_checkpoint business_uow_reached c) u
        (λ c' _.
          check_authoritatively-Post db ledger law writer signature p c'
            (bare_result admission_rejected none) _
            (λ c'' r u' h'.
              prepare_writer-Post db ledger law writer signature p c'' r
                (propose_inside db writer stamp signature) (propose_inside-Post p) u' h')
            u h)
        (h.0).published_eq

  body_after-Post :
      (p : List Write) (c : Option Collector) (v : Validated) (proposal : Proposal)
      (u : UnitOfWork D)
      → Inside db ledger p [] u
      → Post
          (Ended db ledger signature p)
          (Lost db ledger p)
          (body_after db writer stamp signature c v proposal u)
  unfolding body_after
  body_after-Post p c v proposal u h =
      lift-Post _ _ _ (record_checkpoint business_uow_reached c) u
        (λ c' _.
          check_authoritatively-Post db ledger law writer signature p c'
            (λ decision. validated_result (bare_result admission_rejected none decision) v) _
            (λ c'' r u' h'.
              prepare_writer-Post db ledger law writer signature p c'' r _
                (λ c3 r' prepared u3 h3.
                  append_candidate-Post db ledger law writer signature p c3 r' prepared proposal u3
                    h3)
                u' h')
            u h)
        (h.0).published_eq

  -- A call outside the unit of work that has written nothing.
  abbrev Untouched : List Write → D → Type 0
  Untouched p s = (ledger.published s ≡ p) × (ledger.pending s ≡ [])

  validate_before-Post :
      (p : List Write) (c : Option Collector) (d : IdempotencyDecision) (proposal : Proposal)
      (s : D)
      → Untouched p s
      → Post
          (Settled db ledger signature p)
          (Raised db ledger signature p)
          (validate_before db writer stamp signature c d proposal s)
  unfolding validate_before
  validate_before-Post p c d proposal s (h, h') =
      lift-Post _ _ _ (invoke_validation writer.validation proposal.candidate proposal.context) s
        (λ v _.
          lift-Post _ _ _ (record_checkpoint validation_returned c) s
            (λ c' _. elim (Bool-cases (allows (v.0).action)) [
              | inl e ↦ rw e (
                  with_uow-Post db ledger law signature p _ (body_after-Post p c' v proposal) s h
                    h')
              | inr e ↦ rw e (
                  finalize_result-Post _ _
                    (validated_result (bare_result validation_blocked none d) v) c' s
                    (λ x eq. inl (ap (λ r. is_accepted r.outcome) eq, h)) (inl h))
            ])
            (inl h))
        (inl h)

  -- A reading that is returned at once accepts nothing.
  abbrev Read : Reading → Type 0
  Read (returned x) = is_accepted (result_of x).outcome ≡ false
  Read (observed c d history) = Unit {0}

  after_reading-Post :
      (p : List Write) (r : Reading) (s : D)
      → Read r
      → Untouched p s
      → Post
          (Settled db ledger signature p)
          (Raised db ledger signature p)
          (after_reading db writer stamp signature r s)
  unfolding after_reading
  after_reading-Post p (returned x) s h (h', _) = returned-Post _ _ x s (inl (h, h'))
  after_reading-Post p (observed c d history) s _ h =
      lift-Post _ _ _ (make_proposal stamp signature history) s
        (λ proposal _. validate_before-Post p c d proposal s h) (inl (h.0))

  finalize_result-IsNotAccepted :
      (r : PostgresWriteSideResult) (c : Option Collector) (x : CommandResult)
      → is_accepted r.outcome ≡ false
      → finalize_result r c ≡ ok x
      → is_accepted (result_of x).outcome ≡ false
  unfolding Post
  finalize_result-IsNotAccepted r c x h eq =
      subst (Post (λ x (_ : Unit {0}). is_accepted (result_of x).outcome ≡ false) (λ _. Unit {0}))
        (ap (λ y. (y, tt)) eq)
        (finalize_result-Post _ _ r c tt (λ x' e. ap (λ r. is_accepted r.outcome) e ∙ h) tt)

  return_result-Post :
      (p : List Write) (r : PostgresWriteSideResult) (c : Option Collector) (s : D)
      → is_accepted r.outcome ≡ false
      → ledger.published s ≡ p
      → Post
          (λ x s'. Read x × (ledger.published s' ≡ p))
          (λ s'. ledger.published s' ≡ p)
          (resume (λ x s'. (ok (returned x), s')) (finalize_result r c, s))
  return_result-Post p r c s h h' =
      lift-Post _ _ _ (finalize_result r c) s
        (λ x eq. returned-Post _ _ (returned x) s (finalize_result-IsNotAccepted r c x h eq, h')) h'

  read_on-Post :
      (p : List Write) (c : Option Collector) (d : IdempotencyDecision) (v : IdempotencyVerdict)
      (s : D)
      → IsOpen db ledger p [] s
      → Post
          (λ x s'. Read x × (ledger.published s' ≡ p))
          (λ s'. ledger.published s' ≡ p)
          (read_on db writer stamp signature c d v s)
  unfolding read_on
  read_on-Post p c d miss s h =
      resume-Post _ _ _ _ (load_history-Post p [] s h)
        (λ history s' h'.
          lift-Post _ _ _ (record_checkpoint accepted_history_observed c) s'
            (λ c' _. returned-Post _ _ (observed c' d history) s' (tt, h'.published_eq))
            h'.published_eq)
        (λ _ h'. h')
  read_on-Post p c d Idempotency.replay s h =
      lift-Post _ _ _ (accepted_event_from_replay d) s
        (λ e _. return_result-Post p (bare_result replay (some e) d) c s refl h.published_eq)
        h.published_eq
  read_on-Post p c d Idempotency.conflict s h =
      return_result-Post p (bare_result conflict none d) c s refl h.published_eq

  read_phase-Post :
      (p : List Write) (c : Option Collector) (s : D)
      → IsOpen db ledger p [] s
      → Post
          (λ x s'. Read x × (ledger.published s' ≡ p))
          (λ s'. ledger.published s' ≡ p)
          (read_phase db writer stamp signature c s)
  unfolding read_phase
  read_phase-Post p c s h =
      resume-Post _ _ _ _ (check_request-Post db ledger law writer signature p [] s h)
        (λ d s' h'.
          lift-Post _ _ _ (record_checkpoint preliminary_idempotency_check_returned c) s'
            (λ c' _. read_on-Post p c' d d.verdict s' h') h'.published_eq)
        (λ _ h'. h')

  rolled_back-Post :
      (p : List Write) (x : Reading) (s : D)
      → Read x
      → ledger.published s ≡ p
      → Post
          (λ x s'. Read x × Untouched p s')
          (λ s'. ledger.published s' ≡ p)
          (resume (λ _ s'. (ok x, s')) (db.rollback s))
  rolled_back-Post p x s hx h =
      resume-Post _ _ _ _ (law.rollback_law s)
        (λ _ s' (h', hq). returned-Post _ _ x s' (hx, (h' ∙ h, hq))) (λ _ h'. h' ∙ h)

  rolled_back_failure-Post :
      (p : List Write) (e : Failure) (s : D)
      → ledger.published s ≡ p
      → Post
          (λ x s'. Read x × Untouched p s')
          (λ s'. ledger.published s' ≡ p)
          (resume (λ _ s'. (err e, s')) (db.rollback s))
  rolled_back_failure-Post p e s h =
      resume-Post _ _ _ _ (law.rollback_law s) (λ _ s' (h', _). failed-Post _ _ e s' (h' ∙ h))
        (λ _ h'. h' ∙ h)

  -- The rollback of the read phase, whatever the phase did.
  finally_rollback-Post :
      (p : List Write) (m : Result Failure Reading × D)
      → Post (λ x s'. Read x × (ledger.published s' ≡ p)) (λ s'. ledger.published s' ≡ p) m
      → Post
          (λ x s'. Read x × Untouched p s')
          (λ s'. ledger.published s' ≡ p)
          (finally_rollback db m)
  unfolding finally_rollback Post
  finally_rollback-Post p (ok x, s) (hx, h) = rolled_back-Post p x s hx h
  finally_rollback-Post p (err e, s) h = rolled_back_failure-Post p e s h

  execute_pre_transaction-Post :
      (p : List Write) (c : Option Collector) (s : D)
      → IsOpen db ledger p [] s
      → Post
          (Settled db ledger signature p)
          (Raised db ledger signature p)
          (execute_pre_transaction db writer stamp signature c s)
  unfolding execute_pre_transaction
  execute_pre_transaction-Post p c s h =
      resume-Post _ _ _ _ (finally_rollback-Post p _ (read_phase-Post p c s h))
        (λ x s' (hx, h'). after_reading-Post p x s' hx h') (λ _ h'. inl h')

  execute_at-Post :
      (placement : ValidationPlacement) (p : List Write) (c : Option Collector) (s : D)
      → IsOpen db ledger p [] s
      → Post
          (Settled db ledger signature p)
          (Raised db ledger signature p)
          (execute_at db writer stamp signature placement c s)
  unfolding execute_at
  execute_at-Post in_transaction p c s h =
      execute_in_transaction-Post p c s h.published_eq h.pending_eq
  execute_at-Post pre_transaction p c s h = execute_pre_transaction-Post p c s h

  -- A command on a connection outside autocommit whose transaction holds no write, over a database that
  -- follows the laws of a transaction: where it returns, either its outcome is not ACCEPTED and what is
  -- durable is unchanged, or it is ACCEPTED and exactly two rows became durable, that of the accepted
  -- event and that of its request, in this order. Where it raises, nothing became durable, or both rows
  -- of one event did. This holds for both placements, both gates, any validation, traced or not.
  pub execute_command-atomic :
      (p : List Write) (c : Option Collector) (s : D)
      → IsOpen db ledger p [] s
      → Post
          (Settled db ledger signature p)
          (Raised db ledger signature p)
          (execute_command db writer stamp signature c s)
  unfolding execute_command
  execute_command-atomic = execute_at-Post writer.validation_placement
