-- ===== src/Postgres/WriteSide/Writes.antt =====
-- src/pipeline/transactional/postgres_write_side.py: what a unit of work of the write side has
-- written, step by step, over a database that follows `IsTransactional`.
use streaming_system_compass.Base.{
  Bool, true, false, Bool-cases, Option, Option-cases, none, some, List, [], ◌∷◌, String, ◌≡◌, refl,
  ap, ◌∙◌, ◌⊎◌, inl, inr,
}
use streaming_system_compass.Base.Result.{Result, ok, err, raise_if}
use streaming_system_compass.Base.Action.{Action}
use streaming_system_compass.Base.Triple.{
  Post, resume-Post, lift-Post, returned-Post, lifted-Post, weaken-Post,
}
use streaming_system_compass.Failure.{Failure}
use streaming_system_compass.Order.{OrderEvent}
use streaming_system_compass.Storage.Idempotency.{
  RequestSignature, IdempotencyDecision, IdempotencyVerdict, miss,
}
use streaming_system_compass.Admission.{is_admitted}
use streaming_system_compass.Postgres.Rows.{IdempotencyInsert, event_row}
use streaming_system_compass.Postgres.Session.{Session}
use streaming_system_compass.Postgres.Transaction.{
  Write, event, request, Ledger, IsOpen, IsTransactional,
}
use streaming_system_compass.Postgres.IdempotencyStore.{
  record_row, record_request, check_request, classify_row,
}
use streaming_system_compass.Postgres.Trace.{
  Trace, terminal_checkpoint, authoritative_idempotency_check_returned,
  concurrency_preparation_returned, append_admission_returned, idempotency_persistence_returned,
}
use streaming_system_compass.Postgres.UnitOfWork.{UnitOfWork, attach, uow_rollback}
use streaming_system_compass.Postgres.Gate.Verdict.{gate_append-Post, gate_prepare-Post}
use streaming_system_compass.Postgres.Delivery.{
  PostgresWriteSideOutcome, PostgresWriteSideResult, Collector, CommandResult, result_of,
  record_checkpoint, finalize_result, execution, is_allowed_terminal, plain, traced,
  accepted_event_from_replay, accepted, replay, conflict, admission_rejected,
}
use streaming_system_compass.Postgres.WriteSide.{
  WriteSide, Proposal, stop, persist, append_candidate, prepare_writer, by_verdict,
  check_authoritatively,
}
use streaming_system_compass.Base.Result
use streaming_system_compass.Storage.Idempotency

abbrev pub is_accepted : PostgresWriteSideOutcome → Bool
is_accepted accepted = true
is_accepted _ = false

-- The two rows of an accepted event: the event, and the memory of its request.
abbrev pub Batch : RequestSignature → OrderEvent → List Write → Type 0
Batch signature e w =
    (row : IdempotencyInsert) × (record_row signature e ≡ ok row)
    × (w ≡ event (event_row e) ∷ request row ∷ [])

abbrev pub AcceptedAs : PostgresWriteSideResult → OrderEvent → Type 0
AcceptedAs r e = (r.outcome ≡ accepted) × (r.accepted_event ≡ some e)

execution-Post :
    {S : Type 0} (Q : CommandResult → S → Type 0) (E : S → Type 0) (r : PostgresWriteSideResult)
    (t : Trace) (s : S)
    → ((x : CommandResult) → result_of x ≡ r → Q x s)
    → E s
    → Post Q E (Result.◌>>=◌ (execution r t) (λ e. ok (traced e)), s)
unfolding Post execution result_of
execution-Post Q E r t s f g =
    elim (Bool-cases
      (is_allowed_terminal t.validation_placement r.outcome (terminal_checkpoint t))) [
        | inl e ↦ rw e (f (traced (record { result = r; trace = t })) refl)
        | inr e ↦ rw e g
      ]

pub finalize_result-Post :
    {S : Type 0} (Q : CommandResult → S → Type 0) (E : S → Type 0) (r : PostgresWriteSideResult)
    (c : Option Collector) (s : S)
    → ((x : CommandResult) → result_of x ≡ r → Q x s)
    → E s
    → Post Q E (finalize_result r c, s)
unfolding Post finalize_result result_of
finalize_result-Post Q E r none s f g = f (plain r) refl
finalize_result-Post Q E r (some c) s f g = elim (Option-cases c.trace) [
  | inl e ↦ rw e g
  | inr (t, e) ↦ rw e (execution-Post Q E r t s f g)
]

module _ {D : Type 0} where
  pub attach-Post :
      {A : Type 0} (Q : A → D → Type 0) (E : D → Type 0) (u : UnitOfWork D)
      (m : Result Failure A × D)
      → Post Q E m
      → Post (λ a u'. Q a u'.session × (u'.finished ≡ u.finished)) (λ u'. E u'.session) (attach u m)
  unfolding Post
  attach-Post Q E u (ok a, s) h = (h, refl)
  attach-Post Q E u (err e, s) h = h

module _ {D : Type 0} (db : Session D) (ledger : Ledger D) where
  -- Inside a unit of work that has written `w`, and after its explicit rollback.
  abbrev pub Inside : List Write → List Write → UnitOfWork D → Type 0
  Inside p w u = IsOpen db ledger p w u.session × (u.finished ≡ false)

  abbrev pub Lost : List Write → UnitOfWork D → Type 0
  Lost p u = ledger.published u.session ≡ p

  -- How the body of a unit of work ends.
  abbrev pub Ended : RequestSignature → List Write → CommandResult → UnitOfWork D → Type 0
  Ended signature p x u =
      ((is_accepted (result_of x).outcome ≡ false) × Lost p u × (u.finished ≡ true))
      ⊎ ((e : OrderEvent) × (w : List Write) × AcceptedAs (result_of x) e
          × Batch signature e w
          × Inside p w u)

  module _ (law : IsTransactional db ledger) where
    pub uow_rollback-Post :
        (p : List Write) (u : UnitOfWork D)
        → Lost p u
        → Post (λ _ u'. Lost p u' × (u'.finished ≡ true)) (Lost p) (uow_rollback db u)
    unfolding uow_rollback
    uow_rollback-Post p u h =
        resume-Post _ _ _ _ (attach-Post _ _ u (db.rollback u.session) (law.rollback_law u.session))
          (λ _ u' ((h', _), _). returned-Post _ _ _ _ (h' ∙ h, refl)) (λ u' h'. h' ∙ h)

    module _ (writer : WriteSide) (signature : RequestSignature) where
      stopped-Post :
          (p : List Write) (c : Option Collector) (r : PostgresWriteSideResult) (u : UnitOfWork D)
          → is_accepted r.outcome ≡ false
          → Lost p u × (u.finished ≡ true)
          → Post (Ended signature p) (Lost p) (finalize_result r c, u)
      stopped-Post p c r u h h' =
          finalize_result-Post _ _ r c u (λ x e. inl (rw e h, h'.0, h'.1)) h'.0

      pub stop-Post :
          (p : List Write) (c : Option Collector) (r : PostgresWriteSideResult) (u : UnitOfWork D)
          → is_accepted r.outcome ≡ false
          → Lost p u
          → Post (Ended signature p) (Lost p) (stop db writer signature c r u)
      unfolding stop
      stop-Post p c r u h h' =
          resume-Post _ _ _ _ (uow_rollback-Post p u h') (λ _ u'. stopped-Post p c r u' h)
            (λ _ h''. h'')

      pub check_request-Post :
          (p w : List Write) (s : D)
          → IsOpen db ledger p w s
          → Post
              (λ _. IsOpen db ledger p w)
              (λ s'. ledger.published s' ≡ p)
              (check_request db signature s)
      unfolding check_request
      check_request-Post p w s h =
          resume-Post _ _ _ _ (law.record_law signature.request_id p w s h)
            (λ existing s' h'.
              lifted-Post _ _ (classify_row signature existing) s' h' h'.published_eq)
            (λ _ h'. h')

      -- The memory of the request joins the event in the open transaction.
      record_request-Post :
          (p : List Write) (e : OrderEvent) (s : D)
          → IsOpen db ledger p (event (event_row e) ∷ []) s
          → Post
              (λ _ s'. (w : List Write) × Batch signature e w × IsOpen db ledger p w s')
              (λ s'. ledger.published s' ≡ p)
              (record_request db signature e s)
      unfolding record_request
      record_request-Post p e s h =
          lift-Post _ _ _ (record_row signature e) s
            (λ row eq.
              weaken-Post _ (law.insert_record_law row p _ s h)
                (λ _ s' h'. (_, (row, eq, refl), h')) (λ _ h'. h'))
            h.published_eq

      pub persist-Post :
          (p : List Write) (c : Option Collector) (r : PostgresWriteSideResult) (e : OrderEvent)
          (u : UnitOfWork D)
          → Inside p (event (event_row e) ∷ []) u
          → Post (Ended signature p) (Lost p) (persist db writer signature c r e u)
      unfolding persist
      persist-Post p c r e u (h, hf) =
          resume-Post _ _ _ _ (attach-Post _ _ u _ (record_request-Post p e u.session h))
            (λ _ u' ((w, batch, h'), hf').
              lift-Post _ _ _ (record_checkpoint idempotency_persistence_returned c) u'
                (λ c' _.
                  finalize_result-Post _ _ _ c' u'
                    (λ x eq. inr (
                      e,
                      w,
                      (ap (λ x. x.outcome) eq, ap (λ x. x.accepted_event) eq),
                      batch,
                      (h', hf' ∙ hf),
                    ))
                    h'.published_eq)
                h'.published_eq)
            (λ _ h'. h')

      pub append_candidate-Post :
          (p : List Write) (c : Option Collector) (r : PostgresWriteSideResult)
          (prepared : List String) (proposal : Proposal) (u : UnitOfWork D)
          → Inside p [] u
          → Post
              (Ended signature p)
              (Lost p)
              (append_candidate db writer signature c r prepared proposal u)
      unfolding append_candidate
      append_candidate-Post p c r prepared proposal u (h, hf) =
          resume-Post _ _ _ _
            (attach-Post _ _ u _ (
              gate_append-Post db ledger law writer.gate prepared p proposal.candidate
                proposal.expected_current_version u.session h))
            (λ a u' ((lost, appended), hf').
              lift-Post _ _ _ (record_checkpoint append_admission_returned c) u'
                (λ c' _. elim (Bool-cases (is_admitted a.verdict)) [
                  | inl e ↦ rw e (
                      persist-Post p c'
                        (record r {
                          outcome = admission_rejected;
                          accepted_event = none;
                          admission_result = some a;
                        })
                        proposal.candidate u' (appended e, hf' ∙ hf))
                  | inr e ↦ rw e (
                      stop-Post p c'
                        (record r {
                          outcome = admission_rejected;
                          accepted_event = none;
                          admission_result = some a;
                        })
                        u' refl lost)
                ])
                lost)
            (λ _ h'. h')

      pub prepare_writer-Post :
          (p : List Write) (c : Option Collector) (r : PostgresWriteSideResult)
          (k : Option Collector
            → PostgresWriteSideResult
            → List String
            → Action (UnitOfWork D) CommandResult)
          → ((c : Option Collector) (r : PostgresWriteSideResult) (prepared : List String)
                (u : UnitOfWork D)
              → Inside p [] u
              → Post (Ended signature p) (Lost p) (k c r prepared u))
          → (u : UnitOfWork D) → Inside p [] u
          → Post (Ended signature p) (Lost p) (prepare_writer db writer signature c r k u)
      unfolding prepare_writer
      prepare_writer-Post p c r k hk u (h, hf) =
          resume-Post _ _ _ _
            (attach-Post _ _ u _
              (gate_prepare-Post db ledger law writer.gate [] signature.order_id p [] u.session h))
            (λ a u' (h', hf').
              lift-Post _ _ _ (record_checkpoint concurrency_preparation_returned c) u'
                (λ c' _. elim (Bool-cases (is_admitted (a.0).verdict)) [
                  | inl e ↦ rw e (
                      hk c'
                        (record r {
                          outcome = admission_rejected;
                          stream_admission_result = some (a.0);
                        })
                        (a.1) u' (h', hf' ∙ hf))
                  | inr e ↦ rw e (
                      stop-Post p c'
                        (record r {
                          outcome = admission_rejected;
                          stream_admission_result = some (a.0);
                        })
                        u' refl h'.published_eq)
                ])
                h'.published_eq)
            (λ _ h'. h')

      by_verdict-Post :
          (p : List Write) (c : Option Collector) (r : PostgresWriteSideResult)
          (v : IdempotencyVerdict) (k : Action (UnitOfWork D) CommandResult) (u : UnitOfWork D)
          → Lost p u
          → Post (Ended signature p) (Lost p) (k u)
          → Post (Ended signature p) (Lost p) (by_verdict db writer signature c r v k u)
      unfolding by_verdict
      by_verdict-Post p c r miss k u h hk = hk
      by_verdict-Post p c r Idempotency.conflict k u h hk =
          stop-Post p c (record r { outcome = conflict }) u refl h
      by_verdict-Post p c r Idempotency.replay k u h hk =
          resume-Post _ _ _ _ (uow_rollback-Post p u h)
            (λ _ u' h'.
              lift-Post _ _ _ (accepted_event_from_replay r.idempotency_decision) u'
                (λ e _.
                  stopped-Post p c (record r { outcome = replay; accepted_event = some e }) u' refl
                    h')
                (h'.0))
            (λ _ h'. h')

      pub check_authoritatively-Post :
          (p : List Write) (c : Option Collector)
          (base : IdempotencyDecision → PostgresWriteSideResult)
          (k : Option Collector → PostgresWriteSideResult → Action (UnitOfWork D) CommandResult)
          → ((c : Option Collector) (r : PostgresWriteSideResult) (u : UnitOfWork D)
              → Inside p [] u
              → Post (Ended signature p) (Lost p) (k c r u))
          → (u : UnitOfWork D) → Inside p [] u
          → Post (Ended signature p) (Lost p) (check_authoritatively db writer signature c base k u)
      unfolding check_authoritatively
      check_authoritatively-Post p c base k hk u (h, hf) =
          resume-Post _ _ _ _ (attach-Post _ _ u _ (check_request-Post p [] u.session h))
            (λ d u' (h', hf').
              lift-Post _ _ _ (record_checkpoint authoritative_idempotency_check_returned c) u'
                (λ c' _.
                  by_verdict-Post p c' (base d) d.verdict _ u' h'.published_eq
                    (hk c' (base d) u' (h', hf' ∙ hf)))
                h'.published_eq)
            (λ _ h'. h')
