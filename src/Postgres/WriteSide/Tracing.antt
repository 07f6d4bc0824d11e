-- ===== src/Postgres/WriteSide/Tracing.antt =====
-- What a traced call of the write side adds to an untraced one
-- (src/pipeline/transactional/postgres_write_side.py).
use streaming_system_compass.Base.{
  Bool, true, false, Option, none, some, List, [], String, ◌≡◌, refl, if◌then◌else◌,
}
use streaming_system_compass.Base.Result.{Result, ok, err}
use streaming_system_compass.Base.Action.{Action, resume, lift}
use streaming_system_compass.Failure.{Failure}
use streaming_system_compass.Order.{OrderEvent}
use streaming_system_compass.Storage.Idempotency.{
  RequestSignature, IdempotencyDecision, IdempotencyVerdict, miss,
}
use streaming_system_compass.Admission.{is_admitted}
use streaming_system_compass.Postgres.Session.{Session}
use streaming_system_compass.Postgres.Trace.{
  ValidationPlacement, Checkpoint, authoritative_idempotency_check_returned,
  concurrency_preparation_returned, append_admission_returned, idempotency_persistence_returned,
}
use streaming_system_compass.Postgres.UnitOfWork.{UnitOfWork, on_session, uow_rollback}
use streaming_system_compass.Postgres.Delivery.{
  PostgresWriteSideOutcome, PostgresWriteSideResult, Collector, CommandResult, result_of,
  accepted_event_from_replay, record_checkpoint, finalize_result, accepted, replay, conflict,
  admission_rejected,
}
use streaming_system_compass.Postgres.IdempotencyStore.{check_request, record_request}
use streaming_system_compass.Postgres.Gate.{gate_append, gate_prepare}
use streaming_system_compass.Postgres.WriteSide.{
  WriteSide, Proposal, stop, persist, append_candidate, prepare_writer, by_verdict,
  check_authoritatively,
}
use streaming_system_compass.Storage.Idempotency

-- The primary result of a call, or its exception, and the state that it leaves.
unfoldable pub deliver : Result Failure CommandResult → Result Failure PostgresWriteSideResult
deliver (ok r) = ok (result_of r)
deliver (err e) = err e

unfoldable pub delivered :
    {S : Type 0} → Result Failure CommandResult × S → Result Failure PostgresWriteSideResult × S
unfolding deliver
delivered m = (deliver (m.0), m.1)

abbrev pub Agree : {S : Type 0} (m m' : Result Failure CommandResult × S) → Type 0
Agree m m' = delivered m ≡ delivered m'

pub resume-Agree :
    {S A : Type 0} (k k' : A → Action S CommandResult) (m : Result Failure A × S)
    → ((a : A) (s : S) → Agree (k a s) (k' a s))
    → Agree (resume k m) (resume k' m)
unfolding delivered
resume-Agree k k' (ok a, s) h = h a s
resume-Agree k k' (err e, s) h = refl

pub if-Agree :
    {S : Type 0} (b : Bool) (x x' y y' : Action S CommandResult) (s : S)
    → Agree (x s) (x' s)
    → Agree (y s) (y' s)
    → Agree ((if b then x else y) s) ((if b then x' else y') s)
if-Agree true x x' y y' s h h' = h
if-Agree false x x' y y' s h h' = h'

-- A collector that has collected the checkpoints.
abbrev pub collected_at : ValidationPlacement → List Checkpoint → Option Collector
collected_at placement checkpoints = some (record {
  validation_placement = placement;
  trace = some (record { validation_placement = placement; checkpoints = checkpoints });
})

-- That a checkpoint is recorded.
abbrev pub Records : Checkpoint → Option Collector → Option Collector → Type 0
Records checkpoint c c' = record_checkpoint checkpoint c ≡ ok c'

-- That a result with this outcome is delivered.
abbrev pub Delivers : PostgresWriteSideOutcome → Option Collector → Type 0
Delivers outcome c =
    (r : PostgresWriteSideResult)
    → deliver (finalize_result (record r { outcome = outcome }) c)
      ≡ ok (record r { outcome = outcome })

module _ {D : Type 0} (db : Session D) (writer : WriteSide) (signature : RequestSignature) where
  pub stop-Agree :
      (o : PostgresWriteSideOutcome) (c : Option Collector)
      → Delivers o c
      → (r : PostgresWriteSideResult) (u : UnitOfWork D)
      → Agree
          (stop db writer signature none (record r { outcome = o }) u)
          (stop db writer signature c (record r { outcome = o }) u)
  unfolding stop finalize_result delivered result_of
  stop-Agree o c h r u = resume-Agree _ _ (uow_rollback db u) λ _ s. rw (h r) refl

  pub persist-Agree :
      (c c' : Option Collector)
      → Records idempotency_persistence_returned c c'
      → Delivers accepted c'
      → (r : PostgresWriteSideResult) (e : OrderEvent) (u : UnitOfWork D)
      → Agree (persist db writer signature none r e u) (persist db writer signature c r e u)
  unfolding persist finalize_result delivered result_of record_checkpoint deliver
  persist-Agree c c' recorded h r e u =
      resume-Agree _ _ (on_session (record_request db signature e) u)
        λ _ s. rw (recorded, h (record r { accepted_event = some e })) refl

  pub append_candidate-Agree :
      (c c1 c2 : Option Collector)
      → Records append_admission_returned c c1
      → Delivers admission_rejected c1
      → Records idempotency_persistence_returned c1 c2
      → Delivers accepted c2
      → (r : PostgresWriteSideResult) (prepared : List String) (p : Proposal) (u : UnitOfWork D)
      → Agree
          (append_candidate db writer signature none r prepared p u)
          (append_candidate db writer signature c r prepared p u)
  unfolding append_candidate record_checkpoint
  append_candidate-Agree c c1 c2 h1 h2 h3 h4 r prepared p u =
      resume-Agree _ _
        (on_session (gate_append db writer.gate prepared p.candidate p.expected_current_version) u)
        λ a s. rw h1 (
          if-Agree (is_admitted a.verdict) _ _ _ _ s
            (persist-Agree c1 c2 h3 h4
              (record r {
                outcome = admission_rejected;
                accepted_event = none;
                admission_result = some a;
              })
              p.candidate s)
            (stop-Agree admission_rejected c1 h2
              (record r { accepted_event = none; admission_result = some a }) s))

  pub prepare_writer-Agree :
      (c c1 : Option Collector)
      → Records concurrency_preparation_returned c c1
      → Delivers admission_rejected c1
      → (k : Option Collector
          → PostgresWriteSideResult
          → List String
          → Action (UnitOfWork D) CommandResult)
      → ((r : PostgresWriteSideResult) (prepared : List String) (u : UnitOfWork D)
          → Agree (k none r prepared u) (k c1 r prepared u))
      → (r : PostgresWriteSideResult) (u : UnitOfWork D)
      → Agree
          (prepare_writer db writer signature none r k u)
          (prepare_writer db writer signature c r k u)
  unfolding prepare_writer record_checkpoint
  prepare_writer-Agree c c1 h1 h2 k hk r u =
      resume-Agree _ _ (on_session (gate_prepare db writer.gate [] signature.order_id) u) λ a s.
        rw h1 (
          if-Agree (is_admitted (a.0).verdict) _ _ _ _ s (hk _ (a.1) s) (
            stop-Agree admission_rejected c1 h2 (record r { stream_admission_result = some (a.0) })
              s))

  by_verdict-Agree :
      (c : Option Collector)
      → Delivers replay c
      → Delivers conflict c
      → (r : PostgresWriteSideResult) (v : IdempotencyVerdict)
      → (k k' : Action (UnitOfWork D) CommandResult) (u : UnitOfWork D) → Agree (k u) (k' u)
      → Agree
          (by_verdict db writer signature none r v k u)
          (by_verdict db writer signature c r v k' u)
  unfolding by_verdict finalize_result delivered result_of deliver
  by_verdict-Agree c h1 h2 r miss k k' u h = h
  by_verdict-Agree c h1 h2 r Idempotency.conflict k k' u h = stop-Agree conflict c h2 r u
  by_verdict-Agree c h1 h2 r Idempotency.replay k k' u h =
      resume-Agree _ _ (uow_rollback db u) λ _ s.
        resume-Agree _ _ (lift (accepted_event_from_replay r.idempotency_decision) s)
          λ e s'. rw (h1 (record r { accepted_event = some e })) refl

  pub check_authoritatively-Agree :
      (c c1 : Option Collector)
      → Records authoritative_idempotency_check_returned c c1
      → Delivers replay c1
      → Delivers conflict c1
      → (base : IdempotencyDecision → PostgresWriteSideResult)
      → (k : Option Collector → PostgresWriteSideResult → Action (UnitOfWork D) CommandResult)
      → ((r : PostgresWriteSideResult) (u : UnitOfWork D) → Agree (k none r u) (k c1 r u))
      → (u : UnitOfWork D)
      → Agree
          (check_authoritatively db writer signature none base k u)
          (check_authoritatively db writer signature c base k u)
  unfolding check_authoritatively record_checkpoint
  check_authoritatively-Agree c c1 h1 h2 h3 base k hk u =
      resume-Agree _ _ (on_session (check_request db signature) u)
        λ d s. rw h1 (by_verdict-Agree c1 h2 h3 (base d) d.verdict _ _ s (hk (base d) s))
