-- ===== src/Postgres/WriteSide/Closing.antt =====
-- src/pipeline/transactional/postgres_write_side.py: a unit of work and a read phase that
-- are traced, beside plain ones.
use streaming_system_compass.Base.{
  Bool, true, false, none, some, List, [], ◌∷◌, ◌≡◌, refl, sym, ◌∙◌, ap,
}
use streaming_system_compass.Base.Result.{Result, ok, err}
use streaming_system_compass.Base.Action.{Action, resume}
use streaming_system_compass.Failure.{Failure}
use streaming_system_compass.Postgres.Session.{Session}
use streaming_system_compass.Postgres.Trace.{
  pre_transaction, Checkpoint, preliminary_idempotency_check_returned, accepted_history_observed,
}
use streaming_system_compass.Postgres.UnitOfWork.{
  UnitOfWork, uow_commit, uow_rollback, uow_enter, settle_uow, close, with_uow,
}
use streaming_system_compass.Postgres.Delivery.{CommandResult, result_of, traced}
use streaming_system_compass.Postgres.WriteSide.Flows.{
  Reading, returned, observed, finally_rollback,
}
use streaming_system_compass.Postgres.WriteSide.Tracing.{
  deliver, delivered, Agree, resume-Agree, collected_at,
}

delivered-return :
    {S : Type 0} (m : Result Failure (Unit {0}) × S) (r : CommandResult)
    → delivered (resume (λ _ s. (ok r, s)) m) ≡ resume (λ _ s. (ok (result_of r), s)) m
unfolding delivered deliver
delivered-return (ok _, s) r = refl
delivered-return (err e, s) r = refl

delivered-raise :
    {S : Type 0} (m : Result Failure (Unit {0}) × S) (e : Failure)
    → delivered (resume (λ _ s. (err e, s)) m) ≡ resume (λ _ s. (err e, s)) m
unfolding delivered deliver
delivered-raise (ok _, s) e = refl
delivered-raise (err e', s) e = refl

-- The end of a unit of work does not depend on what the body returns.
settle_uow-deliver :
    {D : Type 0} (db : Session D) (b : Bool) (r : Result Failure CommandResult) (u : UnitOfWork D)
    → delivered (settle_uow db b r u) ≡ settle_uow db b (deliver r) u
unfolding settle_uow delivered deliver
settle_uow-deliver db true (ok r) u = refl
settle_uow-deliver db true (err e) u = refl
settle_uow-deliver db false (ok r) u = delivered-return (uow_commit db u) r
settle_uow-deliver db false (err e) u = delivered-raise (uow_rollback db u) e

close-delivered :
    {D : Type 0} (db : Session D) (m : Result Failure CommandResult × UnitOfWork D)
    → delivered (close db m) ≡ close db (delivered m)
unfolding close delivered
close-delivered db (r, u) = ap (λ m. (m.0, (m.1).session)) (settle_uow-deliver db u.finished r u)

-- What both calls do around a body.
pub with_uow-Agree :
    {D : Type 0} (db : Session D) (body body' : Action (UnitOfWork D) CommandResult)
    → ((u : UnitOfWork D) → Agree (body u) (body' u))
    → (s : D) → Agree (with_uow db body s) (with_uow db body' s)
unfolding with_uow
with_uow-Agree db body body' h s = resume-Agree _ _ (uow_enter db s) λ _ s'.
    close-delivered db (body (record { session = s'; finished = false }))
    ∙ ap (close db) (h (record { session = s'; finished = false }))
    ∙ sym (close-delivered db (body' (record { session = s'; finished = false })))

-- The checkpoints before the transaction, and those that follow in it.
abbrev pub observed_before : List Checkpoint
observed_before = preliminary_idempotency_check_returned ∷ accepted_history_observed ∷ []

-- What the traced read phase ends with, from what the plain one does.
unfoldable pub trace_reading : Reading → Reading
trace_reading (returned r) = returned (
    traced (record {
      result = result_of r;
      trace = record {
        validation_placement = pre_transaction;
        checkpoints = preliminary_idempotency_check_returned ∷ [];
      };
    }))
trace_reading (observed none d history) =
    observed (collected_at pre_transaction observed_before) d history
trace_reading (observed (some c) d history) = observed (some c) d history

unfoldable pub traced_reading :
    {S : Type 0} → Result Failure Reading × S → Result Failure Reading × S
traced_reading (ok r, s) = (ok (trace_reading r), s)
traced_reading (err e, s) = (err e, s)

pub resume-traced_reading :
    {S A : Type 0} (k k' : A → Action S Reading) (m : Result Failure A × S)
    → ((a : A) (s : S) → k' a s ≡ traced_reading (k a s))
    → resume k' m ≡ traced_reading (resume k m)
unfolding traced_reading
resume-traced_reading k k' (ok a, s) h = h a s
resume-traced_reading k k' (err e, s) h = refl

pub finally-traced_reading :
    {D : Type 0} (db : Session D) (m : Result Failure Reading × D)
    → finally_rollback db (traced_reading m) ≡ traced_reading (finally_rollback db m)
unfolding traced_reading finally_rollback
finally-traced_reading db (ok r, s) = resume-traced_reading _ _ (db.rollback s) λ _ _. refl
finally-traced_reading db (err e, s) = resume-traced_reading _ _ (db.rollback s) λ _ _. refl
