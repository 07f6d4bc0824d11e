-- ===== src/Governance/Owner.antt =====
-- src/pipeline/transactional/postgres_write_side_invocation_owner.py: one request, its first invocation
-- and at most one more. Each function up to the lock's release is one step; the writer's call lies
-- between two steps.
pub mod Lifecycle
pub mod Dispatches
use streaming_system_compass.Base.{
  Bool, true, false, not, ◌&&◌, String, Option, none, some, List, [], ◌∷◌, if◌then◌else◌,
}
use streaming_system_compass.Base.Result.{Result, ok, err, raise_if}
use streaming_system_compass.Base.Action.{Action, ◌>>=◌, ◌>>◌, return, raise, lift}
use streaming_system_compass.Failure.{Failure, lifecycle_misuse, invalid_result, decision_refused}
use streaming_system_compass.Order.{OrderEvent, Stamp, CommandType}
use streaming_system_compass.Storage.Idempotency.{
  RequestSignature, signature_eq, IdempotencyVerdict, miss, IdempotencyRecord,
}
use streaming_system_compass.Postgres.Session.{Session}
use streaming_system_compass.Postgres.Delivery.{
  PostgresWriteSideOutcome, accepted, replay, conflict, validation_blocked, admission_rejected,
  PostgresWriteSideResult, result_of,
}
use streaming_system_compass.Postgres.WriteSide.{WriteSide}
use streaming_system_compass.Postgres.WriteSide.Flows.{create_order, pay_order}
use streaming_system_compass.Governance.WriteSideOutcome.{Reasons}
use streaming_system_compass.Governance.Decision.{
  Feedback, map_to_feedback, RuntimeDecisionResponse, use_current_result,
  return_prior_accepted_result, block_current_continuation, require_escalation, Evaluation,
  evaluate_runtime_decision,
}
use streaming_system_compass.Governance.Reinvocation.{
  Authority, authorized, not_authorized, evaluate_reinvocation_authority,
}
use streaming_system_compass.Base.Result
use streaming_system_compass.Storage.Idempotency

-- `selected_result`
pub data Selection : Type 0 where
  current : PostgresWriteSideResult → Selection
  prior : OrderEvent → Selection
  nothing : Selection

-- `PostgresWriteSideCurrentResponseEvaluation` and `…Refusal`
pub data Delivery : Type 0 where
  evaluated : PostgresWriteSideResult → Evaluation → Selection → Delivery
  refused : PostgresWriteSideResult → Feedback → Delivery

-- The fields of `PostgresWriteSideInvocationOwner` that its lock protects.
pub record Owner : Type 0 where
  pub request_signature : RequestSignature
  pub initial_invocation_started : Bool
  pub initial_result : Option PostgresWriteSideResult
  pub cached_reinvocation_evaluation : Option Authority
  pub authority_spent : Bool
  pub current_response_result : Option PostgresWriteSideResult
  pub current_response_outcome_id : Option String
  pub cached_current_response_delivery : Option Delivery

-- `__init__`
abbrev pub new_owner : RequestSignature → Owner
new_owner signature = record {
  request_signature = signature;
  initial_invocation_started = false;
  initial_result = none;
  cached_reinvocation_evaluation = none;
  authority_spent = false;
  current_response_result = none;
  current_response_outcome_id = none;
  cached_current_response_delivery = none;
}

-- `_clear_current_response_state` and `_publish_current_response_result`
abbrev pub clear_current : Owner → Owner
clear_current o = record o {
  current_response_result = none;
  current_response_outcome_id = none;
  cached_current_response_delivery = none;
}

abbrev pub publish_current : PostgresWriteSideResult → Owner → Owner
publish_current result o = record o {
  current_response_result = some result;
  current_response_outcome_id = none;
  cached_current_response_delivery = none;
}

-- `invoke_initial`, before the writer's call and after it
unfoldable pub enter_initial : Action Owner (Unit {0})
enter_initial o =
    if o.initial_invocation_started
    then (err lifecycle_misuse, o)
    else (ok tt, record o { initial_invocation_started = true })

unfoldable pub publish_initial : PostgresWriteSideResult → Owner → Owner
publish_initial result o = publish_current result (record o { initial_result = some result })

require : {A : Type 0} → Option A → Result Failure A
require none = err lifecycle_misuse
require (some a) = ok a

-- `evaluate_reinvocation_authority`, which caches the first evaluation
keep_evaluation : Option Authority → PostgresWriteSideResult → Action Owner Authority
keep_evaluation (some a) result o = (ok a, o)
keep_evaluation none result o =
    let a = evaluate_reinvocation_authority o.request_signature result in
    (ok a, record o { cached_reinvocation_evaluation = some a })

evaluate_on : Option PostgresWriteSideResult → Action Owner Authority
unfolding keep_evaluation
evaluate_on none o = (err lifecycle_misuse, o)
evaluate_on (some result) o = keep_evaluation o.cached_reinvocation_evaluation result o

unfoldable pub evaluate_authority : Action Owner Authority
unfolding evaluate_on
evaluate_authority o = evaluate_on o.initial_result o

-- `invoke_authorized_reinvocation`, up to the writer's call
permitted : Option Authority → Result Failure (Unit {0})
permitted none = err lifecycle_misuse
permitted (some (authorized _)) = ok tt
permitted (some (not_authorized _)) = err lifecycle_misuse

unfoldable pub check_reinvocation : Owner → Result Failure (Unit {0})
unfolding require permitted
check_reinvocation o = Result.◌>>=◌ (require o.initial_result) λ _.
    Result.◌>>=◌ (permitted o.cached_reinvocation_evaluation)
      λ _. raise_if o.authority_spent lifecycle_misuse

spend : Result Failure (Unit {0}) → Action Owner (Unit {0})
spend (err e) o = (err e, o)
spend (ok _) o = (ok tt, clear_current (record o { authority_spent = true }))

unfoldable pub enter_reinvocation : Action Owner (Unit {0})
unfolding spend
enter_reinvocation o = spend (check_reinvocation o) o

-- `_exact_prior_accepted_event`. Its last test, that the result and the record hold one object, is not
-- modelled; the writer takes the event of a replay from the record.
prior_of :
    RequestSignature → Option IdempotencyRecord → Option OrderEvent → Result Failure OrderEvent
prior_of signature none e = err invalid_result
prior_of signature (some r) none =
    Result.◌>>◌ (raise_if (not (signature_eq r.signature signature)) invalid_result)
      (err invalid_result)
prior_of signature (some r) (some e) =
    Result.◌>>◌ (raise_if (not (signature_eq r.signature signature)) invalid_result) (ok e)

is_replay_outcome : PostgresWriteSideOutcome → Bool
is_replay_outcome replay = true
is_replay_outcome _ = false

is_replay_verdict : IdempotencyVerdict → Bool
is_replay_verdict Idempotency.replay = true
is_replay_verdict _ = false

unfoldable pub exact_prior_accepted_event :
    RequestSignature → PostgresWriteSideResult → Result Failure OrderEvent
unfolding prior_of is_replay_outcome is_replay_verdict
exact_prior_accepted_event signature result =
    Result.◌>>◌ (raise_if (not (is_replay_outcome result.outcome)) invalid_result) (
      Result.◌>>◌
        (raise_if (not (is_replay_verdict result.idempotency_decision.verdict)) invalid_result)
        (prior_of signature result.idempotency_decision.prior result.accepted_event))

-- `PostgresWriteSideCurrentResponseEvaluation._from_owner`, its choice of the result
select_result :
    RequestSignature → PostgresWriteSideResult → RuntimeDecisionResponse → Result Failure Selection
unfolding exact_prior_accepted_event
select_result signature result use_current_result = ok (current result)
select_result signature result return_prior_accepted_result =
    Result.◌>>=◌ (exact_prior_accepted_event signature result) λ e. ok (prior e)
select_result signature result block_current_continuation = ok nothing
select_result signature result require_escalation = ok nothing

deliver_evaluation :
    RequestSignature
    → PostgresWriteSideResult
    → Feedback
    → Result Failure Evaluation
    → Result Failure Delivery
unfolding select_result
deliver_evaluation signature result feedback (ok e) =
    Result.◌>>=◌ (select_result signature result e.decision.response) λ s. ok (evaluated result e s)
deliver_evaluation signature result feedback (err decision_refused) = ok (refused result feedback)
deliver_evaluation signature result feedback (err e) = err e

unfoldable pub make_delivery :
    RequestSignature → PostgresWriteSideResult → String → Reasons → Result Failure Delivery
unfolding deliver_evaluation
make_delivery signature result outcome_id reasons =
    Result.◌>>=◌ (map_to_feedback outcome_id result reasons)
      λ feedback. deliver_evaluation signature result feedback (evaluate_runtime_decision feedback)

abbrev id_or : Option String → String → String
id_or none minted = minted
id_or (some i) minted = i

-- `evaluate_current_response`, with the uuid that it would mint
cache_delivery : Result Failure Delivery → Action Owner Delivery
cache_delivery (err e) o = (err e, o)
cache_delivery (ok d) o = (ok d, record o { cached_current_response_delivery = some d })

respond_on :
    Option PostgresWriteSideResult → Option Delivery → String → Reasons → Action Owner Delivery
unfolding cache_delivery
respond_on none d minted reasons o = (err lifecycle_misuse, o)
respond_on (some result) (some d) minted reasons o = (ok d, o)
respond_on (some result) none minted reasons o =
    let i = id_or o.current_response_outcome_id minted in
    cache_delivery (make_delivery o.request_signature result i reasons)
      (record o { current_response_outcome_id = some i })

unfoldable pub evaluate_current_response : String → Reasons → Action Owner Delivery
unfolding respond_on
evaluate_current_response minted reasons o =
    respond_on o.current_response_result o.cached_current_response_delivery minted reasons o

module _ {D : Type 0} (db : Session D) (writer : WriteSide) (stamp : Stamp) where
  dispatch_by : CommandType → RequestSignature → Action D PostgresWriteSideResult
  dispatch_by CommandType.create signature = do
    x ← create_order db writer stamp signature.request_id signature.order_id signature.amount
    return (result_of x)
  dispatch_by CommandType.pay signature = do
    x ← pay_order db writer stamp signature.request_id signature.order_id signature.amount
    return (result_of x)

  -- `_dispatch_retained_request`
  unfoldable pub dispatch_retained_request : Owner → Action D PostgresWriteSideResult
  unfolding dispatch_by
  dispatch_retained_request o = dispatch_by o.request_signature.command_type o.request_signature
