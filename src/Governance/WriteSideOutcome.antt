-- ===== src/Governance/WriteSideOutcome.antt =====
-- src/compass/runtime/write_side_outcome_mapping.py: from a write-side result to a semantic outcome.
-- The reason texts of the result's parts are an argument, since their models have none.
use streaming_system_compass.Base.{
  Bool, true, false, not, ◌&&◌, String, str_eq, Option, none, some, List, [], ◌∷◌, if◌then◌else◌,
}
use streaming_system_compass.Base.Result.{Result, ok, err, ◌>>=◌, ◌>>◌, raise_if}
use streaming_system_compass.Failure.{Failure, invalid_result, contradictory_evidence}
use streaming_system_compass.Order.{OrderEvent}
use streaming_system_compass.Transition.{ValidationDecision}
use streaming_system_compass.Storage.Idempotency.{IdempotencyRecord}
use streaming_system_compass.Admission.{
  AdmissionVerdict, admitted, stale_write, lock_timeout, infrastructure_error, is_admitted,
  StreamAdmissionResult, AdmissionResult,
}
use streaming_system_compass.Postgres.Delivery.{
  PostgresWriteSideOutcome, accepted, replay, conflict, validation_blocked, admission_rejected,
  PostgresWriteSideResult,
}
use streaming_system_compass.Outcome.ReadSide.{require_reason}

-- The reason texts of the four parts.
pub record Reasons : Type 0 where
  pub idempotency : Option String
  pub stream : Option String
  pub validation : Option String
  pub append : Option String

-- `_accepted_event_from_result`
prior_event : Option IdempotencyRecord → Option OrderEvent
prior_event none = none
prior_event (some r) = some r.accepted_event

abbrev or_else : Option OrderEvent → Option OrderEvent → Option OrderEvent
or_else (some e) o = some e
or_else none o = o

unfoldable pub accepted_event_from_result : PostgresWriteSideResult → Option OrderEvent
unfolding prior_event
accepted_event_from_result result =
    or_else result.accepted_event (prior_event result.idempotency_decision.prior)

-- The verdict that rejected the admission: that of the append, or else that of the stream.
unfoldable pub reject_verdict : AdmissionVerdict → Result Failure AdmissionVerdict
reject_verdict admitted = err invalid_result
reject_verdict stale_write = ok stale_write
reject_verdict lock_timeout = ok lock_timeout
reject_verdict infrastructure_error = ok infrastructure_error

unfoldable pub rejection_source :
    Option AdmissionResult → Option StreamAdmissionResult → Result Failure AdmissionVerdict
unfolding reject_verdict
rejection_source (some a) s = reject_verdict a.verdict
rejection_source none (some s) = reject_verdict s.verdict
rejection_source none none = err invalid_result

-- `_admission_rejection_source`, of which the callers use the verdict and the reason
unfoldable pub admission_rejection_source :
    PostgresWriteSideResult → Result Failure AdmissionVerdict
unfolding rejection_source
admission_rejection_source result =
    rejection_source result.admission_result result.stream_admission_result

abbrev pub is_none {ℓ} : {A : Type ℓ} → Option A → Bool
is_none none = true
is_none (some _) = false

carries_rejected_id : Option AdmissionResult → Bool
carries_rejected_id none = false
carries_rejected_id (some a) = not (is_admitted a.verdict) && not (is_none a.accepted_event_id)

check_outcome : PostgresWriteSideOutcome → PostgresWriteSideResult → Result Failure (Unit {0})
unfolding accepted_event_from_result
check_outcome accepted r = raise_if (is_none r.accepted_event) invalid_result
check_outcome replay r = raise_if (is_none (accepted_event_from_result r)) invalid_result
check_outcome conflict r = ok tt
check_outcome validation_blocked r = raise_if (is_none r.validation_decision) invalid_result
check_outcome admission_rejected r = ok tt

check_rejection : PostgresWriteSideOutcome → PostgresWriteSideResult → Result Failure (Unit {0})
unfolding admission_rejection_source
check_rejection admission_rejected r = admission_rejection_source r >> ok tt
check_rejection _ r = ok tt

-- `_validate_postgres_write_side_result_shape`
unfoldable pub validate_result_shape : PostgresWriteSideResult → Result Failure (Unit {0})
unfolding check_outcome check_rejection carries_rejected_id
validate_result_shape result = do
  check_outcome result.outcome result
  raise_if (carries_rejected_id result.admission_result) invalid_result
  check_rejection result.outcome result

-- `_technical_status_for_admission_verdict`
unfoldable pub status_of_verdict : AdmissionVerdict → Result Failure String
status_of_verdict stale_write = ok "CONCURRENT_STATE_STALENESS"
status_of_verdict lock_timeout = ok "LOCK_TIMEOUT"
status_of_verdict infrastructure_error = ok "WRITE_SIDE_INFRASTRUCTURE_ERROR"
status_of_verdict admitted = err invalid_result

unfoldable pub status_by_outcome :
    PostgresWriteSideOutcome → PostgresWriteSideResult → Result Failure String
unfolding status_of_verdict admission_rejection_source
status_by_outcome accepted r = ok "WRITE_SIDE_ACCEPTED"
status_by_outcome replay r = ok "IDEMPOTENT_REPLAY"
status_by_outcome conflict r = ok "IDEMPOTENCY_CONFLICT"
status_by_outcome validation_blocked r = ok "COMPASS_VALIDATION_BLOCKED"
status_by_outcome admission_rejected r = admission_rejection_source r >>= status_of_verdict

-- `_technical_status_for_postgres_write_side_result`
unfoldable pub technical_status_of_result : PostgresWriteSideResult → Result Failure String
unfolding status_by_outcome
technical_status_of_result result = status_by_outcome result.outcome result

-- `_reason_for_postgres_write_side_result`
admission_reason : PostgresWriteSideResult → Reasons → Option String
admission_reason r reasons = if is_none r.admission_result then reasons.stream else reasons.append

reason_by_outcome : PostgresWriteSideOutcome → PostgresWriteSideResult → String → Reasons → String
unfolding admission_reason require_reason
reason_by_outcome accepted r status reasons =
    "Write-side candidate event was admitted into accepted history."
reason_by_outcome replay r status reasons =
    require_reason reasons.idempotency "Missing explicit reason from REPLAY idempotency decision."
reason_by_outcome conflict r status reasons =
    require_reason reasons.idempotency "Missing explicit reason from CONFLICT idempotency decision."
reason_by_outcome validation_blocked r status reasons =
    require_reason reasons.validation "Missing explicit reason from ValidationDecision."
reason_by_outcome admission_rejected r status reasons =
    require_reason (admission_reason r reasons) (
      if str_eq status "LOCK_TIMEOUT"
      then "Missing explicit reason from LOCK_TIMEOUT admission result."
      else if str_eq status "CONCURRENT_STATE_STALENESS"
      then "Missing explicit reason from CONCURRENT_STATE_STALENESS admission result."
      else "Missing explicit reason from WRITE_SIDE_INFRASTRUCTURE_ERROR admission result.")

unfoldable pub reason_of_result : PostgresWriteSideResult → String → Reasons → String
unfolding reason_by_outcome
reason_of_result r = reason_by_outcome r.outcome r

-- The ids that a set comprehension collects, where they are not None.
abbrev collect_id : Option String → List String → List String
collect_id none ids = ids
collect_id (some i) ids = i ∷ ids

all_same : String → List String → Bool
all_same i [] = true
all_same i (j ∷ ids) = let rest = all_same i ids in str_eq i j && rest

-- The first of them, unless two differ.
agreed_id : List String → Result Failure (Option String)
unfolding all_same
agreed_id [] = ok none
agreed_id (i ∷ ids) = if all_same i ids then ok (some i) else err contradictory_evidence

event_order_id : Option OrderEvent → Option String
event_order_id none = none
event_order_id (some e) = some e.order_id

event_request_id : Option OrderEvent → Option String
event_request_id none = none
event_request_id (some e) = some e.request_id

stream_order_id : Option StreamAdmissionResult → Option String
stream_order_id none = none
stream_order_id (some s) = some s.order_id

record_order_id : Option IdempotencyRecord → Option String
record_order_id none = none
record_order_id (some r) = some r.signature.order_id

record_request_id : Option IdempotencyRecord → Option String
record_request_id none = none
record_request_id (some r) = some r.signature.request_id

-- `_order_id_from_result` and `_request_id_from_result`
unfoldable pub order_id_from_result :
    PostgresWriteSideResult → Option OrderEvent → Result Failure (Option String)
unfolding agreed_id event_order_id stream_order_id record_order_id
order_id_from_result result accepted_event = agreed_id (
    collect_id (event_order_id accepted_event) (
      collect_id (stream_order_id result.stream_admission_result)
        (collect_id (record_order_id result.idempotency_decision.prior) [])))

unfoldable pub request_id_from_result :
    PostgresWriteSideResult → Option OrderEvent → Result Failure (Option String)
unfolding agreed_id event_request_id record_request_id
request_id_from_result result accepted_event = agreed_id (
    collect_id (event_request_id accepted_event)
      (collect_id (record_request_id result.idempotency_decision.prior) []))

candidate_of : Option AdmissionResult → Option ValidationDecision → Option String
candidate_of (some a) v = some a.candidate_event_id
candidate_of none (some v) = some v.validation_result.candidate_event_id
candidate_of none none = none

-- `_candidate_event_id_from_result`
unfoldable pub candidate_event_id_from_result : PostgresWriteSideResult → Option String
unfolding candidate_of
candidate_event_id_from_result r = candidate_of r.admission_result r.validation_decision
