-- ===== src/Governance/Reinvocation.antt =====
-- src/compass/runtime/postgres_write_side_reinvocation_authority.py and reinvocation_authority.py: when
-- a request may be invoked once more. The checks of Python types are the types of the fields.
use streaming_system_compass.Base.{
  Bool, true, false, ◌||◌, ◌&&◌, str_eq, ltb, Option, none, some, if◌then◌else◌,
}
use streaming_system_compass.Transition.{EnforcementAction, allow, block, ValidationDecision}
use streaming_system_compass.Storage.Idempotency.{RequestSignature, IdempotencyVerdict, miss}
use streaming_system_compass.Admission.{
  AdmissionVerdict, stale_write, lock_timeout, is_admitted, StreamAdmissionResult, AdmissionResult,
  AppendVersionMismatchEvidence,
}
use streaming_system_compass.Postgres.Delivery.{
  PostgresWriteSideOutcome, admission_rejected, PostgresWriteSideResult,
}
use streaming_system_compass.Governance.WriteSideOutcome.{is_none}

-- `ReinvocationAuthorization` and `NoReinvocationAuthority`, its explanation left out
pub data Authority : Type 0 where
  authorized not_authorized : RequestSignature → Authority

abbrev pub is_rejected : PostgresWriteSideOutcome → Bool
is_rejected admission_rejected = true
is_rejected _ = false

abbrev pub is_miss : IdempotencyVerdict → Bool
is_miss miss = true
is_miss _ = false

abbrev pub is_lock_timeout : AdmissionVerdict → Bool
is_lock_timeout lock_timeout = true
is_lock_timeout _ = false

abbrev pub is_stale_write : AdmissionVerdict → Bool
is_stale_write stale_write = true
is_stale_write _ = false

abbrev pub is_allow : EnforcementAction → Bool
is_allow allow = true
is_allow block = false

-- The clauses on the stream admission of the two profiles.
unfoldable pub stream_timed_out : RequestSignature → Option StreamAdmissionResult → Bool
stream_timed_out signature none = false
stream_timed_out signature (some s) =
    is_lock_timeout s.verdict && str_eq s.order_id signature.order_id

unfoldable pub stream_admitted : RequestSignature → Option StreamAdmissionResult → Bool
stream_admitted signature none = false
stream_admitted signature (some s) = is_admitted s.verdict && str_eq s.order_id signature.order_id

-- `_is_eligible_preparation_lock_timeout`
unfoldable pub is_eligible_lock_timeout : RequestSignature → PostgresWriteSideResult → Bool
unfolding stream_timed_out
is_eligible_lock_timeout signature result =
    is_rejected result.outcome
    && is_none result.accepted_event
    && is_miss result.idempotency_decision.verdict
    && is_none result.idempotency_decision.prior
    && stream_timed_out signature result.stream_admission_result
    && is_none result.validation_decision
    && is_none result.validation_decision_evidence
    && is_none result.admission_result

unfoldable pub version_advanced : Option AppendVersionMismatchEvidence → Bool
version_advanced none = false
version_advanced (some m) = ltb m.expected_current_version m.observed_current_version

unfoldable pub append_stale : Option ValidationDecision → Option AdmissionResult → Bool
unfolding version_advanced
append_stale none a = false
append_stale (some v) none = false
append_stale (some v) (some a) =
    is_allow v.action
    && is_stale_write a.verdict
    && is_none a.accepted_event_id
    && version_advanced a.append_version_mismatch_evidence
    && str_eq a.candidate_event_id v.validation_result.candidate_event_id

-- `_is_eligible_append_version_mismatch`
unfoldable pub is_eligible_version_mismatch : RequestSignature → PostgresWriteSideResult → Bool
unfolding append_stale stream_admitted
is_eligible_version_mismatch signature result =
    is_rejected result.outcome
    && is_none result.accepted_event
    && is_miss result.idempotency_decision.verdict
    && is_none result.idempotency_decision.prior
    && stream_admitted signature result.stream_admission_result
    && append_stale result.validation_decision result.admission_result

-- `evaluate_postgres_write_side_reinvocation_authority`
unfoldable pub evaluate_reinvocation_authority :
    RequestSignature → PostgresWriteSideResult → Authority
unfolding is_eligible_lock_timeout is_eligible_version_mismatch
evaluate_reinvocation_authority signature result =
    if is_eligible_lock_timeout signature result || is_eligible_version_mismatch signature result
    then authorized signature
    else not_authorized signature
