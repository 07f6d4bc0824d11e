-- ===== src/Governance/Authority.antt =====
-- src/compass/runtime/postgres_write_side_reinvocation_authority.py beside the runtime decision of
-- write_side_runtime_decision.py.
use streaming_system_compass.Base.{
  Bool, true, false, Bool-cases, ◌&&◌, String, Option, none, some, ◌≡◌, refl, ◌∙◌, inl, inr, arith,
}
use streaming_system_compass.Base.Result.{ok}
use streaming_system_compass.Storage.Idempotency.{RequestSignature}
use streaming_system_compass.Admission.{
  AdmissionVerdict, admitted, stale_write, lock_timeout, infrastructure_error,
  StreamAdmissionResult, AdmissionResult,
}
use streaming_system_compass.Transition.{ValidationDecision}
use streaming_system_compass.Postgres.Delivery.{
  PostgresWriteSideOutcome, accepted, replay, conflict, validation_blocked, admission_rejected,
  PostgresWriteSideResult,
}
use streaming_system_compass.Governance.WriteSideOutcome.{
  Reasons, is_none, admission_rejection_source, rejection_source, reject_verdict,
}
use streaming_system_compass.Governance.Decision.{
  Feedback, map_to_feedback, evaluate_runtime_decision,
}
use streaming_system_compass.Governance.Reinvocation.{
  authorized, is_rejected, is_lock_timeout, is_stale_write, stream_timed_out, append_stale,
  is_eligible_lock_timeout, is_eligible_version_mismatch, evaluate_reinvocation_authority,
}
use streaming_system_compass.Governance.Agreement.{
  outcome_response, rejection_response, expected_response, response_of,
  evaluate_runtime_decision-determined,
}

and-split : (a b : Bool) → a && b ≡ true → (a ≡ true) × (b ≡ true)
and-split true b h = (refl, h)
and-split false b h = absurd (cc h)

timed_out-refused :
    (o : PostgresWriteSideOutcome) (signature : RequestSignature) (a : Option AdmissionResult)
    (s : Option StreamAdmissionResult)
    → is_rejected o ≡ true
    → stream_timed_out signature s ≡ true
    → is_none a ≡ true
    → outcome_response o (rejection_source a s) ≡ none
unfolding outcome_response rejection_source rejection_response reject_verdict stream_timed_out
timed_out-refused admission_rejected signature none (some s) h h' h'' =
    verdict-refused s.verdict ((and-split _ _ h').0)
  where
    verdict-refused :
        (v : AdmissionVerdict)
        → is_lock_timeout v ≡ true
        → rejection_response (reject_verdict v) ≡ none
    verdict-refused lock_timeout e = refl
    verdict-refused admitted e = refl
    verdict-refused stale_write e = refl
    verdict-refused infrastructure_error e = absurd (cc e)
timed_out-refused admission_rejected signature none none h h' h'' = absurd (cc h')
timed_out-refused admission_rejected signature (some a) s h h' h'' = absurd (cc h'')
timed_out-refused accepted signature a s h h' h'' = absurd (cc h)
timed_out-refused replay signature a s h h' h'' = absurd (cc h)
timed_out-refused conflict signature a s h h' h'' = absurd (cc h)
timed_out-refused validation_blocked signature a s h h' h'' = absurd (cc h)

append_stale-refused :
    (o : PostgresWriteSideOutcome) (v : Option ValidationDecision) (a : Option AdmissionResult)
    (s : Option StreamAdmissionResult)
    → is_rejected o ≡ true
    → append_stale v a ≡ true
    → outcome_response o (rejection_source a s) ≡ none
unfolding outcome_response rejection_source rejection_response reject_verdict append_stale
append_stale-refused admission_rejected (some v) (some a) s h h' =
    verdict-refused a.verdict (ground arith)
  where
    verdict-refused :
        (v : AdmissionVerdict)
        → is_stale_write v ≡ true
        → rejection_response (reject_verdict v) ≡ none
    verdict-refused lock_timeout e = refl
    verdict-refused admitted e = refl
    verdict-refused stale_write e = refl
    verdict-refused infrastructure_error e = absurd (cc e)
append_stale-refused admission_rejected none a s h h' = absurd (cc h')
append_stale-refused admission_rejected (some v) none s h h' = absurd (cc h')
append_stale-refused accepted v a s h h' = absurd (cc h)
append_stale-refused replay v a s h h' = absurd (cc h)
append_stale-refused conflict v a s h h' = absurd (cc h)
append_stale-refused validation_blocked v a s h h' = absurd (cc h)

lock_timeout-refused :
    (signature : RequestSignature) (r : PostgresWriteSideResult)
    → is_eligible_lock_timeout signature r ≡ true
    → (expected_response r ≡ none) × (is_none r.accepted_event ≡ true)
unfolding is_eligible_lock_timeout expected_response admission_rejection_source
lock_timeout-refused signature r h = (
  timed_out-refused r.outcome signature r.admission_result r.stream_admission_result (ground arith)
      (ground arith) (ground arith),
  ground arith,
)

version_mismatch-refused :
    (signature : RequestSignature) (r : PostgresWriteSideResult)
    → is_eligible_version_mismatch signature r ≡ true
    → (expected_response r ≡ none) × (is_none r.accepted_event ≡ true)
unfolding is_eligible_version_mismatch expected_response admission_rejection_source
version_mismatch-refused signature r h = (
  append_stale-refused r.outcome r.validation_decision r.admission_result r.stream_admission_result
      (ground arith) (ground arith),
  ground arith,
)

-- Where the reinvocation of a request is authorized, its result accepted no event and the runtime
-- decision on that result is refused, whenever the result maps to feedback: no result is at once used,
-- returned, blocked or escalated and invoked again.
pub authorized-refused :
    (signature : RequestSignature) (r : PostgresWriteSideResult)
    → evaluate_reinvocation_authority signature r ≡ authorized signature
    → (outcome_id : String) (reasons : Reasons) (f : Feedback)
    → map_to_feedback outcome_id r reasons ≡ ok f
    → (is_none r.accepted_event ≡ true) × (response_of (evaluate_runtime_decision f) ≡ none)
unfolding evaluate_reinvocation_authority
authorized-refused signature r h outcome_id reasons f e =
    elim (Bool-cases (is_eligible_lock_timeout signature r)) [
      | inl a ↦
          let (h', h'') = lock_timeout-refused signature r a in
          (h'', evaluate_runtime_decision-determined outcome_id r reasons f e ∙ h')
      | inr a ↦ elim (Bool-cases (is_eligible_version_mismatch signature r)) [
        | inl b ↦
            let (h', h'') = version_mismatch-refused signature r b in
            (h'', evaluate_runtime_decision-determined outcome_id r reasons f e ∙ h')
        | inr b ↦ absurd (cc (rw (a, b) at h))
      ]
    ]
