-- ===== src/Governance/OutcomeMapping.antt =====
-- src/compass/runtime/write_side_outcome_mapping.py: the context and the evidence of the semantic
-- outcome, and the mapping.
use streaming_system_compass.Base.{
  Bool, true, false, not, ◌||◌, ◌&&◌, String, str_eq, Option, none, some, List, [], ◌∷◌,
}
use streaming_system_compass.Base.Dict.{lookup, insert, empty}
use streaming_system_compass.Base.Result.{Result, ok, ◌>>=◌, ◌>>◌, raise_if}
use streaming_system_compass.Failure.{Failure, context_conflict}
use streaming_system_compass.Order.{OrderEvent}
use streaming_system_compass.Transition.{
  ValidationMode, strict, off, ValidationVerdict, passed, failed, skipped, EnforcementAction, allow,
  block, ValidationDecision,
}
use streaming_system_compass.Storage.Idempotency.{IdempotencyVerdict, miss}
use streaming_system_compass.Admission.{
  AdmissionVerdict, admitted, stale_write, lock_timeout, infrastructure_error,
  StreamAdmissionResult, AdmissionResult,
}
use streaming_system_compass.Postgres.Delivery.{
  PostgresWriteSideOutcome, accepted, replay, conflict, validation_blocked, admission_rejected,
  PostgresWriteSideResult,
}
use streaming_system_compass.Outcome.{
  SemanticBoundary, Value, text, flag, null, Mapping, SemanticOutcome,
}
use streaming_system_compass.Outcome.Technical.{map_runtime_technical_status}
use streaming_system_compass.Outcome.ReadSide.{require_reason}
use streaming_system_compass.Governance.WriteSideOutcome.{
  Reasons, is_none, accepted_event_from_result, validate_result_shape, technical_status_of_result,
  reason_of_result, order_id_from_result, request_id_from_result, candidate_event_id_from_result,
}
use streaming_system_compass.Storage.Idempotency

-- `map_write_side_admission_status_to_semantic_outcome`
unfoldable pub map_admission_status :
    String → String → String → Mapping → Mapping → Result Failure SemanticOutcome
unfolding require_reason
map_admission_status outcome_id technical_status reason context evidence =
    map_runtime_technical_status outcome_id technical_status SemanticBoundary.layer_1_write_side
      (require_reason (some reason) "Missing explicit reason from write-side admission status.")
      context evidence

-- `_enum_value`, for each enum
abbrev outcome_value : PostgresWriteSideOutcome → String
outcome_value accepted = "ACCEPTED"
outcome_value replay = "REPLAY"
outcome_value conflict = "CONFLICT"
outcome_value validation_blocked = "VALIDATION_BLOCKED"
outcome_value admission_rejected = "ADMISSION_REJECTED"

abbrev idempotency_value : IdempotencyVerdict → String
idempotency_value miss = "miss"
idempotency_value Idempotency.replay = "replay"
idempotency_value Idempotency.conflict = "conflict"

abbrev admission_value : AdmissionVerdict → String
admission_value admitted = "ADMITTED"
admission_value stale_write = "STALE_WRITE"
admission_value lock_timeout = "LOCK_TIMEOUT"
admission_value infrastructure_error = "INFRASTRUCTURE_ERROR"

abbrev action_value : EnforcementAction → String
action_value allow = "allow"
action_value block = "block"

abbrev verdict_value : ValidationVerdict → String
verdict_value passed = "passed"
verdict_value failed = "failed"
verdict_value skipped = "skipped"

abbrev mode_value : ValidationMode → String
mode_value strict = "strict"
mode_value off = "off"

abbrev value_of : Option String → Value
value_of none = null
value_of (some s) = text s

abbrev event_id_of : Option OrderEvent → Option String
event_id_of none = none
event_id_of (some e) = some e.event_id

-- `_context_from_postgres_write_side_result`
unfoldable pub context_from_result : PostgresWriteSideResult → Result Failure Mapping
unfolding accepted_event_from_result order_id_from_result request_id_from_result
    candidate_event_id_from_result
context_from_result result = do
  let accepted_event = accepted_event_from_result result
  order_id ← order_id_from_result result accepted_event
  request_id ← request_id_from_result result accepted_event
  ok (
      insert "accepted_event_id" (value_of (event_id_of accepted_event)) (
        insert "candidate_event_id" (value_of (candidate_event_id_from_result result)) (
          insert "request_id" (value_of request_id) (
            insert "order_id" (value_of order_id)
              (insert "write_side_outcome" (text (outcome_value result.outcome)) empty)))))

abbrev stream_verdict : Option StreamAdmissionResult → Value
stream_verdict none = null
stream_verdict (some s) = text (admission_value s.verdict)

abbrev append_verdict : Option AdmissionResult → Value
append_verdict none = null
append_verdict (some a) = text (admission_value a.verdict)

-- `_validation_action` and its four siblings, of a decision that there may be.
abbrev of_decision : (ValidationDecision → Value) → Option ValidationDecision → Value
of_decision f none = null
of_decision f (some d) = f d

-- A reason where its part is present.
abbrev reason_if : Bool → Option String → Value
reason_if true reason = value_of reason
reason_if false reason = null

abbrev put : String → Value → Mapping → Mapping
put = insert

-- `_evidence_from_postgres_write_side_result`
unfoldable pub evidence_from_result : PostgresWriteSideResult → Reasons → Mapping
evidence_from_result result reasons =
    let d = result.validation_decision in
    put "append_admission_reason" (reason_if (not (is_none result.admission_result)) reasons.append)
      (put "append_admission_verdict" (append_verdict result.admission_result) (
        put "append_admission_result_present" (flag (not (is_none result.admission_result))) (
          put "validator_name" (of_decision (λ v. text v.validation_result.validator_name) d) (
            put "validation_mode"
              (of_decision (λ v. text (mode_value v.validation_result.validation_mode)) d)
              (put "validation_reason" (reason_if (not (is_none d)) reasons.validation) (
                put "validation_verdict"
                  (of_decision (λ v. text (verdict_value v.validation_result.verdict)) d)
                  (put "validation_action" (of_decision (λ v. text (action_value v.action)) d) (
                    put "validation_decision_present" (flag (not (is_none d))) (
                      put "stream_admission_reason"
                        (reason_if (not (is_none result.stream_admission_result)) reasons.stream)
                        (put "stream_admission_verdict"
                          (stream_verdict result.stream_admission_result)
                          (put "stream_admission_result_present"
                            (flag (not (is_none result.stream_admission_result)))
                            (put "idempotency_reason" (value_of reasons.idempotency) (
                              put "idempotency_verdict"
                                (text (idempotency_value result.idempotency_decision.verdict))
                                (put "accepted_event_present"
                                  (flag (not (is_none result.accepted_event)))
                                  (put "write_side_outcome" (text (outcome_value result.outcome)) (
                                    put "result_type" (text "PostgresWriteSideResult")
                                      empty))))))))))))))))

-- `key in _PROTECTED_CONTEXT_KEYS`
is_protected : String → Bool
is_protected key =
    str_eq key "write_side_outcome"
    || str_eq key "order_id"
    || str_eq key "request_id"
    || str_eq key "candidate_event_id"
    || str_eq key "accepted_event_id"

-- `merged[key] is not None and value != merged[key]`, where a protected value is a text or None
contradicts : Value → Option Value → Bool
contradicts value none = false
contradicts value (some null) = false
contradicts (text t) (some (text s)) = not (str_eq t s)
contradicts value (some v) = true

-- `_merge_context`, over the items of the caller's context
unfoldable pub merge_caller_context : Mapping → List (String × Value) → Result Failure Mapping
unfolding is_protected contradicts
merge_caller_context merged [] = ok merged
merge_caller_context merged ((key, value) ∷ items) = do
  raise_if (is_protected key && contradicts value (lookup key merged)) context_conflict
  merge_caller_context (insert key value merged) items

-- `_merge_mappings`
unfoldable pub update : Mapping → List (String × Value) → Mapping
update merged [] = merged
update merged ((key, value) ∷ items) = update (insert key value merged) items

-- `map_postgres_write_side_result_to_semantic_outcome`
unfoldable pub map_write_side_result :
    String
    → PostgresWriteSideResult
    → Reasons
    → List (String × Value)
    → List (String × Value)
    → Result Failure SemanticOutcome
map_write_side_result outcome_id result reasons context evidence = do
  validate_result_shape result
  technical_status ← technical_status_of_result result
  own ← context_from_result result
  merged ← merge_caller_context own context
  map_admission_status outcome_id technical_status
      (reason_of_result result technical_status reasons) merged
      (update (evidence_from_result result reasons) evidence)
