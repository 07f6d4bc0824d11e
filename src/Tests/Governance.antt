-- ===== src/Tests/Governance.antt =====
-- The theorems on decisions, authority and the owner, at a result that the stream's lock rejected.
use streaming_system_compass.Base.{◌≤◌, true, false, none, some, ◌≡◌, refl}
use streaming_system_compass.Base.Result.{ok}
use streaming_system_compass.Storage.Idempotency.{miss}
use streaming_system_compass.Admission.{lock_timeout}
use streaming_system_compass.Postgres.Delivery.{PostgresWriteSideResult, admission_rejected}
use streaming_system_compass.Base.Dict.{insert, lookup, empty}
use streaming_system_compass.Base.Text.{is_blank}
use streaming_system_compass.Outcome.{semantic_outcome}
use streaming_system_compass.Outcome.Technical.{
  map_runtime_technical_status, mapping_for_status, entry_of, merge_technical_status_into_evidence,
}
use streaming_system_compass.Outcome.ReadSide.{require_reason}
use streaming_system_compass.Governance.OutcomeMapping.{
  context_from_result, merge_caller_context, map_admission_status, map_write_side_result, update,
  evidence_from_result,
}
use streaming_system_compass.Governance.WriteSideOutcome.{
  Reasons, is_none, validate_result_shape, technical_status_of_result, status_by_outcome,
  admission_rejection_source, rejection_source, reject_verdict, status_of_verdict,
  order_id_from_result, request_id_from_result, reason_of_result, accepted_event_from_result,
  candidate_event_id_from_result,
}
use streaming_system_compass.Governance.Decision.{
  Feedback, map_to_feedback, feedback_from_source, refinement_for, evaluate_runtime_decision,
}
use streaming_system_compass.Governance.Agreement.{
  response_of, expected_response, evaluate_runtime_decision-determined,
}
use streaming_system_compass.Governance.Reinvocation.{authorized, evaluate_reinvocation_authority}
use streaming_system_compass.Governance.Authority.{authorized-refused}
use streaming_system_compass.Governance.Owner.{
  Owner, new_owner, enter_initial, publish_initial, evaluate_authority, enter_reinvocation,
  check_reinvocation,
}
use streaming_system_compass.Governance.Owner.Lifecycle.{
  Run, start, initial_entered, initial_returned, authority_evaluated, reinvocation_entered,
}
use streaming_system_compass.Governance.Owner.Dispatches.{
  dispatches-bound, second_dispatch-authorized, reinvocation-available,
}
use streaming_system_compass.Tests.{create_request}

abbrev locked_out : PostgresWriteSideResult
locked_out = record {
  outcome = admission_rejected;
  accepted_event = none;
  idempotency_decision = record { verdict = miss; prior = none };
  stream_admission_result = some (record { verdict = lock_timeout; order_id = "o1" });
  validation_decision = none;
  admission_result = none;
  validation_decision_evidence = none;
}

abbrev no_reasons : Reasons
no_reasons = record { idempotency = none; stream = some "busy"; validation = none; append = none }

locked_out_authorized :
    evaluate_reinvocation_authority create_request locked_out ≡ authorized create_request
unfolding evaluate_reinvocation_authority
locked_out_authorized = refl

abbrev locked_out_entered : Owner
locked_out_entered = record (new_owner create_request) { initial_invocation_started = true }

abbrev locked_out_returned : Owner
locked_out_returned = record locked_out_entered {
  initial_result = some locked_out;
  current_response_result = some locked_out;
}

entered-Run : Run create_request locked_out_entered true false 1
unfolding enter_initial
entered-Run = initial_entered start refl

returned-Run : Run create_request locked_out_returned false false 1
unfolding publish_initial
returned-Run = initial_returned locked_out entered-Run

abbrev locked_out_evaluated : Owner
locked_out_evaluated = record locked_out_returned {
  cached_reinvocation_evaluation = some (authorized create_request);
}

evaluated-Run : Run create_request locked_out_evaluated false false 1
unfolding evaluate_authority evaluate_reinvocation_authority
evaluated-Run = authority_evaluated returned-Run refl

abbrev spent_owner : Owner
spent_owner = record locked_out_evaluated { authority_spent = true; current_response_result = none }

spent-Run : Run create_request spent_owner false true 2
unfolding enter_reinvocation check_reinvocation
spent-Run = reinvocation_entered evaluated-Run refl

dispatches-bound_example : 2 ≤ 2
dispatches-bound_example = dispatches-bound create_request spent_owner false true 2 spent-Run

second_dispatch-authorized_example :
    (r : PostgresWriteSideResult) × (spent_owner.initial_result ≡ some r)
    × (evaluate_reinvocation_authority create_request r ≡ authorized create_request)
second_dispatch-authorized_example =
    second_dispatch-authorized create_request spent_owner false true spent-Run

reinvocation-available_example :
    (enter_reinvocation ((evaluate_authority locked_out_returned).1)).0 ≡ ok tt
reinvocation-available_example =
    reinvocation-available create_request locked_out_returned false false 1 locked_out returned-Run
      refl locked_out_authorized refl

locked_out_mapped : (f : Feedback) × (map_to_feedback "u1" locked_out no_reasons ≡ ok f)
unfolding map_to_feedback map_write_side_result validate_result_shape technical_status_of_result
    status_by_outcome admission_rejection_source rejection_source reject_verdict status_of_verdict
    context_from_result order_id_from_result request_id_from_result merge_caller_context
    map_admission_status map_runtime_technical_status mapping_for_status entry_of reason_of_result
    merge_technical_status_into_evidence semantic_outcome feedback_from_source refinement_for
    accepted_event_from_result candidate_event_id_from_result require_reason is_blank update
    evidence_from_result insert lookup empty
locked_out_mapped = (_, refl)

evaluate_runtime_decision-determined_example :
    response_of (evaluate_runtime_decision (locked_out_mapped.0)) ≡ expected_response locked_out
evaluate_runtime_decision-determined_example =
    evaluate_runtime_decision-determined "u1" locked_out no_reasons (locked_out_mapped.0)
      (locked_out_mapped.1)

authorized-refused_example :
    (is_none locked_out.accepted_event ≡ true)
    × (response_of (evaluate_runtime_decision (locked_out_mapped.0)) ≡ none)
authorized-refused_example =
    authorized-refused create_request locked_out locked_out_authorized "u1" no_reasons
      (locked_out_mapped.0) (locked_out_mapped.1)
