-- ===== src/Tests/Runs.antt =====
-- Runs of the handlers on the sample requests.
use streaming_system_compass.Base.{[], ◌∷◌, ◌≡◌, refl, ap, ◌∙◌}
use streaming_system_compass.Base.Result.{Result, ok}
use streaming_system_compass.Registry.{
  event, World, Reply, handle, new_world, check_idempotency, process, rehydrate, propose,
  run_command, validation_context, admit,
}
use streaming_system_compass.Failure.{Failure}
use streaming_system_compass.Tests.{
  create_stamp, create_request, created_event, strict_runtime, pay_stamp, pay_request, paid_event,
  requests,
}
use streaming_system_compass.Storage.Idempotency.{check, signature_eq, remember}
use streaming_system_compass.Base.Dict.{lookup, empty, insert}
use streaming_system_compass.Order.Aggregate.{new_aggregate, replay, create, pay, applied, apply}
use streaming_system_compass.Base.Text.{is_blank, is_space, strip}
use streaming_system_compass.Storage.EventStore.{load, append}
use streaming_system_compass.Money.{
  ensure_positive_money, normalize_money, parse_money, quantize_money,
}
use streaming_system_compass.Decimal.{rescale, decimal_eq, not_positive}
use streaming_system_compass.Order.{create_event}
use streaming_system_compass.Transition.Runtime.{decide, policy, select, validate}
use streaming_system_compass.Transition.{
  full_proof_validate, required_prev_status, validate_branches,
}
use streaming_system_compass.Admission.{
  append_if_admitted, prepare_stream, admission_result, is_admitted,
}
use streaming_system_compass.Registry.Soundness.{serve}

abbrev pub after_create : World
after_create = record {
  store = insert "o1" (created_event ∷ []) empty;
  idem = remember create_request created_event empty;
}

abbrev pub after_pay : World
after_pay = record {
  store = insert "o1" (created_event ∷ paid_event ∷ []) empty;
  idem = remember pay_request paid_event (remember create_request created_event empty);
}

pub create_run :
    handle strict_runtime create_stamp create_request new_world
    ≡ (ok (event created_event), after_create)
unfolding handle new_world check_idempotency process rehydrate propose run_command
    validation_context admit check signature_eq remember lookup empty insert new_aggregate replay
    create pay applied apply is_blank is_space strip load append ensure_positive_money
    normalize_money parse_money quantize_money rescale decimal_eq not_positive create_event decide
    policy select validate full_proof_validate required_prev_status validate_branches
    append_if_admitted prepare_stream admission_result is_admitted
create_run = refl

pub pay_run :
    handle strict_runtime pay_stamp pay_request after_create ≡ (ok (event paid_event), after_pay)
unfolding handle new_world check_idempotency process rehydrate propose run_command
    validation_context admit check signature_eq remember lookup empty insert new_aggregate replay
    create pay applied apply is_blank is_space strip load append ensure_positive_money
    normalize_money parse_money quantize_money rescale decimal_eq not_positive create_event decide
    policy select validate full_proof_validate required_prev_status validate_branches
    append_if_admitted prepare_stream admission_result is_admitted
pay_run = refl

pub serve_run : serve strict_runtime requests new_world ≡ after_pay
unfolding serve
serve_run =
    ap (λ (x : Result Failure Reply × World). (handle strict_runtime pay_stamp pay_request x.1).1)
      create_run
    ∙ ap (λ (x : Result Failure Reply × World). x.1) pay_run

after_pay-load : load "o1" after_pay.store ≡ created_event ∷ paid_event ∷ []
unfolding load insert lookup empty
after_pay-load = refl

pub serve_run-load :
    load "o1" (serve strict_runtime requests new_world).store ≡ created_event ∷ paid_event ∷ []
serve_run-load = ap (λ (w : World). load "o1" w.store) serve_run ∙ after_pay-load
