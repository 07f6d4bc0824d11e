-- ===== src/Tests/Parts.antt =====
-- The theorems on validation, on the aggregate's commands and on money, at sample values.
use streaming_system_compass.Order.{CommandType, OrderEvent, OrderStatus, EventType, create_event}
use streaming_system_compass.Registry.{run_command}
use streaming_system_compass.Order.Contract.{
  contract_id, contract_version, transition_event_type_legal_from_accepted_status,
}
use streaming_system_compass.Order.Contract.Edition.{
  order_correctness_contract_v0, from_identity-v0, validate_structure-v0,
}
use streaming_system_compass.Order.Contract.Parity.{Permits, commands_implement_contract}
use streaming_system_compass.Order.Contract.Registered.{from_identity-implemented, times}
use streaming_system_compass.Order.Contract.Edition.Structure.{
  IsStructured, validate_structure-IsStructured,
}
use streaming_system_compass.Base.{
  ◌<◌, ◌+◌, inr, ℕ, List, none, some, true, false, ◌≡◌, ◌↔◌, refl, ◌*◌, ◌^◌,
}
use streaming_system_compass.Base.Result.{ok}
use streaming_system_compass.Base.Text.{is_blank, is_space, strip}
use streaming_system_compass.Decimal.{
  finite, negsuc, cents, decimal_eq, rescale, not_positive, half_even,
}
use streaming_system_compass.Decimal.Rounding.{IsNearest}
use streaming_system_compass.Decimal.Parse.{parse_decimal, show_cents}
use streaming_system_compass.Decimal.Parse.RoundTrip.{parse-show_cents}
use streaming_system_compass.Money.{
  decimal, int, str, parse_money, quantize_money, normalize_money, ensure_positive_money,
  money_to_storage_string,
}
use streaming_system_compass.Money.Canonical.{IsPositiveMoney, ensure_positive-IsPositiveMoney}
use streaming_system_compass.Money.Rounding.{normalize_rounds}
use streaming_system_compass.Money.Text.{stored_text_reads_back}
use streaming_system_compass.Order.Aggregate.{OrderAggregate, fresh, create, pay, applied}
use streaming_system_compass.Transition.{
  ValidationContext, passed, validate_branches, full_proof_validate, required_prev_status,
}
use streaming_system_compass.Transition.Evidence.{validate_with_rule_evidence}
use streaming_system_compass.Transition.Evidence.Coherence.{
  violation_of, validate_with_rule_evidence-ok,
}
use streaming_system_compass.Transition.Soundness.{
  IsTruthful, Holds, AllHold, earlier, validate-passed, validate-first_violated,
}
use streaming_system_compass.Tests.{created_event, paid_event, ten_euros, create_stamp, pay_stamp}

-- The context of an order with no history, in which a payment is illegal.
abbrev no_history : ValidationContext
no_history = record {
  actual_prev_event = none;
  actual_prev_version = 0;
  actual_prev_status = OrderStatus.init;
}

-- A payment that tells the truth about the empty history.
abbrev early_payment : OrderEvent
early_payment = record created_event { event_type = EventType.paid }

validate-passed_example :
    ((full_proof_validate created_event no_history).verdict ≡ passed)
    ↔ IsTruthful created_event no_history
validate-passed_example = validate-passed created_event no_history

early_payment-rule :
    (validate_branches early_payment no_history).1
    ≡ some transition_event_type_legal_from_accepted_status
unfolding validate_branches required_prev_status
early_payment-rule = refl

validate-first_violated_example :
    (¬ Holds transition_event_type_legal_from_accepted_status early_payment no_history)
    × AllHold (earlier transition_event_type_legal_from_accepted_status) early_payment no_history
validate-first_violated_example =
    validate-first_violated early_payment no_history
      transition_event_type_legal_from_accepted_status early_payment-rule

named_event : is_blank "e1" ≡ false
unfolding is_blank is_space
named_event = refl

validate_with_rule_evidence-ok_example :
    validate_with_rule_evidence early_payment no_history
    ≡ ok (record {
      validation_result = full_proof_validate early_payment no_history;
      observed_violation =
          violation_of early_payment (validate_branches early_payment no_history).1;
    })
validate_with_rule_evidence-ok_example =
    validate_with_rule_evidence-ok early_payment no_history named_event

create_made : create (fresh "o1") create_stamp "r1" (decimal ten_euros) ≡ ok created_event
unfolding create create_event is_blank is_space ensure_positive_money normalize_money parse_money
    quantize_money rescale not_positive
create_made = refl

abbrev created_order : OrderAggregate
created_order = applied (fresh "o1") created_event

pay_made : pay created_order pay_stamp "r2" (decimal ten_euros) ≡ ok paid_event
unfolding pay create_event applied decimal_eq is_blank is_space ensure_positive_money
    normalize_money parse_money quantize_money rescale not_positive
pay_made = refl

ten_accepted : ensure_positive_money (int false 10) ≡ ok ten_euros
unfolding ensure_positive_money normalize_money parse_money quantize_money rescale not_positive
ten_accepted = refl

ensure_positive-IsPositiveMoney_example : IsPositiveMoney ten_euros
ensure_positive-IsPositiveMoney_example =
    ensure_positive-IsPositiveMoney (int false 10) ten_euros ten_accepted

-- 1.005 is rounded to the even cent
tie_normalized : normalize_money (decimal (finite false 1005 (negsuc 2))) ≡ ok (cents false 100)
unfolding normalize_money parse_money quantize_money rescale half_even
tie_normalized = refl

normalize_rounds_example : (false ≡ false) × IsNearest 100 (1005 * 100) (10 ^ (2 + 1))
normalize_rounds_example = normalize_rounds false false 1005 2 100 tie_normalized

stored_text_reads_back_example :
    (text : List ℕ) × (money_to_storage_string (decimal (finite false 1005 (negsuc 2))) ≡ ok text)
    × (normalize_money (str text) ≡ ok (cents false 100))
stored_text_reads_back_example =
    stored_text_reads_back (decimal (finite false 1005 (negsuc 2))) (cents false 100) tie_normalized

parse-show_cents_example : parse_decimal (strip (show_cents true 1205)) ≡ some (cents true 1205)
parse-show_cents_example = parse-show_cents true 1205

commands_implement_contract_example :
    (run_command CommandType.create (fresh "o1") create_stamp "r1" (decimal ten_euros)
      ≡ ok created_event)
    ↔ Permits order_correctness_contract_v0 CommandType.create
        (fresh "o1")
        create_stamp
        "r1"
        (decimal ten_euros)
        created_event
commands_implement_contract_example =
    commands_implement_contract order_correctness_contract_v0 from_identity-v0 CommandType.create
      (fresh "o1") create_stamp "r1" (decimal ten_euros) created_event

from_identity-implemented_example :
    (paid_event.sequence
      ≡ created_order.current_version + order_correctness_contract_v0.next_sequence_increment)
    × ((n : ℕ) × (0 < n)
        × (paid_event.amount ≡ times n order_correctness_contract_v0.normalization_quantum))
from_identity-implemented_example =
    from_identity-implemented contract_id contract_version order_correctness_contract_v0
      from_identity-v0 created_order pay_stamp "r2" (decimal ten_euros) paid_event (inr pay_made)

validate_structure-IsStructured_example : IsStructured order_correctness_contract_v0
validate_structure-IsStructured_example =
    validate_structure-IsStructured order_correctness_contract_v0 validate_structure-v0
