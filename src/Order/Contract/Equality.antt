-- ===== src/Order/Contract/Equality.antt =====
-- `==` and `in` on the vocabularies of src/core/order/correctness_contract.py.
use streaming_system_compass.Base.{
  ℕ, zero, suc, Bool, true, false, ◌&&◌, ◌||◌, not, List, [], ◌∷◌, ◌==◌, ◌≡◌, ◌∙◌, refl, sym, ap,
  arith,
}
use streaming_system_compass.Order.{EventType}
use streaming_system_compass.Order.Contract.{
  OrderCorrectnessRuleId, create_allowed_from_init, pay_allowed_from_created,
  create_normalized_amount_positive, pay_normalized_amount_positive,
  pay_normalized_amount_equals_total, candidate_sequence_is_next_aggregate_version,
  candidate_proof_derived_from_aggregate_predecessor,
  trusted_application_event_order_id_matches_aggregate,
  trusted_application_event_sequence_is_next_version, trusted_application_created_establishes_state,
  trusted_application_paid_establishes_state, trusted_application_updates_aggregate_history_head,
  transition_sequence_matches_accepted_next_version,
  transition_proof_prev_event_id_matches_accepted, transition_proof_prev_version_matches_accepted,
  transition_proof_prev_status_matches_accepted, transition_candidate_event_type_supported,
  transition_event_type_legal_from_accepted_status,
}
use streaming_system_compass.Order.Contract.Rules.{
  AmountConstraintKind, normalized_value_greater_than_zero,
  normalized_value_equals_current_total_amount,
}

-- The place of a rule identity in its enum, by which `==` tells identities apart.
abbrev place : OrderCorrectnessRuleId → ℕ
place create_allowed_from_init = 0
place pay_allowed_from_created = 1
place create_normalized_amount_positive = 2
place pay_normalized_amount_positive = 3
place pay_normalized_amount_equals_total = 4
place candidate_sequence_is_next_aggregate_version = 5
place candidate_proof_derived_from_aggregate_predecessor = 6
place trusted_application_event_order_id_matches_aggregate = 7
place trusted_application_event_sequence_is_next_version = 8
place trusted_application_created_establishes_state = 9
place trusted_application_paid_establishes_state = 10
place trusted_application_updates_aggregate_history_head = 11
place transition_sequence_matches_accepted_next_version = 12
place transition_proof_prev_event_id_matches_accepted = 13
place transition_proof_prev_version_matches_accepted = 14
place transition_proof_prev_status_matches_accepted = 15
place transition_candidate_event_type_supported = 16
place transition_event_type_legal_from_accepted_status = 17

abbrev pub rule_eq : OrderCorrectnessRuleId → OrderCorrectnessRuleId → Bool
rule_eq a b = place a == place b

abbrev rule_ids : List OrderCorrectnessRuleId
rule_ids =
    create_allowed_from_init ∷ pay_allowed_from_created ∷ create_normalized_amount_positive
    ∷ pay_normalized_amount_positive ∷ pay_normalized_amount_equals_total
    ∷ candidate_sequence_is_next_aggregate_version
    ∷ candidate_proof_derived_from_aggregate_predecessor
    ∷ trusted_application_event_order_id_matches_aggregate
    ∷ trusted_application_event_sequence_is_next_version
    ∷ trusted_application_created_establishes_state ∷ trusted_application_paid_establishes_state
    ∷ trusted_application_updates_aggregate_history_head
    ∷ transition_sequence_matches_accepted_next_version
    ∷ transition_proof_prev_event_id_matches_accepted
    ∷ transition_proof_prev_version_matches_accepted ∷ transition_proof_prev_status_matches_accepted
    ∷ transition_candidate_event_type_supported ∷ transition_event_type_legal_from_accepted_status
    ∷ []

-- The rule identity at a place.
abbrev nth_id : ℕ → List OrderCorrectnessRuleId → OrderCorrectnessRuleId
nth_id n [] = create_allowed_from_init
nth_id zero (a ∷ ids) = a
nth_id (suc n) (a ∷ ids) = nth_id n ids

abbrev at_place : ℕ → OrderCorrectnessRuleId
at_place n = nth_id n rule_ids

at_place-place : (a : OrderCorrectnessRuleId) → at_place (place a) ≡ a
at_place-place create_allowed_from_init = refl
at_place-place pay_allowed_from_created = refl
at_place-place create_normalized_amount_positive = refl
at_place-place pay_normalized_amount_positive = refl
at_place-place pay_normalized_amount_equals_total = refl
at_place-place candidate_sequence_is_next_aggregate_version = refl
at_place-place candidate_proof_derived_from_aggregate_predecessor = refl
at_place-place trusted_application_event_order_id_matches_aggregate = refl
at_place-place trusted_application_event_sequence_is_next_version = refl
at_place-place trusted_application_created_establishes_state = refl
at_place-place trusted_application_paid_establishes_state = refl
at_place-place trusted_application_updates_aggregate_history_head = refl
at_place-place transition_sequence_matches_accepted_next_version = refl
at_place-place transition_proof_prev_event_id_matches_accepted = refl
at_place-place transition_proof_prev_version_matches_accepted = refl
at_place-place transition_proof_prev_status_matches_accepted = refl
at_place-place transition_candidate_event_type_supported = refl
at_place-place transition_event_type_legal_from_accepted_status = refl

-- `==` tells rule identities apart.
pub rule_eq_sound : (a b : OrderCorrectnessRuleId) → rule_eq a b ≡ true → a ≡ b
rule_eq_sound a b h =
    let same : place a ≡ place b = ground arith in
    sym (at_place-place a) ∙ ap at_place same ∙ at_place-place b

abbrev pub event_type_eq : EventType → EventType → Bool
event_type_eq EventType.created EventType.created = true
event_type_eq EventType.paid EventType.paid = true
event_type_eq _ _ = false

abbrev pub kind_eq : AmountConstraintKind → AmountConstraintKind → Bool
kind_eq normalized_value_greater_than_zero normalized_value_greater_than_zero = true
kind_eq normalized_value_equals_current_total_amount normalized_value_equals_current_total_amount =
    true
kind_eq _ _ = false

module _ {ℓ} {A : Type ℓ} where
  unfoldable pub any_of : (A → Bool) → List A → Bool
  any_of f [] = false
  any_of f (x ∷ xs) = f x || any_of f xs

  -- `len(frozenset(xs)) == len(xs)`
  unfoldable pub is_unique : (A → A → Bool) → List A → Bool
  unfolding any_of
  is_unique eq [] = true
  is_unique eq (x ∷ xs) = not (any_of (eq x) xs) && is_unique eq xs
