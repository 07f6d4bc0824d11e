-- ===== src/Order/Contract/Edition.antt =====
-- src/core/order/correctness_contract.py: the registered edition, its materialization, and the
-- structural checks that it passes. A frozenset is a list of its members; the checks of Python
-- types are the types of the fields.
pub mod Checks
pub mod Structure
use streaming_system_compass.Base.{
  ℕ, Bool, true, false, ◌&&◌, not, List, [], ◌∷◌, String, str_eq, ◌==◌, ltb, if◌then◌else◌, ◌≡◌,
  refl,
}
use streaming_system_compass.Base.Text.{codes, strip, is_blank, is_space}
use streaming_system_compass.Base.Result.{Result, ok, err, ◌>>=◌, ◌>>◌, raise_if}
use streaming_system_compass.Decimal.{Decimal, cents, not_positive, finite, infinity, nan}
use streaming_system_compass.Failure.{Failure, no_definition, invalid_contract}
use streaming_system_compass.Order.{CommandType, EventType, OrderStatus, status_eq, command_eq}
use streaming_system_compass.Order.Contract.{
  contract_id, contract_version, OrderCorrectnessRuleId, create_allowed_from_init,
  pay_allowed_from_created, create_normalized_amount_positive, pay_normalized_amount_positive,
  pay_normalized_amount_equals_total, candidate_sequence_is_next_aggregate_version,
  candidate_proof_derived_from_aggregate_predecessor,
  trusted_application_event_order_id_matches_aggregate,
  trusted_application_event_sequence_is_next_version, trusted_application_created_establishes_state,
  trusted_application_paid_establishes_state, trusted_application_updates_aggregate_history_head,
  transition_sequence_matches_accepted_next_version,
  transition_proof_prev_event_id_matches_accepted, transition_proof_prev_version_matches_accepted,
  transition_proof_prev_status_matches_accepted, transition_candidate_event_type_supported,
  transition_event_type_legal_from_accepted_status,
}
use streaming_system_compass.Order.Contract.Rules.{
  CorrectnessRule, correctness_rule, AllowedTransition, allowed_transition, CommandAmountConstraint,
  amount_constraint, create_transition, pay_transition, create_positive, pay_positive,
  pay_equals_total, rule_definition, command_legality, aggregate_command, CorrectnessCategory,
  RuleSubject,
}
use streaming_system_compass.Order.Contract.Equality.{
  rule_eq, event_type_eq, kind_eq, any_of, is_unique,
}

pub data MoneyRoundingMode : Type 0 where
  round_half_even : MoneyRoundingMode

-- `_OrderCorrectnessContractDefinition`
pub record ContractDefinition : Type 0 where
  pub statuses : List OrderStatus
  pub commands : List CommandType
  pub event_types : List EventType
  pub next_sequence_increment : ℕ
  pub normalization_quantum : Decimal
  pub rounding_mode : MoneyRoundingMode
  pub rule_ids : List OrderCorrectnessRuleId
  pub transition_rule_ids : List OrderCorrectnessRuleId
  pub amount_rule_ids : List OrderCorrectnessRuleId

-- `_ORDER_CORRECTNESS_CONTRACT_DEFINITIONS`, at its one key
abbrev pub definition_v0 : ContractDefinition
definition_v0 = record {
  statuses = OrderStatus.init ∷ OrderStatus.created ∷ OrderStatus.paid ∷ [];
  commands = CommandType.create ∷ CommandType.pay ∷ [];
  event_types = EventType.created ∷ EventType.paid ∷ [];
  next_sequence_increment = 1;
  normalization_quantum = cents false 1;
  rounding_mode = round_half_even;
  rule_ids =
      create_allowed_from_init ∷ pay_allowed_from_created ∷ create_normalized_amount_positive
      ∷ pay_normalized_amount_positive ∷ pay_normalized_amount_equals_total
      ∷ candidate_sequence_is_next_aggregate_version
      ∷ candidate_proof_derived_from_aggregate_predecessor
      ∷ trusted_application_event_order_id_matches_aggregate
      ∷ trusted_application_event_sequence_is_next_version
      ∷ trusted_application_created_establishes_state ∷ trusted_application_paid_establishes_state
      ∷ trusted_application_updates_aggregate_history_head
      ∷ transition_sequence_matches_accepted_next_version
      ∷ transition_proof_prev_event_id_matches_accepted
      ∷ transition_proof_prev_version_matches_accepted
      ∷ transition_proof_prev_status_matches_accepted ∷ transition_candidate_event_type_supported
      ∷ transition_event_type_legal_from_accepted_status ∷ [];
  transition_rule_ids = create_allowed_from_init ∷ pay_allowed_from_created ∷ [];
  amount_rule_ids =
      create_normalized_amount_positive ∷ pay_normalized_amount_positive
      ∷ pay_normalized_amount_equals_total ∷ [];
}

pub record OrderCorrectnessContract : Type 0 where
  pub contract_id : String
  pub contract_version : ℕ
  pub statuses : List OrderStatus
  pub commands : List CommandType
  pub event_types : List EventType
  pub next_sequence_increment : ℕ
  pub normalization_quantum : Decimal
  pub rounding_mode : MoneyRoundingMode
  pub rules : List CorrectnessRule
  pub allowed_transitions : List AllowedTransition
  pub amount_constraints : List CommandAmountConstraint

-- `_resolve_rule`, with the test of the rule that is found: the first rule of that identity
find_rule : OrderCorrectnessRuleId → List CorrectnessRule → Result Failure CorrectnessRule
find_rule rule_id [] = err invalid_contract
find_rule rule_id (r ∷ rs) =
    let rest = find_rule rule_id rs in if rule_eq r.rule_id rule_id then ok r else rest

is_command_rule : CorrectnessCategory → RuleSubject → Bool
is_command_rule command_legality aggregate_command = true
is_command_rule _ _ = false

-- The checks of one allowed transition.
check_transition : OrderCorrectnessContract → AllowedTransition → Result Failure (Unit {0})
unfolding any_of find_rule is_command_rule
check_transition c t = do
  raise_if (not (any_of (command_eq t.command) c.commands)) invalid_contract
  raise_if (not (any_of (status_eq t.predecessor_status) c.statuses)) invalid_contract
  raise_if (not (any_of (event_type_eq t.candidate_event_type) c.event_types)) invalid_contract
  raise_if (not (any_of (status_eq t.resulting_status) c.statuses)) invalid_contract
  rule ← find_rule t.legality_rule_id c.rules
  raise_if (not (is_command_rule rule.category rule.subject)) invalid_contract

-- The checks of one amount constraint.
check_constraint : OrderCorrectnessContract → CommandAmountConstraint → Result Failure (Unit {0})
unfolding any_of find_rule is_command_rule
check_constraint c a = do
  raise_if (not (any_of (command_eq a.command) c.commands)) invalid_contract
  rule ← find_rule a.rule_id c.rules
  raise_if (not (is_command_rule rule.category rule.subject)) invalid_contract

-- A `for` loop whose body may raise.
pub each : {A : Type 0} → (A → Result Failure (Unit {0})) → List A → Result Failure (Unit {0})
each f [] = ok tt
each f (x ∷ xs) = do _ ← f x; each f xs

-- `tuple(f(x) for x in xs)`
gather : {A B : Type 0} → (A → Result Failure B) → List A → Result Failure (List B)
gather f [] = ok []
gather f (x ∷ xs) = do y ← f x; ys ← gather f xs; ok (y ∷ ys)

abbrev same_key : AllowedTransition → AllowedTransition → Bool
same_key s t = command_eq s.command t.command && status_eq s.predecessor_status t.predecessor_status

abbrev same_transition : AllowedTransition → AllowedTransition → Bool
same_transition s t =
    rule_eq s.legality_rule_id t.legality_rule_id
    && same_key s t
    && event_type_eq s.candidate_event_type t.candidate_event_type
    && status_eq s.resulting_status t.resulting_status

abbrev same_relation : CommandAmountConstraint → CommandAmountConstraint → Bool
same_relation a b = command_eq a.command b.command && kind_eq a.constraint b.constraint

is_positive_finite : Decimal → Bool
is_positive_finite (finite s c e) = not (not_positive (finite s c e))
is_positive_finite (infinity s) = false
is_positive_finite nan = false

same_codes : List ℕ → List ℕ → Bool
same_codes [] [] = true
same_codes (x ∷ xs) (y ∷ ys) = x == y && same_codes xs ys
same_codes _ _ = false

-- `_require_trimmed_non_empty_string`
pub require_trimmed : String → Result Failure (Unit {0})
unfolding same_codes
require_trimmed s = do
  raise_if (is_blank s) invalid_contract
  raise_if (not (same_codes (codes s) (strip (codes s)))) invalid_contract

-- `_validate_structure`
unfoldable pub validate_structure : OrderCorrectnessContract → Result Failure (Unit {0})
unfolding require_trimmed is_positive_finite is_unique each check_transition check_constraint
validate_structure c = do
  _ ← require_trimmed c.contract_id
  raise_if (not (ltb 0 c.next_sequence_increment)) invalid_contract
  raise_if (not (is_positive_finite c.normalization_quantum)) invalid_contract
  raise_if (not (is_unique (λ r s. rule_eq r.rule_id s.rule_id) c.rules)) invalid_contract
  raise_if (not (is_unique same_transition c.allowed_transitions)) invalid_contract
  raise_if (not (is_unique same_key c.allowed_transitions)) invalid_contract
  _ ← each (check_transition c) c.allowed_transitions
  raise_if
      (not
        (is_unique (λ a b. rule_eq a.rule_id b.rule_id && same_relation a b) c.amount_constraints))
      invalid_contract
  raise_if (not (is_unique same_relation c.amount_constraints)) invalid_contract
  raise_if (not (is_unique (λ a b. rule_eq a.rule_id b.rule_id) c.amount_constraints))
      invalid_contract
  each (check_constraint c) c.amount_constraints

-- `OrderCorrectnessContract.from_identity`
unfoldable pub from_identity : String → ℕ → Result Failure OrderCorrectnessContract
unfolding require_trimmed gather
from_identity id version = do
  _ ← require_trimmed id
  raise_if (not (str_eq id "order.correctness" && version == 0)) no_definition
  rules ← gather (λ r. ok (correctness_rule r)) definition_v0.rule_ids
  transitions ← gather allowed_transition definition_v0.transition_rule_ids
  constraints ← gather amount_constraint definition_v0.amount_rule_ids
  let contract : OrderCorrectnessContract = record {
    contract_id = id;
    contract_version = version;
    statuses = definition_v0.statuses;
    commands = definition_v0.commands;
    event_types = definition_v0.event_types;
    next_sequence_increment = definition_v0.next_sequence_increment;
    normalization_quantum = definition_v0.normalization_quantum;
    rounding_mode = definition_v0.rounding_mode;
    rules = rules;
    allowed_transitions = transitions;
    amount_constraints = constraints;
  }
  _ ← validate_structure contract
  ok contract

abbrev rules_of : List OrderCorrectnessRuleId → List CorrectnessRule
rules_of [] = []
rules_of (r ∷ rs) = correctness_rule r ∷ rules_of rs

-- `ORDER_CORRECTNESS_CONTRACT_V0`, as it is materialized
abbrev pub order_correctness_contract_v0 : OrderCorrectnessContract
order_correctness_contract_v0 = record {
  contract_id = contract_id;
  contract_version = contract_version;
  statuses = definition_v0.statuses;
  commands = definition_v0.commands;
  event_types = definition_v0.event_types;
  next_sequence_increment = definition_v0.next_sequence_increment;
  normalization_quantum = definition_v0.normalization_quantum;
  rounding_mode = definition_v0.rounding_mode;
  rules = rules_of definition_v0.rule_ids;
  allowed_transitions = create_transition ∷ pay_transition ∷ [];
  amount_constraints = create_positive ∷ pay_positive ∷ pay_equals_total ∷ [];
}

-- The registered edition passes every structural check.
pub validate_structure-v0 : validate_structure order_correctness_contract_v0 ≡ ok tt
unfolding validate_structure require_trimmed same_codes each check_transition check_constraint
    any_of is_unique find_rule is_command_rule is_positive_finite correctness_rule rule_definition
    is_blank is_space strip not_positive
validate_structure-v0 = refl

-- The registered edition is materialized.
pub from_identity-v0 : from_identity contract_id contract_version ≡ ok order_correctness_contract_v0
unfolding from_identity validate_structure require_trimmed same_codes gather each check_transition
    check_constraint any_of is_unique find_rule is_command_rule is_positive_finite
    allowed_transition amount_constraint correctness_rule rule_definition is_blank is_space strip
    not_positive
from_identity-v0 = refl
