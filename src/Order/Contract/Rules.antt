-- ===== src/Order/Contract/Rules.antt =====
-- src/core/order/correctness_contract.py: the private registries by rule identity, and the records
-- that are made from them. The propositions' texts, which nothing evaluates, are left out.
use streaming_system_compass.Base.Result.{Result, ok, err}
use streaming_system_compass.Failure.{Failure, no_definition}
use streaming_system_compass.Order.{CommandType, EventType, OrderStatus}
use streaming_system_compass.Order.Contract.{
  OrderCorrectnessRuleId, create_allowed_from_init, pay_allowed_from_created,
  create_normalized_amount_positive, pay_normalized_amount_positive,
  pay_normalized_amount_equals_total, candidate_sequence_is_next_aggregate_version,
  candidate_proof_derived_from_aggregate_predecessor,
  trusted_application_event_order_id_matches_aggregate,
  trusted_application_event_sequence_is_next_version, trusted_application_created_establishes_state,
  trusted_application_paid_establishes_state, trusted_application_updates_aggregate_history_head,
  transition_candidate_event_type_supported,
}

pub data CorrectnessCategory : Type 0 where
  command_legality candidate_construction trusted_application transition_truth : CorrectnessCategory

pub data RuleSubject : Type 0 where
  aggregate_command candidate_event predecessor_claim : RuleSubject
  trusted_event_application accepted_context_comparison : RuleSubject

pub data AmountConstraintKind : Type 0 where
  normalized_value_greater_than_zero : AmountConstraintKind
  normalized_value_equals_current_total_amount : AmountConstraintKind

pub record RuleDefinition : Type 0 where
  pub category : CorrectnessCategory
  pub subject : RuleSubject

abbrev legality_definition : RuleDefinition
legality_definition = record { category = command_legality; subject = aggregate_command }

abbrev application_definition : RuleDefinition
application_definition = record {
  category = trusted_application;
  subject = trusted_event_application;
}

abbrev comparison_definition : RuleDefinition
comparison_definition = record {
  category = transition_truth;
  subject = accepted_context_comparison;
}

-- `_RULE_DEFINITIONS`
unfoldable pub rule_definition : OrderCorrectnessRuleId → RuleDefinition
rule_definition create_allowed_from_init = legality_definition
rule_definition pay_allowed_from_created = legality_definition
rule_definition create_normalized_amount_positive = legality_definition
rule_definition pay_normalized_amount_positive = legality_definition
rule_definition pay_normalized_amount_equals_total = legality_definition
rule_definition candidate_sequence_is_next_aggregate_version = record {
  category = candidate_construction;
  subject = candidate_event;
}
rule_definition candidate_proof_derived_from_aggregate_predecessor = record {
  category = candidate_construction;
  subject = predecessor_claim;
}
rule_definition trusted_application_event_order_id_matches_aggregate = application_definition
rule_definition trusted_application_event_sequence_is_next_version = application_definition
rule_definition trusted_application_created_establishes_state = application_definition
rule_definition trusted_application_paid_establishes_state = application_definition
rule_definition trusted_application_updates_aggregate_history_head = application_definition
rule_definition transition_candidate_event_type_supported = record {
  category = transition_truth;
  subject = candidate_event;
}
rule_definition _ = comparison_definition

pub record CorrectnessRule : Type 0 where
  pub rule_id : OrderCorrectnessRuleId
  pub category : CorrectnessCategory
  pub subject : RuleSubject

-- `CorrectnessRule.from_rule_id`
unfoldable pub correctness_rule : OrderCorrectnessRuleId → CorrectnessRule
unfolding rule_definition
correctness_rule rule_id =
    let definition = rule_definition rule_id in
    record { rule_id = rule_id; category = definition.category; subject = definition.subject }

pub record AllowedTransition : Type 0 where
  pub legality_rule_id : OrderCorrectnessRuleId
  pub command : CommandType
  pub predecessor_status : OrderStatus
  pub candidate_event_type : EventType
  pub resulting_status : OrderStatus

abbrev pub create_transition : AllowedTransition
create_transition = record {
  legality_rule_id = create_allowed_from_init;
  command = CommandType.create;
  predecessor_status = OrderStatus.init;
  candidate_event_type = EventType.created;
  resulting_status = OrderStatus.created;
}

abbrev pub pay_transition : AllowedTransition
pay_transition = record {
  legality_rule_id = pay_allowed_from_created;
  command = CommandType.pay;
  predecessor_status = OrderStatus.created;
  candidate_event_type = EventType.paid;
  resulting_status = OrderStatus.paid;
}

-- `AllowedTransition.from_rule_id`, with `_ALLOWED_TRANSITION_DEFINITIONS`
unfoldable pub allowed_transition : OrderCorrectnessRuleId → Result Failure AllowedTransition
allowed_transition create_allowed_from_init = ok create_transition
allowed_transition pay_allowed_from_created = ok pay_transition
allowed_transition _ = err no_definition

pub record CommandAmountConstraint : Type 0 where
  pub rule_id : OrderCorrectnessRuleId
  pub command : CommandType
  pub constraint : AmountConstraintKind

abbrev pub create_positive : CommandAmountConstraint
create_positive = record {
  rule_id = create_normalized_amount_positive;
  command = CommandType.create;
  constraint = normalized_value_greater_than_zero;
}

abbrev pub pay_positive : CommandAmountConstraint
pay_positive = record {
  rule_id = pay_normalized_amount_positive;
  command = CommandType.pay;
  constraint = normalized_value_greater_than_zero;
}

abbrev pub pay_equals_total : CommandAmountConstraint
pay_equals_total = record {
  rule_id = pay_normalized_amount_equals_total;
  command = CommandType.pay;
  constraint = normalized_value_equals_current_total_amount;
}

-- `CommandAmountConstraint.from_rule_id`, with `_COMMAND_AMOUNT_CONSTRAINT_DEFINITIONS`
unfoldable pub amount_constraint : OrderCorrectnessRuleId → Result Failure CommandAmountConstraint
amount_constraint create_normalized_amount_positive = ok create_positive
amount_constraint pay_normalized_amount_positive = ok pay_positive
amount_constraint pay_normalized_amount_equals_total = ok pay_equals_total
amount_constraint _ = err no_definition
