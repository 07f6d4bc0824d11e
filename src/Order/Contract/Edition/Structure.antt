-- ===== src/Order/Contract/Edition/Structure.antt =====
-- What the structural checks of src/core/order/correctness_contract.py establish of a contract,
-- whatever its contents.
use streaming_system_compass.Base.{
  ℕ, ◌<◌, true, false, not, ◌&&◌, inl, inr, List, [], ◌∷◌, String, ◌≡◌, ◌∙◌, refl, sym, ap, arith,
  Bool-cases, ltb,
}
use streaming_system_compass.Base.Text.{is_blank}
use streaming_system_compass.Base.Result.{ok, ◌>>=◌, raise_if}
use streaming_system_compass.Decimal.{Decimal, ℤ, finite, infinity, nan, not_positive}
use streaming_system_compass.Failure.{invalid_contract}
use streaming_system_compass.Order.{status_eq, command_eq}
use streaming_system_compass.Order.Contract.{OrderCorrectnessRuleId}
use streaming_system_compass.Order.Contract.Rules.{
  CorrectnessRule, AllowedTransition, CommandAmountConstraint, CorrectnessCategory, RuleSubject,
  command_legality, aggregate_command,
}
use streaming_system_compass.Order.Contract.Equality.{
  rule_eq, rule_eq_sound, event_type_eq, is_unique,
}
use streaming_system_compass.Order.Contract.Edition.{
  OrderCorrectnessContract, find_rule, is_command_rule, check_transition, check_constraint, each,
  same_key, same_transition, same_relation, is_positive_finite, require_trimmed, validate_structure,
}
use streaming_system_compass.Order.Contract.Edition.Checks.{
  Occurs, All, Apart, any_of-Occurs, is_unique-Apart, each-All, guard-ok, last_guard-ok, bind-ok,
  command_eq_sound, command_eq_self, status_eq_sound, status_eq_self, event_type_eq_sound,
  kind_eq_self, rule_eq_self,
}

-- A rule of the contract with that identity, of the category and subject of a command's legality.
abbrev pub HasCommandRule : OrderCorrectnessContract → OrderCorrectnessRuleId → Type 0
HasCommandRule c id =
    (r : CorrectnessRule) × Occurs r c.rules
    × (r.rule_id ≡ id)
    × (r.category ≡ command_legality)
    × (r.subject ≡ aggregate_command)

find_rule-HasCommandRule :
    (c : OrderCorrectnessContract) (id : OrderCorrectnessRuleId) (r : CorrectnessRule)
    (rs : List CorrectnessRule)
    → find_rule id rs ≡ ok r
    → Occurs r rs × (r.rule_id ≡ id)
unfolding find_rule
find_rule-HasCommandRule c id r [] h = absurd (cc)
find_rule-HasCommandRule c id r (s ∷ rs) h = elim (Bool-cases (rule_eq s.rule_id id)) [
  | inl e ↦
      let same : s ≡ r = ground arith in
      (
        inl (sym same),
        ap (λ (x : CorrectnessRule). x.rule_id) (sym same) ∙ rule_eq_sound s.rule_id id e,
      )
  | inr e ↦ let (there, own) = find_rule-HasCommandRule c id r rs (rw e at h) in (inr there, own)
]

is_command_rule_sound :
    (k : CorrectnessCategory) (s : RuleSubject)
    → is_command_rule k s ≡ true
    → (k ≡ command_legality) × (s ≡ aggregate_command)
unfolding is_command_rule
is_command_rule_sound k s h = ground arith

-- What the last three lines of both loops' bodies establish.
backed :
    (c : OrderCorrectnessContract) (id : OrderCorrectnessRuleId)
    → (find_rule id c.rules >>= λ r.
        raise_if (not (is_command_rule r.category r.subject)) invalid_contract)
      ≡ ok tt
    → HasCommandRule c id
backed c id h =
    let (r, found, checked) = bind-ok (find_rule id c.rules) _ h in
    let (there, own) = find_rule-HasCommandRule c id r c.rules found in
    let (kind, subject) = is_command_rule_sound r.category r.subject (last_guard-ok _ checked) in
    (r, there, own, kind, subject)

-- A transition between declared members, backed by a rule of the contract.
pub record IsDeclared (c : OrderCorrectnessContract) (t : AllowedTransition) : Type 0 where
  pub command : Occurs t.command c.commands
  pub predecessor : Occurs t.predecessor_status c.statuses
  pub event_type : Occurs t.candidate_event_type c.event_types
  pub result : Occurs t.resulting_status c.statuses
  pub rule : HasCommandRule c t.legality_rule_id

check_transition-IsDeclared :
    (c : OrderCorrectnessContract) (t : AllowedTransition)
    → check_transition c t ≡ ok tt
    → IsDeclared c t
unfolding check_transition
check_transition-IsDeclared c t h =
    let (command, h₁) = guard-ok _ _ h in
    let (predecessor, h₂) = guard-ok _ _ h₁ in
    let (event_type, h₃) = guard-ok _ _ h₂ in
    let (result, h₄) = guard-ok _ _ h₃ in
    record {
      command =
          any_of-Occurs (command_eq t.command) t.command c.commands (command_eq_sound t.command)
            command;
      predecessor =
          any_of-Occurs (status_eq t.predecessor_status) t.predecessor_status c.statuses
            (status_eq_sound t.predecessor_status) predecessor;
      event_type =
          any_of-Occurs (event_type_eq t.candidate_event_type) t.candidate_event_type c.event_types
            (event_type_eq_sound t.candidate_event_type) event_type;
      result =
          any_of-Occurs (status_eq t.resulting_status) t.resulting_status c.statuses
            (status_eq_sound t.resulting_status) result;
      rule = backed c t.legality_rule_id h₄;
    }

check_constraint-ok :
    (c : OrderCorrectnessContract) (a : CommandAmountConstraint)
    → check_constraint c a ≡ ok tt
    → Occurs a.command c.commands × HasCommandRule c a.rule_id
unfolding check_constraint
check_constraint-ok c a h =
    let (command, rest) = guard-ok _ _ h in
    (
      any_of-Occurs (command_eq a.command) a.command c.commands (command_eq_sound a.command)
          command,
      backed c a.rule_id rest,
    )

-- A positive number: no sign, no infinity, no NaN.
abbrev pub IsPositiveFinite : Decimal → Type 0
IsPositiveFinite d =
    (coefficient : ℕ) × (exponent : ℤ) × (0 < coefficient) × (d ≡ finite false coefficient exponent)

is_positive_finite_sound : (d : Decimal) → is_positive_finite d ≡ true → IsPositiveFinite d
unfolding is_positive_finite not_positive
is_positive_finite_sound (finite true k e) h = absurd (cc)
is_positive_finite_sound (finite false k e) h = (k, e, ground arith, refl)
is_positive_finite_sound (infinity s) h = absurd (cc)
is_positive_finite_sound nan h = absurd (cc)

-- A contract whose parts fit together.
pub record IsStructured (c : OrderCorrectnessContract) : Type 0 where
  pub named : is_blank c.contract_id ≡ false
  pub increment : 0 < c.next_sequence_increment
  pub quantum : IsPositiveFinite c.normalization_quantum
  pub rules : Apart (λ r s. r.rule_id ≡ s.rule_id) c.rules
  pub deterministic :
      Apart
        (λ s t. (s.command ≡ t.command) × (s.predecessor_status ≡ t.predecessor_status))
        c.allowed_transitions
  pub declared : All (IsDeclared c) c.allowed_transitions
  pub relations :
      Apart (λ a b. (a.command ≡ b.command) × (a.constraint ≡ b.constraint)) c.amount_constraints
  pub own_rules : Apart (λ a b. a.rule_id ≡ b.rule_id) c.amount_constraints
  pub constrained :
      All (λ a. Occurs a.command c.commands × HasCommandRule c a.rule_id) c.amount_constraints

require_trimmed-ok : (s : String) → require_trimmed s ≡ ok tt → is_blank s ≡ false
unfolding require_trimmed
require_trimmed-ok s h = ground arith

-- A contract that passes the structural checks is structured, whatever its contents: its id is not
-- blank; its increment and its quantum are positive; no two of its rules have one identity; no two
-- transitions share command and predecessor status, so that a command has at most one outcome in each status; no
-- two amount constraints share command and kind, or rule; every transition's command, statuses and
-- event type, and every constraint's command, are declared; and every transition and constraint
-- refers to a rule of the contract, of command legality on the aggregate.
pub validate_structure-IsStructured :
    (c : OrderCorrectnessContract) → validate_structure c ≡ ok tt → IsStructured c
unfolding validate_structure
validate_structure-IsStructured c h =
    let (_, named, h₁) = bind-ok (require_trimmed c.contract_id) _ h in
    let (increment, h₂) = guard-ok (ltb 0 c.next_sequence_increment) _ h₁ in
    let (quantum, h₃) = guard-ok _ _ h₂ in
    let (rules, h₄) = guard-ok _ _ h₃ in
    let (_, h₅) = guard-ok (is_unique same_transition c.allowed_transitions) _ h₄ in
    let (keys, h₆) = guard-ok _ _ h₅ in
    let (_, transitions, h₇) = bind-ok (each (check_transition c) c.allowed_transitions) _ h₆ in
    let (_, h₈) =
      guard-ok
        (is_unique (λ a b. rule_eq a.rule_id b.rule_id && same_relation a b) c.amount_constraints) _
        h₇ in
    let (relations, h₉) = guard-ok _ _ h₈ in
    let (ids, constraints) = guard-ok _ _ h₉ in
    record {
      named = require_trimmed-ok c.contract_id named;
      increment = ground arith;
      quantum = is_positive_finite_sound c.normalization_quantum quantum;
      rules =
          is_unique-Apart (λ r s. rule_eq r.rule_id s.rule_id) _ c.rules
            (λ r s e. rw e (rule_eq_self s.rule_id)) rules;
      deterministic =
          is_unique-Apart same_key _ c.allowed_transitions
            (λ s t e.
              rw (e.0, e.1, command_eq_self t.command) (status_eq_self t.predecessor_status))
            keys;
      declared = each-All _ _ c.allowed_transitions (check_transition-IsDeclared c) transitions;
      relations =
          is_unique-Apart same_relation _ c.amount_constraints
            (λ a b e. rw (e.0, e.1, command_eq_self b.command) (kind_eq_self b.constraint))
            relations;
      own_rules =
          is_unique-Apart (λ a b. rule_eq a.rule_id b.rule_id) _ c.amount_constraints
            (λ a b e. rw e (rule_eq_self b.rule_id)) ids;
      constrained = each-All _ _ c.amount_constraints (check_constraint-ok c) constraints;
    }
