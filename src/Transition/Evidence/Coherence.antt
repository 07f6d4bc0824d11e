-- ===== src/Transition/Evidence/Coherence.antt =====
-- The evidence view of the full-proof validator never contradicts its plain view
-- (src/compass/transition/validators.py, `validate` and `validate_with_rule_evidence`).
use streaming_system_compass.Base.{Option, none, some, false, ◌≡◌, eq_refl, arith}
use streaming_system_compass.Base.Text.{is_blank}
use streaming_system_compass.Base.Result.{ok}
use streaming_system_compass.Order.{OrderEvent}
use streaming_system_compass.Order.Contract.{
  OrderRuleViolationEvidence, OrderCorrectnessRuleId, contract_id, contract_version,
  rule_violation_evidence,
}
use streaming_system_compass.Transition.{ValidationContext, validate_branches, full_proof_validate}
use streaming_system_compass.Transition.Evidence.{
  full_proof_evidence, is_supported, validate_with_rule_evidence,
}

-- The violation that the evidence of a rule holds.
abbrev pub violation_of :
    OrderEvent → Option OrderCorrectnessRuleId → Option OrderRuleViolationEvidence
violation_of e none = none
violation_of e (some rule) = some (record {
  contract_id = contract_id;
  contract_version = contract_version;
  rule_id = rule;
  candidate_event_id = e.event_id;
})

module _ (e : OrderEvent) (ctx : ValidationContext) where
  -- For a candidate whose event id is not blank, the evidence view raises nothing; its result is
  -- the plain validation's; and its violation names the rule of the branch that failed, in the
  -- identity and version of the contract, with the candidate's event id, or none.
  pub validate_with_rule_evidence-ok :
      is_blank e.event_id ≡ false
      → validate_with_rule_evidence e ctx
        ≡ ok (record {
          validation_result = full_proof_validate e ctx;
          observed_violation = violation_of e (validate_branches e ctx).1;
        })
  unfolding validate_with_rule_evidence full_proof_evidence rule_violation_evidence
      validate_branches full_proof_validate is_supported
  validate_with_rule_evidence-ok named = ground (arith, eq_refl e.event_id)
