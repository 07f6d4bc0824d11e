-- ===== src/Outcome/ReadSide/Meaning.antt =====
-- What the semantic outcome of a replay validation says, and that it is always given.
use streaming_system_compass.Base.{
  true, false, String, str_eq, Option, none, some, ◌≡◌, ◌↔◌, refl, ◌∙◌, Bool-cases, inl, inr,
}
use streaming_system_compass.Base.Dict.{lookup, insert, lookup-insert}
use streaming_system_compass.Base.Text.{is_blank, is_space}
use streaming_system_compass.Base.Result.{ok}
use streaming_system_compass.Outcome.{
  SemanticBoundary, Value, text, Mapping, SemanticOutcome, semantic_outcome,
}
use streaming_system_compass.Outcome.Technical.{
  RuntimeTechnicalStatusMapping, mapping_for_status, entry_of, merge_technical_status_into_evidence,
  map_runtime_technical_status,
}
use streaming_system_compass.Outcome.ReadSide.{
  status_value, require_reason, keep, merge_context, merge_evidence, map_replay_validation_result,
}
use streaming_system_compass.Projection.Validator.{
  ReplayValidationStatus, match, missing_projection, drift, no_accepted_history,
  ReplayValidationResult,
}

-- The replay validator's statuses are all mapped, and only a match is fine.
status-mapped :
    (s : ReplayValidationStatus)
    → (m : RuntimeTechnicalStatusMapping) × (mapping_for_status (status_value s) ≡ ok m)
      × ((m.is_ok ≡ true) ↔ (s ≡ match))
      × (is_blank (status_value s) ≡ false)
unfolding mapping_for_status entry_of is_blank is_space
status-mapped match = (_, refl, (λ h. refl, λ h. refl), refl)
status-mapped missing_projection = (_, refl, (λ h. absurd (cc), λ h. absurd (cc)), refl)
status-mapped drift = (_, refl, (λ h. absurd (cc), λ h. absurd (cc)), refl)
status-mapped no_accepted_history = (_, refl, (λ h. absurd (cc), λ h. absurd (cc)), refl)

abbrev missing : String
missing = "Missing explicit reason from ReplayValidationResult."

require_reason-named : (reason : Option String) → is_blank (require_reason reason missing) ≡ false
unfolding require_reason is_blank is_space
require_reason-named none = refl
require_reason-named (some r) = elim (Bool-cases (is_blank r)) [
  | inl blank ↦ rw blank refl
  | inr named ↦ rw (named, named) refl
]

lookup-keep :
    (o : Option Value) (j k : String) (v : Value) (d : Mapping)
    → str_eq k j ≡ false
    → lookup j (keep o k v d) ≡ lookup j d
unfolding keep
lookup-keep (some x) j k v d h = refl
lookup-keep none j k v d h = lookup-insert k j v d ∙ rw h refl

status_untouched :
    (r : ReplayValidationResult) (d : Mapping)
    → lookup "technical_status" (merge_evidence r d) ≡ lookup "technical_status" d
unfolding merge_evidence
status_untouched r d =
    lookup-keep _ "technical_status" "result_type" _ _ refl
    ∙ lookup-keep _ "technical_status" "expected_state_present" _ _ refl
    ∙ lookup-keep _ "technical_status" "persisted_state_present" _ _ refl

-- For a caller whose context has no order id and whose evidence has no technical status: every
-- replay validation result is mapped to an outcome at the read side's boundary, which is fine
-- exactly when the result is a match, whose context names the order, and whose evidence names the
-- status that the validator gave.
pub map_replay_validation_result-ok :
    (outcome_id : String) (r : ReplayValidationResult) (reason : Option String)
    (context evidence : Mapping)
    → lookup "order_id" context ≡ none
    → lookup "technical_status" evidence ≡ none
    → (o : SemanticOutcome) × (map_replay_validation_result outcome_id r reason context evidence
        ≡ ok o)
      × ((o.is_ok ≡ true) ↔ (r.status ≡ match))
      × (o.boundary ≡ SemanticBoundary.layer_2_read_side)
      × (lookup "order_id" o.context ≡ some (text r.order_id))
      × (lookup "technical_status" o.evidence ≡ some (text (status_value r.status)))
unfolding map_replay_validation_result merge_context map_runtime_technical_status
    merge_technical_status_into_evidence semantic_outcome
map_replay_validation_result-ok outcome_id r reason context evidence no_order no_status =
    let (m, mapped, fine, named) = status-mapped r.status in
    (
      record {
        outcome_id = outcome_id;
        is_ok = m.is_ok;
        boundary = SemanticBoundary.layer_2_read_side;
        category = m.category;
        semantic_code = m.semantic_code;
        severity = m.severity;
        risk_level = m.risk_level;
        reversibility = m.reversibility;
        reason = require_reason reason missing;
        context = insert "order_id" (text r.order_id) context;
        evidence =
            insert "technical_status" (text (status_value r.status)) (merge_evidence r evidence);
      },
      rw
          (
            no_order,
            named,
            mapped,
            status_untouched r evidence,
            no_status,
            require_reason-named reason,
          )
          refl,
      fine,
      refl,
      lookup-insert "order_id" "order_id" (text r.order_id) context,
      lookup-insert "technical_status" "technical_status" (text (status_value r.status))
          (merge_evidence r evidence),
    )
