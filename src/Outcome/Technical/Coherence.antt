-- ===== src/Outcome/Technical/Coherence.antt =====
-- What the table of technical statuses says of every status, by one check of all its entries.
use streaming_system_compass.Base.{
  Bool, true, false, ◌&&◌, String, str_eq, List, [], ◌∷◌, ◌≡◌, refl, subst, arith, Bool-cases, inl,
  inr,
}
use streaming_system_compass.Base.Result.{ok}
use streaming_system_compass.Outcome.{SemanticOutcomeCategory, SemanticSeverity, SemanticRiskLevel}
use streaming_system_compass.Outcome.Technical.{
  RuntimeTechnicalStatusMapping, status_mappings, entry_of, mapping_for_status,
}

abbrev pub is_info : SemanticSeverity → Bool
is_info SemanticSeverity.info = true
is_info _ = false

abbrev pub is_low : SemanticRiskLevel → Bool
is_low SemanticRiskLevel.low = true
is_low _ = false

abbrev pub is_settled : SemanticOutcomeCategory → Bool
is_settled SemanticOutcomeCategory.valid = true
is_settled SemanticOutcomeCategory.retry_classified = true
is_settled _ = false

-- A mapping that is fine is information, of low risk, and valid or a classified retry; any other is
-- none of these.
abbrev pub IsCoherent : RuntimeTechnicalStatusMapping → Type 0
IsCoherent m =
    (m.is_ok ≡ is_info m.severity)
    × (m.is_ok ≡ is_low m.risk_level)
    × (m.is_ok ≡ is_settled m.category)

same : Bool → Bool → Bool
same true b = b
same false true = false
same false false = true

same-eq : (a b : Bool) → same a b ≡ true → a ≡ b
unfolding same
same-eq true true h = refl
same-eq true false h = absurd (ground arith)
same-eq false true h = absurd (ground arith)
same-eq false false h = refl

test : List (String × RuntimeTechnicalStatusMapping) → Bool
unfolding same
test [] = true
test ((s, m) ∷ rest) =
    same m.is_ok (is_info m.severity)
    && same m.is_ok (is_low m.risk_level)
    && same m.is_ok (is_settled m.category)
    && test rest

test-IsCoherent :
    (table : List (String × RuntimeTechnicalStatusMapping))
    → test table ≡ true
    → (status : String) (m : RuntimeTechnicalStatusMapping) → entry_of status table ≡ ok m
    → IsCoherent m
unfolding test entry_of
test-IsCoherent [] t status m h = absurd (ground arith)
test-IsCoherent ((s, n) ∷ rest) t status m h = elim (Bool-cases (str_eq s status)) [
  | inl found ↦
      let here : n ≡ m = ground arith in
      let severity = same-eq n.is_ok (is_info n.severity) (ground arith) in
      let risk = same-eq n.is_ok (is_low n.risk_level) (ground arith) in
      let category = same-eq n.is_ok (is_settled n.category) (ground arith) in
      subst IsCoherent here (severity, risk, category)
  | inr other ↦ test-IsCoherent rest (ground arith) status m (rw other at h)
]

-- Whatever the status, if it is mapped then its mapping is coherent: it is fine exactly when it is
-- information, exactly when its risk is low, and exactly when its category is valid or a classified
-- retry.
pub mapping_for_status-IsCoherent :
    (status : String) (m : RuntimeTechnicalStatusMapping)
    → mapping_for_status status ≡ ok m
    → IsCoherent m
unfolding mapping_for_status test
mapping_for_status-IsCoherent status m h = test-IsCoherent status_mappings refl status m h
