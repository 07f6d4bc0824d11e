-- ===== src/Outcome/ReadSide/Snapshots.antt =====
-- src/compass/runtime/read_side_outcome_mapping.py: from the results of the snapshot replay validator
-- and of the snapshot-assisted resolver to semantic outcomes. A UUID is its text, and a caller's value
-- for it a UUID as well.
use streaming_system_compass.Base.{
  ℕ, true, false, Bool, not, if◌then◌else◌, String, str_eq, ◌==◌, List, [], ◌∷◌, Option, none, some,
  ◌≡◌, ◌↔◌, refl, sym, ◌∙◌, arith, inl, inr,
}
use streaming_system_compass.Base.Dict.{lookup, insert}
use streaming_system_compass.Base.Result.{Result, ok, ◌>>=◌, ◌>>◌, raise_if, Result-cases}
use streaming_system_compass.Failure.{Failure, context_conflict}
use streaming_system_compass.Outcome.{
  SemanticBoundary, Value, text, flag, number, null, Mapping, SemanticOutcome, semantic_outcome,
}
use streaming_system_compass.Outcome.Technical.{
  RuntimeTechnicalStatusMapping, mapping_for_status, entry_of, merge_technical_status_into_evidence,
  map_runtime_technical_status,
}
use streaming_system_compass.Outcome.ReadSide.{require_reason, keep, is_present}
use streaming_system_compass.Projection.Snapshot.{ResolutionStatus, ResolutionResult}
use streaming_system_compass.Projection.Snapshot.ReplayValidator.{
  SnapshotValidationStatus, SnapshotValidationResult,
}

-- The values of the two enums.
abbrev pub resolution_value : ResolutionStatus → String
resolution_value ResolutionStatus.resolved_from_snapshot = "RESOLVED_FROM_SNAPSHOT"
resolution_value ResolutionStatus.missing_snapshot = "MISSING_SNAPSHOT"
resolution_value ResolutionStatus.invalid_snapshot_precondition = "INVALID_SNAPSHOT_PRECONDITION"
resolution_value ResolutionStatus.invalid_snapshot_compatibility = "INVALID_SNAPSHOT_COMPATIBILITY"
resolution_value ResolutionStatus.tail_event_source_contract_violation =
    "TAIL_EVENT_SOURCE_CONTRACT_VIOLATION"
resolution_value ResolutionStatus.tail_replay_failed = "TAIL_REPLAY_FAILED"

abbrev pub validation_value : SnapshotValidationStatus → String
validation_value SnapshotValidationStatus.match = "MATCH"
validation_value SnapshotValidationStatus.missing_snapshot = "MISSING_SNAPSHOT"
validation_value SnapshotValidationStatus.no_accepted_history = "NO_ACCEPTED_HISTORY_FOR_ORDER"
validation_value SnapshotValidationStatus.invalid_boundary = "INVALID_SNAPSHOT_BOUNDARY"
validation_value SnapshotValidationStatus.tail_contract_violation =
    "TAIL_EVENT_SOURCE_CONTRACT_VIOLATION"
validation_value SnapshotValidationStatus.assisted_drift = "SNAPSHOT_ASSISTED_DRIFT"

-- `==` of two values; True equals 1, and False equals 0.
value_eq : Value → Value → Bool
value_eq (text s) (text t) = str_eq s t
value_eq (number m) (number n) = m == n
value_eq (number m) (flag b) = if b then m == 1 else m == 0
value_eq (flag b) (number n) = if b then n == 1 else n == 0
value_eq (flag true) (flag c) = c
value_eq (flag false) (flag c) = not c
value_eq null null = true
value_eq _ _ = false

-- `key in merged and merged[key] != canonical_value`
differs : Option Value → Value → Bool
differs none canonical = false
differs (some v) canonical = not (value_eq v canonical)

-- `_merge_caller_context_with_canonical_context`, over the items of the canonical context
unfoldable pub merge_canonical : Mapping → List (String × Value) → Result Failure Mapping
unfolding differs value_eq
merge_canonical merged [] = ok merged
merge_canonical merged ((key, canonical) ∷ items) = do
  raise_if (differs (lookup key merged) canonical) context_conflict
  merge_canonical (insert key canonical merged) items

text_or_null : Option String → Value
text_or_null none = null
text_or_null (some s) = text s

number_or_null : Option ℕ → Value
number_or_null none = null
number_or_null (some n) = number n

unfoldable pub snapshot_context : String → Option String → Option ℕ → List (String × Value)
unfolding text_or_null number_or_null
snapshot_context order_id snapshot_id position =
    ("order_id", text order_id)
    ∷ ("snapshot_id", text_or_null snapshot_id)
    ∷ ("source_global_position", number_or_null position)
    ∷ []

-- `map_projection_snapshot_replay_validation_result_to_semantic_outcome`
unfoldable pub map_snapshot_validation_result :
    String
    → SnapshotValidationResult
    → Option String
    → Mapping
    → Mapping
    → Result Failure SemanticOutcome
unfolding require_reason merge_canonical snapshot_context keep is_present
map_snapshot_validation_result outcome_id result reason context evidence = do
  merged ←
      merge_canonical context
        (snapshot_context result.order_id result.snapshot_id result.source_global_position)
  map_runtime_technical_status outcome_id (validation_value result.status)
      SemanticBoundary.snapshot_trust
      (require_reason reason
        "Missing explicit reason from ProjectionSnapshotReplayValidationResult.")
      merged
      (keep (lookup "result_type" evidence) "result_type"
        (text "ProjectionSnapshotReplayValidationResult")
        (keep (lookup "snapshot_assisted_state_present" evidence) "snapshot_assisted_state_present"
          (flag (is_present result.snapshot_assisted_state))
          (keep (lookup "authority_state_present" evidence) "authority_state_present"
            (flag (is_present result.authority_state)) evidence)))

-- `map_projection_snapshot_assisted_resolution_result_to_semantic_outcome`
unfoldable pub map_resolution_result :
    String → ResolutionResult → Option String → Mapping → Mapping → Result Failure SemanticOutcome
unfolding require_reason merge_canonical snapshot_context keep is_present
map_resolution_result outcome_id result reason context evidence = do
  merged ←
      merge_canonical context
        (snapshot_context result.order_id result.snapshot_id result.source_global_position)
  map_runtime_technical_status outcome_id (resolution_value result.status)
      SemanticBoundary.snapshot_trust
      (require_reason reason
        "Missing explicit reason from ProjectionSnapshotAssistedResolutionResult.")
      merged
      (keep (lookup "result_type" evidence) "result_type"
        (text "ProjectionSnapshotAssistedResolutionResult")
        (keep (lookup "resolved_state_present" evidence) "resolved_state_present"
          (flag (is_present result.resolved_state)) evidence))

-- Every status of the resolver is in the table, and only a resolution is fine.
pub resolution-mapped :
    (s : ResolutionStatus)
    → (m : RuntimeTechnicalStatusMapping) × (mapping_for_status (resolution_value s) ≡ ok m)
      × ((m.is_ok ≡ true) ↔ (s ≡ ResolutionStatus.resolved_from_snapshot))
unfolding mapping_for_status entry_of
resolution-mapped ResolutionStatus.resolved_from_snapshot = (_, refl, (λ h. refl, λ h. refl))
resolution-mapped ResolutionStatus.missing_snapshot =
    (_, refl, (λ h. absurd (cc), λ h. absurd (cc)))
resolution-mapped ResolutionStatus.invalid_snapshot_precondition =
    (_, refl, (λ h. absurd (cc), λ h. absurd (cc)))
resolution-mapped ResolutionStatus.invalid_snapshot_compatibility =
    (_, refl, (λ h. absurd (cc), λ h. absurd (cc)))
resolution-mapped ResolutionStatus.tail_event_source_contract_violation =
    (_, refl, (λ h. absurd (cc), λ h. absurd (cc)))
resolution-mapped ResolutionStatus.tail_replay_failed =
    (_, refl, (λ h. absurd (cc), λ h. absurd (cc)))

-- Every status of the snapshot replay validator is in the table, and only a match is fine.
pub validation-mapped :
    (s : SnapshotValidationStatus)
    → (m : RuntimeTechnicalStatusMapping) × (mapping_for_status (validation_value s) ≡ ok m)
      × ((m.is_ok ≡ true) ↔ (s ≡ SnapshotValidationStatus.match))
unfolding mapping_for_status entry_of
validation-mapped SnapshotValidationStatus.match = (_, refl, (λ h. refl, λ h. refl))
validation-mapped SnapshotValidationStatus.missing_snapshot =
    (_, refl, (λ h. absurd (cc), λ h. absurd (cc)))
validation-mapped SnapshotValidationStatus.no_accepted_history =
    (_, refl, (λ h. absurd (cc), λ h. absurd (cc)))
validation-mapped SnapshotValidationStatus.invalid_boundary =
    (_, refl, (λ h. absurd (cc), λ h. absurd (cc)))
validation-mapped SnapshotValidationStatus.tail_contract_violation =
    (_, refl, (λ h. absurd (cc), λ h. absurd (cc)))
validation-mapped SnapshotValidationStatus.assisted_drift =
    (_, refl, (λ h. absurd (cc), λ h. absurd (cc)))

-- An outcome of the mapper has the boundary that it was given and the fineness of its status.
map_runtime_technical_status-fine :
    (outcome_id status : String) (b : SemanticBoundary) (reason : String)
    (context evidence : Mapping) (m : RuntimeTechnicalStatusMapping) (o : SemanticOutcome)
    → mapping_for_status status ≡ ok m
    → map_runtime_technical_status outcome_id status b reason context evidence ≡ ok o
    → (o.is_ok ≡ m.is_ok) × (o.boundary ≡ b)
unfolding map_runtime_technical_status merge_technical_status_into_evidence semantic_outcome
map_runtime_technical_status-fine outcome_id status b reason context evidence m o mapped h =
    ground arith

-- Whatever the caller adds, an outcome of a resolution is at the boundary of snapshot trust, and is
-- fine exactly where the resolver resolved.
pub map_resolution_result-fine :
    (outcome_id : String) (r : ResolutionResult) (reason : Option String)
    (context evidence : Mapping) (o : SemanticOutcome)
    → map_resolution_result outcome_id r reason context evidence ≡ ok o
    → ((o.is_ok ≡ true) ↔ (r.status ≡ ResolutionStatus.resolved_from_snapshot))
      × (o.boundary ≡ SemanticBoundary.snapshot_trust)
unfolding map_resolution_result
map_resolution_result-fine outcome_id r reason context evidence o h =
    let (m, mapped, iff) = resolution-mapped r.status in
    elim (Result-cases (
      merge_canonical context
        (snapshot_context r.order_id r.snapshot_id r.source_global_position))) [
          | inl (merged, q) ↦
              let (ok_as, at) =
                map_runtime_technical_status-fine _ _ _ _ _ _ m o mapped (rw q at h) in
              ((λ p. iff.0 (sym ok_as ∙ p), λ p. ok_as ∙ iff.1 p), at)
          | inr (f, q) ↦ absurd (ground arith)
        ]
