-- ===== src/Outcome/ReadSide.antt =====
-- src/compass/runtime/read_side_outcome_mapping.py: from a replay validation to a semantic outcome.
-- The reason text of the validation result is an argument, since the result's model has none.
pub mod Meaning
pub mod Snapshots
use streaming_system_compass.Base.{
  ℕ, Bool, true, false, not, ◌||◌, ◌&&◌, String, str_eq, ◌==◌, Option, none, some, List, [], ◌∷◌,
  if◌then◌else◌,
}
use streaming_system_compass.Base.Dict.{lookup, insert, empty, Dict}
use streaming_system_compass.Base.Text.{is_blank}
use streaming_system_compass.Base.Result.{Result, ok, err, ◌>>=◌, ◌>>◌, raise_if}
use streaming_system_compass.Failure.{Failure, context_conflict}
use streaming_system_compass.Order.{OrderState}
use streaming_system_compass.Outcome.{
  SemanticBoundary, Value, text, flag, number, null, Mapping, SemanticOutcome,
}
use streaming_system_compass.Outcome.Technical.{map_runtime_technical_status}
use streaming_system_compass.Projection.Validator.{
  ReplayValidationStatus, match, missing_projection, drift, no_accepted_history,
  ReplayValidationResult,
}

-- The values of the enum.
abbrev pub status_value : ReplayValidationStatus → String
status_value match = "MATCH"
status_value missing_projection = "MISSING_PROJECTION"
status_value drift = "DRIFT"
status_value no_accepted_history = "NO_ACCEPTED_HISTORY"

-- `_require_reason`
unfoldable pub require_reason : Option String → String → String
require_reason none missing = missing
require_reason (some reason) missing = if is_blank reason then missing else reason

pub is_present : Option OrderState → Bool
is_present none = false
is_present (some s) = true

-- The key is in the caller's context with a value that is not the order id.
conflicts : String → Option Value → Bool
conflicts order_id none = false
conflicts order_id (some (text s)) = not (str_eq s order_id)
conflicts order_id (some v) = true

-- `_merge_caller_context_with_canonical_context`, at the one canonical key of this mapping
unfoldable pub merge_context : String → Mapping → Result Failure Mapping
unfolding conflicts
merge_context order_id caller = do
  raise_if (conflicts order_id (lookup "order_id" caller)) context_conflict
  ok (insert "order_id" (text order_id) caller)

-- `_merge_mappings`: the caller's evidence, each of the three own entries where it has none.
pub keep : Option Value → String → Value → Mapping → Mapping
keep none key v evidence = insert key v evidence
keep (some _) key v evidence = evidence

unfoldable pub merge_evidence : ReplayValidationResult → Mapping → Mapping
unfolding keep is_present
merge_evidence result evidence =
    keep (lookup "result_type" evidence) "result_type" (text "ReplayValidationResult") (
      keep (lookup "expected_state_present" evidence) "expected_state_present"
        (flag (is_present result.expected_state))
        (keep (lookup "persisted_state_present" evidence) "persisted_state_present"
          (flag (is_present result.persisted_state)) evidence))

-- `map_replay_validation_result_to_semantic_outcome`
unfoldable pub map_replay_validation_result :
    String
    → ReplayValidationResult
    → Option String
    → Mapping
    → Mapping
    → Result Failure SemanticOutcome
unfolding require_reason merge_context merge_evidence
map_replay_validation_result outcome_id result reason context evidence = do
  merged ← merge_context result.order_id context
  map_runtime_technical_status outcome_id (status_value result.status)
      SemanticBoundary.layer_2_read_side
      (require_reason reason "Missing explicit reason from ReplayValidationResult.") merged
      (merge_evidence result evidence)
