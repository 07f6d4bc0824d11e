-- ===== src/Outcome.antt =====
-- src/compass/runtime/semantic_outcome.py: the vocabulary of semantic outcomes, and the outcome with
-- its constructor's check. The values of context and evidence are immutable, so freezing keeps them.
pub mod Technical
pub mod ReadSide
use streaming_system_compass.Base.{ℕ, Bool, true, false, String, str_eq, ◌==◌}
use streaming_system_compass.Base.Dict.{Dict}
use streaming_system_compass.Base.Text.{is_blank}
use streaming_system_compass.Base.Result.{Result, ok, err, ◌>>◌, raise_if}
use streaming_system_compass.Failure.{Failure, blank_reason}

pub data SemanticOutcomeCategory : Type 0 where
  valid unresolved untrusted drift fallback_required rebuild_required : SemanticOutcomeCategory
  block_required escalation_required concurrency_uncertain : SemanticOutcomeCategory
  retry_classified intent_inconsistent : SemanticOutcomeCategory

pub data SemanticOutcomeCode : Type 0 where
  semantically_valid runtime_unresolved derived_state_untrusted : SemanticOutcomeCode
  drift_detected fast_path_unavailable requires_authority_fallback : SemanticOutcomeCode
  requires_rebuild requires_operator_review reject_downstream_usage : SemanticOutcomeCode
  concurrency_uncertain idempotent_replay_allowed : SemanticOutcomeCode
  semantic_conflict_detected intent_drift_detected : SemanticOutcomeCode

pub data SemanticBoundary : Type 0 where
  layer_1_write_side layer_2_read_side snapshot_trust idempotency : SemanticBoundary
  concurrency_admission runtime_governance : SemanticBoundary

pub data SemanticSeverity : Type 0 where
  info warning error critical : SemanticSeverity

pub data SemanticRiskLevel : Type 0 where
  low medium high critical unknown : SemanticRiskLevel

pub data SemanticReversibility : Type 0 where
  reversible rebuildable compensable irreversible unknown : SemanticReversibility

-- A value in a context or an evidence mapping.
pub data Value : Type 0 where
  text : String → Value
  flag : Bool → Value
  number : ℕ → Value
  null : Value

abbrev pub Mapping : Type 0
Mapping = Dict Value

pub record SemanticOutcome : Type 0 where
  pub outcome_id : String
  pub is_ok : Bool
  pub boundary : SemanticBoundary
  pub category : SemanticOutcomeCategory
  pub semantic_code : SemanticOutcomeCode
  pub severity : SemanticSeverity
  pub risk_level : SemanticRiskLevel
  pub reversibility : SemanticReversibility
  pub reason : String
  pub context : Mapping
  pub evidence : Mapping

-- `__post_init__`: the checks of types are the types of the fields.
unfoldable pub semantic_outcome : SemanticOutcome → Result Failure SemanticOutcome
semantic_outcome o = do raise_if (is_blank o.reason) blank_reason; ok o
