-- ===== src/Transition/Soundness.antt =====
-- What a passed validation means, and what a reported rule means.
use streaming_system_compass.Base.{
  ◌+◌, true, Option, none, some, List, [], ◌∷◌, String, ◌≡◌, ◌↔◌, refl, arith, eq_iff,
}
use streaming_system_compass.Order.{EventType, OrderStatus, optional_eq, OrderEvent}
use streaming_system_compass.Order.History.{event_id_of}
use streaming_system_compass.Order.Contract.{
  OrderCorrectnessRuleId, transition_sequence_matches_accepted_next_version,
  transition_proof_prev_event_id_matches_accepted, transition_proof_prev_version_matches_accepted,
  transition_proof_prev_status_matches_accepted, transition_event_type_legal_from_accepted_status,
}
use streaming_system_compass.Transition.{
  ValidationContext, passed, validate_branches, full_proof_validate,
}

-- The status after which an event of each type is legal.
abbrev pub predecessor : EventType → OrderStatus
predecessor EventType.created = OrderStatus.init
predecessor EventType.paid = OrderStatus.created

-- What each rule of the transition family demands of a candidate and its context.
abbrev pub Holds : OrderCorrectnessRuleId → OrderEvent → ValidationContext → Type 0
Holds transition_sequence_matches_accepted_next_version e ctx =
    e.sequence ≡ ctx.actual_prev_version + 1
Holds transition_proof_prev_event_id_matches_accepted e ctx =
    e.proof.prev_event_id ≡ event_id_of ctx.actual_prev_event
Holds transition_proof_prev_version_matches_accepted e ctx =
    e.proof.prev_version ≡ ctx.actual_prev_version
Holds transition_proof_prev_status_matches_accepted e ctx =
    e.proof.prev_status ≡ ctx.actual_prev_status
Holds transition_event_type_legal_from_accepted_status e ctx =
    ctx.actual_prev_status ≡ predecessor e.event_type
Holds _ e ctx = Unit {0}

-- The rules in the order of evaluation.
abbrev pub earlier : OrderCorrectnessRuleId → List OrderCorrectnessRuleId
earlier transition_proof_prev_event_id_matches_accepted =
    transition_sequence_matches_accepted_next_version ∷ []
earlier transition_proof_prev_version_matches_accepted =
    transition_sequence_matches_accepted_next_version
    ∷ transition_proof_prev_event_id_matches_accepted ∷ []
earlier transition_proof_prev_status_matches_accepted =
    transition_sequence_matches_accepted_next_version
    ∷ transition_proof_prev_event_id_matches_accepted
    ∷ transition_proof_prev_version_matches_accepted ∷ []
earlier transition_event_type_legal_from_accepted_status =
    transition_sequence_matches_accepted_next_version
    ∷ transition_proof_prev_event_id_matches_accepted
    ∷ transition_proof_prev_version_matches_accepted ∷ transition_proof_prev_status_matches_accepted
    ∷ []
earlier _ = []

abbrev pub AllHold : List OrderCorrectnessRuleId → OrderEvent → ValidationContext → Type 0
AllHold [] e ctx = Unit {0}
AllHold (r ∷ rs) e ctx = Holds r e ctx × AllHold rs e ctx

-- The candidate tells the truth about its accepted predecessor, and may follow it.
abbrev pub IsTruthful : OrderEvent → ValidationContext → Type 0
IsTruthful e ctx =
    (e.sequence ≡ ctx.actual_prev_version + 1)
    × (e.proof.prev_event_id ≡ event_id_of ctx.actual_prev_event)
    × (e.proof.prev_version ≡ ctx.actual_prev_version)
    × (e.proof.prev_status ≡ ctx.actual_prev_status)
    × (ctx.actual_prev_status ≡ predecessor e.event_type)

pub optional_eq_iff : (a b : Option String) → (optional_eq a b ≡ true) ↔ (a ≡ b)
optional_eq_iff none none = (λ h. refl, λ h. refl)
optional_eq_iff none (some b) = (λ h. absurd (ground arith), λ h. absurd (ground arith))
optional_eq_iff (some a) none = (λ h. absurd (ground arith), λ h. absurd (ground arith))
optional_eq_iff (some a) (some b) =
    (λ h. ground (arith, eq_iff a b), λ h. ground (arith, eq_iff a b))

module _ (e : OrderEvent) (ctx : ValidationContext) where
  -- The full-proof validator passes a candidate exactly when its sequence is the next one, its
  -- proof names the last accepted event, version and status, and its event type may follow that
  -- status.
  pub validate-passed : ((full_proof_validate e ctx).verdict ≡ passed) ↔ IsTruthful e ctx
  unfolding full_proof_validate validate_branches
  validate-passed = (
    λ h. ground (arith, optional_eq_iff e.proof.prev_event_id (event_id_of ctx.actual_prev_event)),
    λ h. ground (arith, optional_eq_iff e.proof.prev_event_id (event_id_of ctx.actual_prev_event)),
  )

  -- A reported rule is violated, and it is the first: all rules that are evaluated before it hold.
  pub validate-first_violated :
      (rule : OrderCorrectnessRuleId)
      → (validate_branches e ctx).1 ≡ some rule
      → (¬ Holds rule e ctx) × AllHold (earlier rule) e ctx
  unfolding validate_branches
  validate-first_violated rule h =
      ground (arith, optional_eq_iff e.proof.prev_event_id (event_id_of ctx.actual_prev_event))

  -- A rule is reported exactly when the verdict is no pass.
  pub validate-rule_iff :
      ((validate_branches e ctx).1 ≡ none) ↔ (full_proof_validate e ctx).verdict ≡ passed
  unfolding full_proof_validate validate_branches
  validate-rule_iff = (λ h. ground arith, λ h. ground arith)
