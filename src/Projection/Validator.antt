-- ===== src/Projection/Validator.antt =====
-- src/pipeline/projection/replay_validator.py: the comparison of a persisted projection with the replay
-- of accepted history. The two reads are parameters, being what the database snapshot returns.
use streaming_system_compass.Base.{
  Bool, true, false, Option, none, some, List, [], ◌∷◌, String, str_eq, ◌==◌, ◌&&◌, if◌then◌else◌,
  ◌≡◌, ◌↔◌, refl, arith,
}
use streaming_system_compass.Base.Result.{Result, ok, ◌>>=◌}
use streaming_system_compass.Decimal.{decimal_eq}
use streaming_system_compass.Failure.{Failure}
use streaming_system_compass.Order.{status_eq, OrderEvent, OrderState}
use streaming_system_compass.Projection.{build_empty_projection_state, reduce_all}

pub data ReplayValidationStatus : Type 0 where
  match missing_projection drift no_accepted_history : ReplayValidationStatus

pub record ReplayValidationResult : Type 0 where
  pub order_id : String
  pub status : ReplayValidationStatus
  pub expected_state : Option OrderState
  pub persisted_state : Option OrderState

-- `==` of the dataclass, field by field
unfoldable pub state_eq : OrderState → OrderState → Bool
state_eq a b =
    str_eq a.order_id b.order_id
    && status_eq a.status b.status
    && decimal_eq a.total_amount b.total_amount
    && decimal_eq a.paid_amount b.paid_amount
    && (a.version == b.version)

-- The comparison behind the replay.
pub compare_states : String → OrderState → Option OrderState → ReplayValidationResult
compare_states order_id expected none = record {
  order_id = order_id;
  status = missing_projection;
  expected_state = some expected;
  persisted_state = none;
}
compare_states order_id expected (some persisted) = record {
  order_id = order_id;
  status = if state_eq persisted expected then match else drift;
  expected_state = some expected;
  persisted_state = some persisted;
}

-- `_validate_order`
unfoldable pub validate_order :
    String → List OrderEvent → Option OrderState → Result Failure ReplayValidationResult
unfolding compare_states
validate_order order_id [] persisted = ok (record {
  order_id = order_id;
  status = no_accepted_history;
  expected_state = none;
  persisted_state = persisted;
})
validate_order order_id (e ∷ es) persisted = do
  expected ← reduce_all (build_empty_projection_state order_id) (e ∷ es)
  ok (compare_states order_id expected persisted)

module _ (o : String) (expected : OrderState) where
  pub expected-compare :
      (p : Option OrderState) → (compare_states o expected p).expected_state ≡ some expected
  unfolding compare_states
  expected-compare none = refl
  expected-compare (some s) = refl

  pub match-compare :
      (p : Option OrderState)
      → ((compare_states o expected p).status ≡ match)
        ↔ ((s : OrderState) × (p ≡ some s) × (state_eq s expected ≡ true))
  unfolding compare_states
  match-compare none = (λ h. absurd (cc), λ (s, e, q). absurd (cc))
  match-compare (some s) = (λ h. (s, refl, ground arith), λ (t, e, q). ground arith)

  pub missing-compare :
      (p : Option OrderState)
      → ((compare_states o expected p).status ≡ missing_projection) ↔ (p ≡ none)
  unfolding compare_states
  missing-compare none = (λ h. refl, λ h. refl)
  missing-compare (some s) = (λ h. absurd (ground arith), λ h. absurd (cc))

  pub drift-compare :
      (p : Option OrderState)
      → ((compare_states o expected p).status ≡ drift)
        ↔ ((s : OrderState) × (p ≡ some s) × (state_eq s expected ≡ false))
  unfolding compare_states
  drift-compare none = (λ h. absurd (cc), λ (s, e, q). absurd (cc))
  drift-compare (some s) = (λ h. (s, refl, ground arith), λ (t, e, q). ground arith)
