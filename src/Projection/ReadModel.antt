-- ===== src/Projection/ReadModel.antt =====
-- The two sides together: what the worker projects from the registry's accepted history, and what
-- the replay validator says of it.
use streaming_system_compass.Base.{
  ℕ, true, false, Option, none, some, List, ◌∷◌, String, ◌≡◌, ◌↔◌, refl, sym, ◌∙◌, ap, subst,
}
use streaming_system_compass.Base.Dict.{empty, lookup-empty}
use streaming_system_compass.Base.Result.{ok}
use streaming_system_compass.Order.{OrderEvent, OrderState, Stamp}
use streaming_system_compass.Order.Aggregate.{fresh}
use streaming_system_compass.Order.History.{IsHistory, final, fresh-IsCoherent}
use streaming_system_compass.Projection.Agreement.{project, reduce_all-IsHistory}
use streaming_system_compass.Projection.Validator.{
  ReplayValidationResult, match, missing_projection, drift, validate_order, state_eq,
  compare_states, expected-compare, match-compare, missing-compare, drift-compare,
}
use streaming_system_compass.Projection.Worker.{
  Stores, ProjectionRecord, ProjectionProcessResult, load_or_init, replay,
}
use streaming_system_compass.Projection.Worker.Feed.{
  IsProjected, IsIncreasing, events_of, replay-IsProjected,
}
use streaming_system_compass.Transition.Runtime.{ValidationRuntime}
use streaming_system_compass.Storage.EventStore.{load}
use streaming_system_compass.Storage.Idempotency.{RequestSignature}
use streaming_system_compass.Registry.{new_world}
use streaming_system_compass.Registry.Invariant.{current}
use streaming_system_compass.Registry.Soundness.{serve, serve_from_empty-IsSound}

-- New projection and checkpoint stores.
abbrev pub no_stores : Stores
no_stores = record { states = empty; offsets = empty }

no_stores-IsProjected : IsProjected fresh no_stores
unfolding load_or_init
no_stores-IsProjected = record {
  loads = λ o. rw (lookup-empty {V = OrderState} o) refl;
  coherent = fresh-IsCoherent;
  named = λ o. refl;
}

-- A feed that carries exactly the accepted histories of a run of the registry from the empty
-- stores, in increasing offsets, is projected into new projection stores with no exception, and
-- leaves for each order the state that the write side has.
pub read_model_follows :
    (runtime : ValidationRuntime) (requests : List (Stamp × RequestSignature)) (worker : String)
    (feed : List ProjectionRecord)
    → ((o : String) → events_of o feed ≡ load o (serve runtime requests new_world).store)
    → IsIncreasing none feed
    → (xs : List ProjectionProcessResult) × ((replay worker feed no_stores).0 ≡ ok xs)
      × ((o : String)
          → load_or_init o (replay worker feed no_stores).1
            ≡ project (current (serve runtime requests new_world) o))
read_model_follows runtime requests worker feed carries inc =
    let w = serve runtime requests new_world in
    let sound = serve_from_empty-IsSound runtime requests in
    let (xs, done, loads) =
      replay-IsProjected worker feed fresh no_stores no_stores-IsProjected
        (λ o. subst (IsHistory (fresh o)) (sym (carries o)) (sound.histories o))
        (subst (λ (c : Option ℕ). IsIncreasing c feed) (sym (lookup-empty {V = ℕ} worker)) inc) in
    (xs, done, λ o. loads o ∙ ap (λ (l : List OrderEvent). project (final (fresh o) l)) (carries o))

module _ (o : String) (e : OrderEvent) (es : List OrderEvent) (h : IsHistory (fresh o) (e ∷ es))
    (persisted : Option OrderState) where
  -- On an accepted history that is not empty the validator never raises: it reports a match exactly
  -- for a persisted state that equals the write side's, a missing projection exactly for none, and
  -- drift exactly for a state that differs; and its expected state is the write side's.
  pub validate_order-accepted :
      (r : ReplayValidationResult) × (validate_order o (e ∷ es) persisted ≡ ok r)
      × (r.expected_state ≡ some (project (final (fresh o) (e ∷ es))))
      × ((r.status ≡ match) ↔ (
          (s : OrderState) × (persisted ≡ some s)
          × (state_eq s (project (final (fresh o) (e ∷ es))) ≡ true)))
      × ((r.status ≡ missing_projection) ↔ (persisted ≡ none))
      × ((r.status ≡ drift) ↔ (
          (s : OrderState) × (persisted ≡ some s)
          × (state_eq s (project (final (fresh o) (e ∷ es))) ≡ false)))
  unfolding validate_order
  validate_order-accepted =
      let expected = project (final (fresh o) (e ∷ es)) in
      let reduced = reduce_all-IsHistory (fresh o) (e ∷ es) (fresh-IsCoherent o) h in
      (
        compare_states o expected persisted,
        rw reduced refl,
        expected-compare o expected persisted,
        match-compare o expected persisted,
        missing-compare o expected persisted,
        drift-compare o expected persisted,
      )
