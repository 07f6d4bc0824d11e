-- ===== src/Projection/Snapshot/Trust.antt =====
-- The validator and the resolver together: what a verdict says of a later resolution.
use streaming_system_compass.Base.{
  ℕ, true, Option, none, some, List, [], ◌∷◌, String, ◌≡◌, refl, sym, ap, arith, eq_iff, inl, inr,
  Bool-cases,
}
use streaming_system_compass.Base.Result.{Result, ok, err, Result-cases}
use streaming_system_compass.Failure.{Failure}
use streaming_system_compass.Order.{OrderEvent, OrderState}
use streaming_system_compass.Projection.{
  build_empty_projection_state, reduce_order_event, reduce_all,
}
use streaming_system_compass.Projection.Validator.{state_eq}
use streaming_system_compass.Projection.Snapshot.{
  ProjectionSnapshot, resolved_from_snapshot, is_compatible, hydrate_snapshot_state,
  load_all_tail_records, results, resolve_order, resolve_loaded, resolve_hydrated, on_tail,
  replay_tail,
}
use streaming_system_compass.Projection.Snapshot.ReplayValidator.{
  SnapshotValidationResult, match, is_valid_boundary, reduce_tail, verdict, compare_tail,
  on_loaded_tail, on_hydrated, check_snapshot, on_authority, on_history, max_sequence,
  validate_snapshot,
}

-- The validator's loop over the tail reduces as the resolver's does, where it does not raise.
reduce_tail-reduce_all :
    (s t : OrderState) (es : List OrderEvent)
    → reduce_tail s es ≡ (t, none)
    → reduce_all s es ≡ ok t
unfolding reduce_tail reduce_all
reduce_tail-reduce_all s t [] h = cc
reduce_tail-reduce_all s t (e ∷ es) h = elim (Result-cases (reduce_order_event s e)) [
  | inl (s', q) ↦
      let h' : reduce_tail s' es ≡ (t, none) = rw q at h in rw q (reduce_tail-reduce_all s' t es h')
  | inr (f, q) ↦ absurd (ground arith)
]

valid_boundary-compatible :
    (snapshot : ProjectionSnapshot) (o : String) (newest : ℕ)
    → is_valid_boundary snapshot o newest ≡ true
    → snapshot.snapshot_schema_version ≡ 1
    → snapshot.reducer_version ≡ "order_projection_reducer:v1"
    → is_compatible snapshot o ≡ true
unfolding is_valid_boundary is_compatible
valid_boundary-compatible snapshot o newest h schema version =
    ground (arith, eq_iff snapshot.reducer_version "order_projection_reducer:v1")

-- What a match tells of the comparison, the tail, the hydration and the boundary check.
module _ (o : String) (snapshot : ProjectionSnapshot) (authority : OrderState) where
  abbrev IsMatched : OrderState → SnapshotValidationResult → Type 0
  IsMatched s r =
      (r.snapshot_assisted_state ≡ some s)
      × (r.authority_state ≡ some authority)
      × (state_eq s authority ≡ true)

  compare_tail-match :
      (p : OrderState × Option Failure) (r : SnapshotValidationResult)
      → compare_tail o snapshot authority p ≡ ok r
      → r.status ≡ match
      → (s : OrderState) × (p ≡ (s, none)) × IsMatched s r
  unfolding compare_tail
  compare_tail-match (s, none) r h m = elim (Bool-cases (state_eq s authority)) [
    | inl e ↦ (
      s,
      refl,
      let h' : ok (verdict o snapshot match (some s) authority) ≡ ok r = rw e at h in
          let same : verdict o snapshot match (some s) authority ≡ r = cc in
          (
            ap (λ v. v.snapshot_assisted_state) (sym same),
            ap (λ v. v.authority_state) (sym same),
            e,
          ),
    )
    | inr e ↦ absurd (ground arith)
  ]
  compare_tail-match (s, some f) r h m = absurd (ground arith)

  on_loaded_tail-match :
      (s : OrderState) (t : Option (Result Failure (List OrderEvent)))
      (r : SnapshotValidationResult)
      → on_loaded_tail o snapshot authority s t ≡ some (ok r)
      → r.status ≡ match
      → (tail : List OrderEvent) × (t ≡ some (ok tail))
        × (compare_tail o snapshot authority (reduce_tail s tail) ≡ ok r)
  unfolding on_loaded_tail
  on_loaded_tail-match s none r h m = absurd (cc)
  on_loaded_tail-match s (some (ok tail)) r h m = (tail, refl, cc)
  on_loaded_tail-match s (some (err f)) r h m = absurd (ground arith)

  on_hydrated-match :
      (load : OrderState → Option (Result Failure (List OrderEvent)))
      (x : Result Failure OrderState) (r : SnapshotValidationResult)
      → on_hydrated o snapshot authority load x ≡ some (ok r)
      → r.status ≡ match
      → (s : OrderState) × (x ≡ ok s)
        × (on_loaded_tail o snapshot authority s (load s) ≡ some (ok r))
  unfolding on_hydrated
  on_hydrated-match load (ok s) r h m = (s, refl, h)
  on_hydrated-match load (err f) r h m = absurd (ground arith)

module _ (load_latest_snapshot load_snapshot : String → Option ProjectionSnapshot)
    (load : String → List OrderEvent) (load_after_sequence : String → ℕ → ℕ → List OrderEvent)
    (limit fuel : ℕ) (o id : String) (snapshot : ProjectionSnapshot) where
  -- What the resolver gives, next to the state that accepted history gives.
  abbrev Resolves : List OrderEvent → Type 0
  Resolves es =
      (s authority : OrderState) × (reduce_all (build_empty_projection_state o) es ≡ ok authority)
      × (state_eq s authority ≡ true)
      × (resolve_order load_snapshot load_after_sequence limit fuel o (some id)
          ≡ some (ok (results o snapshot resolved_from_snapshot (some s))))

  resolve_order-steps :
      (start s : OrderState) (tail : List OrderEvent)
      → load_snapshot id ≡ some snapshot
      → is_compatible snapshot o ≡ true
      → hydrate_snapshot_state snapshot ≡ ok start
      → load_all_tail_records load_after_sequence limit fuel o snapshot.source_event_sequence []
        ≡ some (ok tail)
      → reduce_all start tail ≡ ok s
      → resolve_order load_snapshot load_after_sequence limit fuel o (some id)
        ≡ some (ok (results o snapshot resolved_from_snapshot (some s)))
  unfolding resolve_order resolve_loaded resolve_hydrated on_tail replay_tail
  resolve_order-steps start s tail found compatible hydrated loaded replayed =
      rw (found, compatible, hydrated, loaded, replayed) refl

  check_snapshot-match :
      (newest : ℕ) (authority : OrderState) (r : SnapshotValidationResult)
      → check_snapshot load_latest_snapshot load load_after_sequence limit fuel o newest authority
          (some snapshot)
        ≡ some (ok r)
      → r.status ≡ match
      → (is_valid_boundary snapshot o newest ≡ true)
        × (on_hydrated o snapshot authority
              (λ s.
                load_all_tail_records load_after_sequence limit fuel o
                  snapshot.source_event_sequence [])
              (hydrate_snapshot_state snapshot)
            ≡ some (ok r))
  unfolding check_snapshot
  check_snapshot-match newest authority r h m =
      elim (Bool-cases (is_valid_boundary snapshot o newest)) [
        | inl e ↦ (e, rw e at h)
        | inr e ↦ absurd (ground arith)
      ]

  -- From the verdict on one snapshot to its resolution.
  check_snapshot-resolves :
      (newest : ℕ) (authority : OrderState) (r : SnapshotValidationResult)
      → load_snapshot id ≡ some snapshot
      → snapshot.snapshot_schema_version ≡ 1
      → snapshot.reducer_version ≡ "order_projection_reducer:v1"
      → check_snapshot load_latest_snapshot load load_after_sequence limit fuel o newest authority
          (some snapshot)
        ≡ some (ok r)
      → r.status ≡ match
      → (s : OrderState) × (state_eq s authority ≡ true)
        × (resolve_order load_snapshot load_after_sequence limit fuel o (some id)
            ≡ some (ok (results o snapshot resolved_from_snapshot (some s))))
  check_snapshot-resolves newest authority r found schema version h m =
      let (boundary, checked) = check_snapshot-match newest authority r h m in
      let compatible = valid_boundary-compatible snapshot o newest boundary schema version in
      let (start, hydrated, loading) =
        on_hydrated-match o snapshot authority
          (λ s.
            load_all_tail_records load_after_sequence limit fuel o snapshot.source_event_sequence
              [])
          (hydrate_snapshot_state snapshot) r checked m in
      let (tail, loaded, compared) =
        on_loaded_tail-match o snapshot authority start
          (load_all_tail_records load_after_sequence limit fuel o snapshot.source_event_sequence [])
          r loading m in
      let (s, reduced, matched) =
        compare_tail-match o snapshot authority (reduce_tail start tail) r compared m in
      let replayed = reduce_tail-reduce_all start s tail reduced in
      (s, matched.2, resolve_order-steps start s tail found compatible hydrated loaded replayed)

  on_history-Resolves :
      (es : List OrderEvent) (r : SnapshotValidationResult)
      → load_latest_snapshot o ≡ some snapshot
      → load_snapshot id ≡ some snapshot
      → snapshot.snapshot_schema_version ≡ 1
      → snapshot.reducer_version ≡ "order_projection_reducer:v1"
      → on_history load_latest_snapshot load load_after_sequence limit fuel o es ≡ some (ok r)
      → r.status ≡ match
      → Resolves es
  unfolding on_history on_authority
  on_history-Resolves [] r latest found schema version h m = absurd (ground arith)
  on_history-Resolves (e ∷ es) r latest found schema version h m =
      elim (Result-cases (reduce_all (build_empty_projection_state o) (e ∷ es))) [
        | inl (authority, q) ↦
            let checked : check_snapshot load_latest_snapshot load load_after_sequence limit fuel o
                  (max_sequence e es) authority (some snapshot)
                ≡ some (ok r) =
              rw (← latest) (rw q at h) in
            let (s, same, resolved) =
              check_snapshot-resolves (max_sequence e es) authority r found schema version checked
                m in
            (s, authority, q, same, resolved)
        | inr (f, q) ↦ absurd (ground arith)
      ]

  -- A match can be relied on. Where the validator's verdict on an order is MATCH, whatever the tail
  -- source serves and whatever the snapshot holds, the resolver of the same source, fuel and
  -- snapshot, at the schema and reducer versions that it supports, resolves to a state equal to the
  -- one that the reducer computes from the whole accepted history.
  pub match-Resolves :
      (r : SnapshotValidationResult)
      → load_latest_snapshot o ≡ some snapshot
      → load_snapshot id ≡ some snapshot
      → snapshot.snapshot_schema_version ≡ 1
      → snapshot.reducer_version ≡ "order_projection_reducer:v1"
      → validate_snapshot load_latest_snapshot load load_after_sequence limit fuel o ≡ some (ok r)
      → r.status ≡ match
      → Resolves (load o)
  unfolding validate_snapshot
  match-Resolves = on_history-Resolves (load o)
