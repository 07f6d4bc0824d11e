-- ===== src/Projection/Snapshot/Resolution.antt =====
-- The resolver over an order whose accepted history the tail source serves.
use streaming_system_compass.Base.{
  ℕ, suc, ◌+◌, ◌<◌, true, Option, some, List, [], ◌∷◌, ◌++◌, String, ◌≡◌, ◌∙◌, refl, sym, ap, arith,
  length,
}
use streaming_system_compass.Base.Result.{ok}
use streaming_system_compass.Order.{OrderEvent, OrderState}
use streaming_system_compass.Order.Aggregate.{OrderAggregate, fresh, applied}
use streaming_system_compass.Order.History.{
  IsHistory, final, final-order, final-version, IsCoherent, applied-IsCoherent, fresh-IsCoherent,
}
use streaming_system_compass.Postgres.Rows.{status_of}
use streaming_system_compass.Projection.{reduce_all, build_empty_projection_state}
use streaming_system_compass.Projection.Agreement.{project, reduce_all-IsHistory}
use streaming_system_compass.Projection.Snapshot.{
  ProjectionSnapshot, resolved_from_snapshot, is_compatible, hydrate_snapshot_state, resolve_order,
  results, resolve_loaded, resolve_hydrated, on_tail, replay_tail,
}
use streaming_system_compass.Base.Slice.{take, drop-append}
use streaming_system_compass.Projection.Snapshot.Tail.{Serves, load_all_tail_records-Serves}

IsHistory-append :
    (a : OrderAggregate) (pre suf : List OrderEvent)
    → IsHistory a (pre ++ suf)
    → IsHistory a pre × IsHistory (final a pre) suf
IsHistory-append a [] suf h = (tt, h)
IsHistory-append a (e ∷ pre) suf h =
    let (left, right) = IsHistory-append (applied a e) pre suf h.1 in ((h.0, left), right)

final-append :
    (a : OrderAggregate) (pre suf : List OrderEvent)
    → final a (pre ++ suf) ≡ final (final a pre) suf
final-append a [] suf = refl
final-append a (e ∷ pre) suf = final-append (applied a e) pre suf

final-IsCoherent :
    (a : OrderAggregate) (es : List OrderEvent)
    → IsCoherent a
    → IsHistory a es
    → IsCoherent (final a es)
final-IsCoherent a [] c h = c
final-IsCoherent a (e ∷ es) c h =
    final-IsCoherent (applied a e) es (applied-IsCoherent a e c h.0) h.1

-- A compatible snapshot's position in the history is the version of the state it hydrates to.
is_compatible-sequence :
    (snapshot : ProjectionSnapshot) (o : String)
    → is_compatible snapshot o ≡ true
    → snapshot.state_version ≡ snapshot.source_event_sequence
unfolding is_compatible
is_compatible-sequence snapshot o h = ground arith

hydrate_snapshot_state-version :
    (snapshot : ProjectionSnapshot) (s : OrderState)
    → hydrate_snapshot_state snapshot ≡ ok s
    → snapshot.state_version ≡ s.version
unfolding hydrate_snapshot_state status_of
hydrate_snapshot_state-version snapshot s h = ground arith

-- The resolver agrees with full replay, and its loop over the tail ends. Let the tail source serve
-- an accepted history of the order, at most `suc less` records at a time, and let a compatible
-- snapshot hold the state after some first part of that history. Then fuel above the number of
-- the remaining events is enough, and the result is RESOLVED_FROM_SNAPSHOT with the state to which
-- the reducer takes the whole history from the empty state.
pub resolve_order-full_replay :
    (load_snapshot : String → Option ProjectionSnapshot)
    (load_after_sequence : String → ℕ → ℕ → List OrderEvent) (less fuel : ℕ) (o id : String)
    (snapshot : ProjectionSnapshot) (pre suf : List OrderEvent)
    → load_snapshot id ≡ some snapshot
    → is_compatible snapshot o ≡ true
    → hydrate_snapshot_state snapshot ≡ ok (project (final (fresh o) pre))
    → IsHistory (fresh o) (pre ++ suf)
    → Serves load_after_sequence (suc less) o 0 (pre ++ suf)
    → length suf < fuel
    → (full : OrderState) × (reduce_all (build_empty_projection_state o) (pre ++ suf) ≡ ok full)
      × (resolve_order load_snapshot load_after_sequence (suc less) fuel o (some id)
          ≡ some (ok (results o snapshot resolved_from_snapshot (some full))))
unfolding resolve_order resolve_loaded resolve_hydrated on_tail replay_tail
resolve_order-full_replay load_snapshot load_after_sequence less fuel o id snapshot pre suf found
      compatible hydrated h serves enough =
    let a = final (fresh o) pre in
    let (h-pre, h-suf) = IsHistory-append (fresh o) pre suf h in
    let version : a.current_version ≡ 0 + length pre = final-version (fresh o) pre h-pre in
    let position : snapshot.source_event_sequence ≡ a.current_version =
      sym (is_compatible-sequence snapshot o compatible)
      ∙ hydrate_snapshot_state-version snapshot (project a) hydrated in
    let tail : Serves load_after_sequence (suc less) o a.current_version suf = λ k.
      let at : a.current_version + k ≡ 0 + (length pre + k) = omega (arith, version) in
      ap (λ m. load_after_sequence o m (suc less)) at
      ∙ serves (length pre + k)
      ∙ ap (take (suc less)) (drop-append pre suf k) in
    let loaded =
      load_all_tail_records-Serves load_after_sequence less fuel o a suf []
        (final-order (fresh o) pre) h-suf tail enough in
    let reduced =
      reduce_all-IsHistory a suf (final-IsCoherent (fresh o) pre (fresh-IsCoherent o) h-pre)
        h-suf in
    (
      project (final a suf),
      rw (← final-append (fresh o) pre suf)
          (reduce_all-IsHistory (fresh o) (pre ++ suf) (fresh-IsCoherent o) h),
      rw (found, compatible, hydrated, position, loaded, reduced) refl,
    )
