-- ===== src/Storage/EventStore.antt =====
-- src/storage/event_store.py: accepted history by order, appended to only at the version that the
-- writer expects.
use streaming_system_compass.Base.{
  ℕ, ◌+◌, true, Option, none, some, List, [], ◌∷◌, ◌++◌, String, ◌≡◌, ◌≢◌, refl, not, ◌==◌,
  if◌then◌else◌, length, last?, arith, ap, Bool-cases, inl, inr, ◌⊎◌, str_eq, eq_iff,
}
use streaming_system_compass.Base.Dict.{Dict, lookup, insert, lookup-insert}
use streaming_system_compass.Base.Result.{Result, ok, err}
use streaming_system_compass.Failure.{is_value_error, Failure, version_conflict, continuity_broken}
use streaming_system_compass.Order.{OrderEvent}

-- `events_by_order_id`
abbrev pub EventStore : Type 0
EventStore = Dict (List OrderEvent)

stream_or_empty : Option (List OrderEvent) → List OrderEvent
stream_or_empty none = []
stream_or_empty (some stream) = stream

-- `EventStore.load`
unfoldable pub load : String → EventStore → List OrderEvent
unfolding stream_or_empty
load order_id s = stream_or_empty (lookup order_id s)

-- `EventStore.last_event`
unfoldable pub last_event : String → EventStore → Option OrderEvent
last_event order_id s = last? (load order_id s)

-- `append` puts an empty stream in place for an order that it has not seen, before its checks.
with_stream : String → Option (List OrderEvent) → EventStore → EventStore
with_stream order_id none s = insert order_id [] s
with_stream order_id (some _) s = s

-- `EventStore.append`: a raise leaves what was written before it.
unfoldable pub append : OrderEvent → ℕ → EventStore → Result Failure (Unit {0}) × EventStore
unfolding load with_stream stream_or_empty
append e expected s =
    let stream = load e.order_id s in
    let s' = with_stream e.order_id (lookup e.order_id s) s in
    if not (length stream == expected)
    then (err (version_conflict (length stream) expected), s')
    else if not (e.sequence == expected + 1)
    then (err (continuity_broken (expected + 1) e.sequence), s')
    else (ok tt, insert e.order_id (stream ++ e ∷ []) s')

pub load-insert :
    (o j : String) (stream : List OrderEvent) (s : EventStore)
    → load j (insert o stream s) ≡ (if str_eq o j then stream else load j s)
unfolding load stream_or_empty
load-insert o j stream s = ground (arith, lookup-insert o j stream s)

load-with_stream :
    (o j : String) (m : Option (List OrderEvent)) (s : EventStore)
    → lookup o s ≡ m
    → load j (with_stream o m s) ≡ load j s
unfolding load stream_or_empty with_stream
load-with_stream o j (some stream) s e = refl
load-with_stream o j none s e = ground (arith, lookup-insert o j [] s, eq_iff o j)

load-put :
    (o j : String) (e : OrderEvent) (s s' : EventStore)
    → load j s' ≡ load j s
    → load j (insert o (load o s ++ e ∷ []) s')
      ≡ (if str_eq o j then load j s ++ e ∷ [] else load j s)
load-put o j e s s' h = rw load-insert (elim (Bool-cases (str_eq o j)) [
  | inl same ↦ rw same (ap (λ (k : String). load k s ++ e ∷ []) ((eq_iff o j).0 same))
  | inr other ↦ rw other h
])

-- What an append has done, by how it ended.
abbrev pub Appends : OrderEvent → ℕ → EventStore → Result Failure (Unit {0}) × EventStore → Type 0
Appends e expected s (err f, s') =
    (is_value_error f ≡ true)
    × ((length (load e.order_id s) ≢ expected) ⊎ (e.sequence ≢ expected + 1))
    × ((j : String) → load j s' ≡ load j s)
Appends e expected s (ok _, s') =
    (length (load e.order_id s) ≡ expected)
    × (e.sequence ≡ expected + 1)
    × ((j : String) → load j s' ≡ (if str_eq e.order_id j then load j s ++ e ∷ [] else load j s))

-- An append raises a ValueError and leaves every history as it was, because the version or the
-- sequence is not the expected one; or it was made at the current version with the next sequence,
-- and puts the event at the end of its order's history and leaves the others as they were.
pub append-Appends :
    (e : OrderEvent) (expected : ℕ) (s : EventStore) → Appends e expected s (append e expected s)
unfolding append is_value_error
append-Appends e expected s = elim (Bool-cases (length (load e.order_id s) == expected)) [
  | inr stale ↦
      rw stale
        (refl, inl (ground arith), λ j. load-with_stream e.order_id j (lookup e.order_id s) s refl)
  | inl current ↦ rw current (elim (Bool-cases (e.sequence == expected + 1)) [
    | inr gap ↦
        rw gap (
          refl,
          inr (ground arith),
          λ j. load-with_stream e.order_id j (lookup e.order_id s) s refl,
        )
    | inl next ↦ rw next (
      ground arith,
      ground arith,
      λ j.
          load-put e.order_id j e s (with_stream e.order_id (lookup e.order_id s) s)
            (load-with_stream e.order_id j (lookup e.order_id s) s refl),
    )
  ])
]

-- At the current version, with the next sequence, an append succeeds.
pub append-ok :
    (e : OrderEvent) (expected : ℕ) (s : EventStore)
    → length (load e.order_id s) ≡ expected
    → e.sequence ≡ expected + 1
    → ((append e expected s).0 ≡ ok tt)
      × ((j : String)
          → load j (append e expected s).1
            ≡ (if str_eq e.order_id j then load j s ++ e ∷ [] else load j s))
append-ok e expected s p q = go (append e expected s) (append-Appends e expected s)
  where
    go :
        (r : Result Failure (Unit {0}) × EventStore)
        → Appends e expected s r
        → (r.0 ≡ ok tt)
          × ((j : String)
              → load j r.1 ≡ (if str_eq e.order_id j then load j s ++ e ∷ [] else load j s))
    go (err f, s') (_, inl stale, _) = absurd (stale p)
    go (err f, s') (_, inr gap, _) = absurd (gap q)
    go (ok _, s') (_, _, loads) = (refl, loads)
