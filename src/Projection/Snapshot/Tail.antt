-- ===== src/Projection/Snapshot/Tail.antt =====
-- The loop that loads the tail of an order, over a source that serves an accepted history in slices.
use streaming_system_compass.Base.Slice.{
  take, drop, take-drop, drop-length, drop-shorter, append_assoc, append-nil,
}
use streaming_system_compass.Base.{
  ℕ, suc, zero, ◌+◌, ◌<◌, some, List, [], ◌∷◌, ◌++◌, String, ◌≡◌, ◌∙◌, sym, ap, arith, length,
  eq_iff,
}
use streaming_system_compass.Base.Result.{ok}
use streaming_system_compass.Order.{OrderEvent}
use streaming_system_compass.Order.Aggregate.{OrderAggregate, applied}
use streaming_system_compass.Order.History.{IsHistory, applied-order}
use streaming_system_compass.Projection.Snapshot.{check_batch, load_all_tail_records, after_batch}

-- A slice of a history is checked without an exception, to the sequence of its last event.
check_batch-take :
    (n : ℕ) (o : String) (a : OrderAggregate) (es : List OrderEvent)
    → a.order_id ≡ o
    → IsHistory a es
    → check_batch o a.current_version (take n es) ≡ ok (a.current_version + length (take n es))
unfolding check_batch applied
check_batch-take zero o a es own h = ap ok (omega arith)
check_batch-take (suc n) o a [] own h = ap ok (omega arith)
check_batch-take (suc n) o a (e ∷ es) own h =
    let rest = check_batch-take n o (applied a e) es (applied-order a e ∙ own) h.1 in
    let p : e.order_id ≡ o = h.0.same_order ∙ own in
    let q : e.sequence ≡ a.current_version + 1 = h.0.next_sequence in
    ground (arith, eq_iff e.order_id o, rest)

-- What follows a slice of a history is a history.
IsHistory-drop :
    (n : ℕ) (o : String) (a : OrderAggregate) (es : List OrderEvent)
    → a.order_id ≡ o
    → IsHistory a es
    → (b : OrderAggregate) × (b.order_id ≡ o)
      × (b.current_version ≡ a.current_version + length (take n es))
      × IsHistory b (drop n es)
unfolding applied
IsHistory-drop zero o a es own h = (a, own, omega arith, h)
IsHistory-drop (suc n) o a [] own h = (a, own, omega arith, h)
IsHistory-drop (suc n) o a (e ∷ es) own h =
    let (b, own', version, rest) =
      IsHistory-drop n o (applied a e) es (applied-order a e ∙ own) h.1 in
    let q : e.sequence ≡ a.current_version + 1 = h.0.next_sequence in
    (b, own', omega (arith, version, q), rest)

-- The tail source serves, from the sequence `n` on, the records `es`, at most `limit` at a time.
abbrev pub Serves : (String → ℕ → ℕ → List OrderEvent) → ℕ → String → ℕ → List OrderEvent → Type 0
Serves load_after_sequence limit o n es =
    (k : ℕ) → load_after_sequence o (n + k) limit ≡ take limit (drop k es)

module _ (load_after_sequence : String → ℕ → ℕ → List OrderEvent) (limit : ℕ) where
  Serves-drop :
      (l : ℕ) (o : String) (n : ℕ) (es : List OrderEvent)
      → Serves load_after_sequence limit o n es
      → Serves load_after_sequence limit o (n + length (take l es)) (drop l es)
  Serves-drop l o n es h k =
      let next : n + length (take l es) + k ≡ n + (length (take l es) + k) = omega arith in
      ap (λ m. load_after_sequence o m limit) next
      ∙ h (length (take l es) + k)
      ∙ ap (take limit) (drop-length l k es)

  first-Serves :
      (o : String) (n : ℕ) (es : List OrderEvent)
      → Serves load_after_sequence limit o n es
      → load_after_sequence o n limit ≡ take limit es
  first-Serves o n es h =
      let now : n ≡ n + 0 = omega arith in ap (λ m. load_after_sequence o m limit) now ∙ h 0

module _ (load_after_sequence : String → ℕ → ℕ → List OrderEvent) (less : ℕ) where
  -- The loop ends, within as many turns as there are records and one, with all of them.
  pub load_all_tail_records-Serves :
      (fuel : ℕ) (o : String) (a : OrderAggregate) (es acc : List OrderEvent)
      → a.order_id ≡ o
      → IsHistory a es
      → Serves load_after_sequence (suc less) o a.current_version es
      → length es < fuel
      → load_all_tail_records load_after_sequence (suc less) fuel o a.current_version acc
        ≡ some (ok (acc ++ es))
  unfolding load_all_tail_records after_batch
  load_all_tail_records-Serves zero o a es acc own h s enough = ground arith
  load_all_tail_records-Serves (suc fuel) o a [] acc own h s enough =
      rw (first-Serves load_after_sequence (suc less) o a.current_version [] s)
        (ap (λ l. some (ok l)) (sym (append-nil acc)))
  load_all_tail_records-Serves (suc fuel) o a (e ∷ es) acc own h s enough =
      let (b, own', version, rest) = IsHistory-drop (suc less) o a (e ∷ es) own h in
      let batch = take (suc less) (e ∷ es) in
      let left = drop (suc less) (e ∷ es) in
      let s' : Serves load_after_sequence (suc less) o b.current_version left =
        rw version
          (Serves-drop load_after_sequence (suc less) (suc less) o a.current_version (e ∷ es) s) in
      let again =
        load_all_tail_records-Serves fuel o b left (acc ++ batch) own' rest s'
          (omega (arith, enough, drop-shorter less es)) in
      let whole : (acc ++ batch) ++ left ≡ acc ++ e ∷ es =
        append_assoc acc batch left ∙ ap (λ l. acc ++ l) (take-drop (suc less) (e ∷ es)) in
      rw
        (
          first-Serves load_after_sequence (suc less) o a.current_version (e ∷ es) s,
          check_batch-take (suc less) o a (e ∷ es) own h,
          ← version,
          ← whole,
        )
        again
