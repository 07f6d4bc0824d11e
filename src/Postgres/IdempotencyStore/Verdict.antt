-- ===== src/Postgres/IdempotencyStore/Verdict.antt =====
-- src/storage/postgres_idempotency_store.py: which requests `check` takes for a replay of a recorded
-- one.
use streaming_system_compass.Base.{
  ℕ, true, Bool-cases, ◌&&◌, List, [], ◌∷◌, some, ◌==◌, ◌≡◌, refl, sym, ap, ◌∙◌, arith, inl, inr,
}
use streaming_system_compass.Base.Result.{ok, Result-cases}
use streaming_system_compass.Money.{decimal, money_to_storage_string}
use streaming_system_compass.Order.{OrderEvent}
use streaming_system_compass.Postgres.Rows.{IdempotencyInsert, IdempotencyRow, OrderEventRow}
use streaming_system_compass.Postgres.Fingerprint.{fingerprint_version, build_semantic_fingerprint}
use streaming_system_compass.Postgres.Fingerprint.Discrimination.{
  SameRequest, build_semantic_fingerprint-SameRequest,
}
use streaming_system_compass.Postgres.IdempotencyStore.{
  same_text, row_to_idempotency_record, found_verdict, classify_row, stored_amount, record_row,
}
use streaming_system_compass.Postgres.IdempotencyStore.Replay.{joined_row}
use streaming_system_compass.Storage.Idempotency.{RequestSignature, IdempotencyDecision, replay}

same_text-eq : (xs ys : List ℕ) → same_text xs ys ≡ true → xs ≡ ys
unfolding same_text
same_text-eq [] [] h = refl
same_text-eq [] (y ∷ ys) h = absurd (cc h)
same_text-eq (x ∷ xs) [] h = absurd (cc h)
same_text-eq (x ∷ xs) (y ∷ ys) h =
    let e : x ≡ y = ground arith in let p = same_text-eq xs ys (ground arith) in λ i. e i ∷ p i

-- The fingerprint that `record` writes.
record_row-fingerprint :
    (signature : RequestSignature) (e : OrderEvent) (row : IdempotencyInsert)
    → record_row signature e ≡ ok row
    → build_semantic_fingerprint signature ≡ ok row.semantic_fingerprint
unfolding record_row
record_row-fingerprint signature e row h =
    elim (Result-cases (money_to_storage_string (decimal signature.amount))) [
      | inr (f, a) ↦ absurd (cc (rw a at h))
      | inl (text, a) ↦ elim (Result-cases (stored_amount text)) [
        | inr (f, b) ↦ absurd (cc (rw (a, b) at h))
        | inl (amount, b) ↦ elim (Result-cases (build_semantic_fingerprint signature)) [
          | inr (f, c) ↦ absurd (cc (rw (a, b, c) at h))
          | inl (fingerprint, c) ↦ c ∙ cc (rw (a, b, c) at h)
        ]
      ]
    ]

-- The fingerprint that a replay was found by.
classify_row-fingerprint :
    (signature : RequestSignature) (row : IdempotencyRow) (d : IdempotencyDecision)
    → classify_row signature (some row) ≡ ok d
    → d.verdict ≡ replay
    → build_semantic_fingerprint signature ≡ ok row.semantic_fingerprint
unfolding classify_row found_verdict
classify_row-fingerprint signature row d h v =
    elim (Result-cases (build_semantic_fingerprint signature)) [
      | inr (f, a) ↦ absurd (cc (rw a at h))
      | inl (expected, a) ↦ elim (Result-cases (row_to_idempotency_record row)) [
        | inr (f, b) ↦ absurd (cc (rw (a, b) at h))
        | inl (r, b) ↦
            elim (Bool-cases (
              (row.fingerprint_version == fingerprint_version)
              && same_text row.semantic_fingerprint expected)) [
                | inl c ↦
                    a ∙ ap ok (sym (same_text-eq row.semantic_fingerprint expected (ground arith)))
                | inr c ↦ absurd (cc (rw (a, b, c) at h, v))
              ]
      ]
    ]

-- A request is taken for a replay of a recorded one only if it has the same command, the same order and
-- the same amount, as it is stored: never on another payload, whatever characters the order ids have.
pub classify_row-SameRequest :
    (signature prior : RequestSignature) (e : OrderEvent) (row : IdempotencyInsert)
    → record_row prior e ≡ ok row
    → (stored : OrderEventRow) (d : IdempotencyDecision)
    → classify_row signature (some (joined_row row stored)) ≡ ok d
    → d.verdict ≡ replay
    → SameRequest signature prior
classify_row-SameRequest signature prior e row h stored d h' v =
    build_semantic_fingerprint-SameRequest signature prior row.semantic_fingerprint
      (classify_row-fingerprint signature (joined_row row stored) d h' v)
      (record_row-fingerprint prior e row h)
