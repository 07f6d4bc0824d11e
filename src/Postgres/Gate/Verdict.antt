-- ===== src/Postgres/Gate/Verdict.antt =====
-- src/pipeline/transactional/postgres_admission.py: what the gates' verdicts say of the database.
use streaming_system_compass.Base.{
  ℕ, true, false, Bool-cases, ◌+◌, not, inl, inr, List, [], ◌∷◌, String, ◌==◌, ◌≡◌, refl,
}
use streaming_system_compass.Base.Result.{Result, ok, err, raise_if}
use streaming_system_compass.Base.Triple.{Post, returned-Post, resume-Post, lift-Post}
use streaming_system_compass.Failure.{Failure, is_value_error}
use streaming_system_compass.Order.{OrderEvent}
use streaming_system_compass.Admission.{
  infrastructure_error, is_admitted, AdmissionResult, version_mismatch_evidence, admission_result,
}
use streaming_system_compass.Postgres.Rows.{event_row}
use streaming_system_compass.Postgres.Session.{Session}
use streaming_system_compass.Postgres.Transaction.{Write, event, Ledger, IsOpen, IsTransactional}
use streaming_system_compass.Postgres.EventStore.{append_event}
use streaming_system_compass.Postgres.Gate.{
  Gate, optimistic, pessimistic, translate_failure, translate_append, is_stream_position_conflict,
  is_prepared, append_with_translation, lock_stream, gate_append, gate_prepare, rejected,
}

-- A failure is never translated to an admission.
abbrev IsRejection : Result Failure AdmissionResult → Type 0
IsRejection r = Post (λ a (_ : Unit {0}). is_admitted a.verdict ≡ false) (λ _. Unit {0}) (r, tt)

translate_failure-IsRejection :
    (candidate : OrderEvent) (e : Failure) → IsRejection (translate_failure candidate e)
unfolding Post translate_failure rejected is_admitted admission_result version_mismatch_evidence
    is_value_error
translate_failure-IsRejection candidate (Failure.append_version_mismatch a b) =
    elim (Bool-cases (a == b)) [ inl e ↦ rw e tt | inr e ↦ rw e refl ]
translate_failure-IsRejection candidate (Failure.unique_violation name) =
    elim (Bool-cases (is_stream_position_conflict name)) [ inl e ↦ rw e refl | inr e ↦ rw e refl ]
translate_failure-IsRejection candidate Failure.invalid_operation = tt
translate_failure-IsRejection candidate (Failure.sequence_gap a b) = tt
translate_failure-IsRejection candidate Failure.database_error = tt
translate_failure-IsRejection candidate Failure.autocommit_enabled = tt
translate_failure-IsRejection candidate Failure.replay_without_record = tt
translate_failure-IsRejection candidate Failure.no_checkpoint = tt
translate_failure-IsRejection candidate Failure.lifecycle_misuse = tt
translate_failure-IsRejection candidate e = refl

module _ {D : Type 0} (db : Session D) (ledger : Ledger D) (law : IsTransactional db ledger) where
  -- What an append leaves: where it was admitted, its row in the open transaction.
  abbrev pub Appended : List Write → OrderEvent → AdmissionResult → D → Type 0
  Appended p candidate a s =
      (ledger.published s ≡ p)
      × (is_admitted a.verdict ≡ true → IsOpen db ledger p (event (event_row candidate) ∷ []) s)

  append_event-Post :
      (p : List Write) (candidate : OrderEvent) (expected : ℕ) (s : D)
      → IsOpen db ledger p [] s
      → Post
          (λ _. IsOpen db ledger p (event (event_row candidate) ∷ []))
          (λ s'. ledger.published s' ≡ p)
          (append_event db candidate expected s)
  unfolding append_event
  append_event-Post p candidate expected s h =
      resume-Post _ _ _ _ (law.version_law candidate.order_id p [] s h)
        (λ current s' h'.
          lift-Post _ _ _
            (raise_if (not (current == expected))
              (Failure.append_version_mismatch expected current))
            s'
            (λ _ _.
              lift-Post _ _ _
                (raise_if (not (candidate.sequence == expected + 1))
                  (Failure.continuity_broken (expected + 1) candidate.sequence))
                s' (λ _ _. law.insert_event_law (event_row candidate) p [] s' h') h'.published_eq)
            h'.published_eq)
        (λ s' h'. h')

  rejection-Post :
      (p : List Write) (candidate : OrderEvent) (r : Result Failure AdmissionResult) (s : D)
      → IsRejection r
      → ledger.published s ≡ p
      → Post (Appended p candidate) (λ s'. ledger.published s' ≡ p) (r, s)
  unfolding Post
  rejection-Post p candidate (ok a) s h hp = (hp, λ b. absurd (cc (b, h)))
  rejection-Post p candidate (err e) s h hp = hp

  translate_append-Post :
      (p : List Write) (candidate : OrderEvent) (m : Result Failure (Unit {0}) × D)
      → Post
          (λ _. IsOpen db ledger p (event (event_row candidate) ∷ []))
          (λ s'. ledger.published s' ≡ p)
          m
      → Post (Appended p candidate) (λ s'. ledger.published s' ≡ p) (translate_append candidate m)
  unfolding Post translate_append admission_result
  translate_append-Post p candidate (ok _, s) h = (h.published_eq, λ _. h)
  translate_append-Post p candidate (err e, s) h =
      rejection-Post p candidate (translate_failure candidate e) s
        (translate_failure-IsRejection candidate e) h

  pub gate_append-Post :
      (gate : Gate) (prepared : List String) (p : List Write) (candidate : OrderEvent)
      (expected : ℕ) (s : D)
      → IsOpen db ledger p [] s
      → Post
          (Appended p candidate)
          (λ s'. ledger.published s' ≡ p)
          (gate_append db gate prepared candidate expected s)
  unfolding Post gate_append append_with_translation rejected admission_result is_admitted
  gate_append-Post optimistic prepared p candidate expected s h =
      translate_append-Post p candidate _ (append_event-Post p candidate expected s h)
  gate_append-Post pessimistic prepared p candidate expected s h =
      elim (Bool-cases (is_prepared candidate.order_id prepared)) [
        | inl e ↦
            rw e (translate_append-Post p candidate _ (append_event-Post p candidate expected s h))
        | inr e ↦ rw e (
            rejection-Post p candidate (rejected candidate infrastructure_error) s refl
              h.published_eq)
      ]

  lock_stream-Post :
      (prepared : List String) (order_id : String) (p w : List Write) (s : D)
      → IsOpen db ledger p w s
      → Post
          (λ _. IsOpen db ledger p w)
          (λ s'. ledger.published s' ≡ p)
          (lock_stream db prepared order_id s)
  unfolding lock_stream
  lock_stream-Post prepared order_id p w s h =
      resume-Post _ _ _ _ (law.lock_law order_id p w s h) (λ _ _ h'. returned-Post _ _ _ _ h')
        (λ _ h'. h')

  pub gate_prepare-Post :
      (gate : Gate) (prepared : List String) (order_id : String) (p w : List Write) (s : D)
      → IsOpen db ledger p w s
      → Post
          (λ _. IsOpen db ledger p w)
          (λ s'. ledger.published s' ≡ p)
          (gate_prepare db gate prepared order_id s)
  unfolding Post gate_prepare
  gate_prepare-Post optimistic prepared order_id p w s h = h
  gate_prepare-Post pessimistic prepared order_id p w s h =
      rw h.autocommit_eq (lock_stream-Post prepared order_id p w s h)
