-- ===== src/Governance/Owner/Dispatches.antt =====
-- src/pipeline/transactional/postgres_write_side_invocation_owner.py: how often, and when, an owner
-- calls its writer.
use streaming_system_compass.Base.{
  ℕ, ◌≤◌, Bool, true, false, Bool-cases, Option, none, some, ◌≡◌, refl, sym, ap, subst, ◌∙◌, inl,
  inr, arith,
}
use streaming_system_compass.Base.Result.{ok}
use streaming_system_compass.Storage.Idempotency.{RequestSignature}
use streaming_system_compass.Postgres.Delivery.{PostgresWriteSideResult}
use streaming_system_compass.Governance.Reinvocation.{
  Authority, authorized, evaluate_reinvocation_authority,
}
use streaming_system_compass.Governance.Owner.{
  Owner, evaluate_authority, evaluate_on, keep_evaluation, enter_reinvocation, check_reinvocation,
  spend, require, permitted,
}
use streaming_system_compass.Governance.Owner.Lifecycle.{Run, count, Run-IsSound}

count-bound : (b : Bool) → count b ≤ 1
count-bound true = omega arith
count-bound false = omega arith

-- However many threads call the operations of an owner, in whatever order, and whatever the writer
-- returns or raises: the writer is called at most twice.
pub dispatches-bound :
    (signature : RequestSignature) (o : Owner) (i j : Bool) (n : ℕ) → Run signature o i j n → n ≤ 2
dispatches-bound signature o i j n run = omega (
  arith,
  (Run-IsSound signature o i j n run).counted,
  count-bound o.initial_invocation_started,
  count-bound o.authority_spent,
)

-- When the writer was called twice, the result that the first call returned is one for which the
-- reinvocation of this very request is authorized.
pub second_dispatch-authorized :
    (signature : RequestSignature) (o : Owner) (i j : Bool)
    → Run signature o i j 2
    → (r : PostgresWriteSideResult) × (o.initial_result ≡ some r)
      × (evaluate_reinvocation_authority signature r ≡ authorized signature)
second_dispatch-authorized signature o i j run =
    let h = Run-IsSound signature o i j 2 run in
    elim (Bool-cases o.authority_spent) [
      | inl b ↦ let (r, e, a) = h.cached (authorized signature) (h.spent b) in (r, e, sym a)
      | inr b ↦ absurd (omega (arith, rw b at h.counted, count-bound o.initial_invocation_started))
    ]

some-inj : {A : Type 0} {a b : A} → some a ≡ some b → a ≡ b
some-inj e = cc e

keep_evaluation-available :
    (signature : RequestSignature) (o : Owner) (r : PostgresWriteSideResult) (c : Option Authority)
    → o.request_signature ≡ signature
    → o.initial_result ≡ some r
    → o.cached_reinvocation_evaluation ≡ c
    → ((a : Authority) → c ≡ some a → a ≡ authorized signature)
    → evaluate_reinvocation_authority signature r ≡ authorized signature
    → o.authority_spent ≡ false
    → (enter_reinvocation ((keep_evaluation c r o).1)).0 ≡ ok tt
unfolding enter_reinvocation spend check_reinvocation require permitted keep_evaluation
keep_evaluation-available signature o r none hs hr hc h ha hb = rw (hr, hs, ha, hb) refl
keep_evaluation-available signature o r (some a) hs hr hc h ha hb = rw (hr, hc, h a refl, hb) refl

-- Whatever happened before: once the first call has returned a result for which the reinvocation is
-- authorized, and as long as the authority is unspent, evaluating it makes the second call available.
pub reinvocation-available :
    (signature : RequestSignature) (o : Owner) (i j : Bool) (n : ℕ) (r : PostgresWriteSideResult)
    → Run signature o i j n
    → o.initial_result ≡ some r
    → evaluate_reinvocation_authority signature r ≡ authorized signature
    → o.authority_spent ≡ false
    → (enter_reinvocation ((evaluate_authority o).1)).0 ≡ ok tt
unfolding evaluate_authority evaluate_on
reinvocation-available signature o i j n r run hr ha hb =
    let h = Run-IsSound signature o i j n run in
    subst (λ m. (enter_reinvocation ((evaluate_on m o).1)).0 ≡ ok tt) (sym hr)
      (keep_evaluation-available signature o r o.cached_reinvocation_evaluation h.signed hr refl
        (λ a e.
          let (r', e', issued) = h.cached a e in
          issued ∙ ap (evaluate_reinvocation_authority signature) (some-inj (sym e' ∙ hr)) ∙ ha)
        ha hb)
