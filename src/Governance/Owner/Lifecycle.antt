-- ===== src/Governance/Owner/Lifecycle.antt =====
-- src/pipeline/transactional/postgres_write_side_invocation_owner.py: the lifecycle of an owner, any
-- number of threads calling it in any order.
use streaming_system_compass.Base.{
  ℕ, suc, ◌+◌, Bool, true, false, Bool-cases, String, Option, none, some, ◌≡◌, refl, sym, ap, subst,
  ◌∙◌, ◌||◌, inl, inr, arith,
}
use streaming_system_compass.Base.Result.{Result, ok, err, raise_if}
use streaming_system_compass.Failure.{Failure, lifecycle_misuse}
use streaming_system_compass.Storage.Idempotency.{RequestSignature}
use streaming_system_compass.Postgres.Delivery.{PostgresWriteSideResult}
use streaming_system_compass.Governance.WriteSideOutcome.{Reasons}
use streaming_system_compass.Governance.Reinvocation.{
  is_eligible_lock_timeout, is_eligible_version_mismatch, Authority, authorized, not_authorized,
  evaluate_reinvocation_authority,
}
use streaming_system_compass.Governance.Owner.{
  Delivery, Owner, new_owner, enter_initial, publish_initial, publish_current, evaluate_authority,
  evaluate_on, keep_evaluation, enter_reinvocation, check_reinvocation, spend, require, permitted,
  evaluate_current_response, respond_on, cache_delivery, make_delivery, id_or,
}
use streaming_system_compass.Base.Result

-- The owner that a sequence of steps leaves, with the first and the second call of the writer under
-- way or not, and the number of calls so far. A call of the writer may return any result, or raise.
pub data Run (signature : RequestSignature) : Owner → Bool → Bool → ℕ → Type 0 where
  start : Run signature (new_owner signature) false false 0
  initial_entered :
      {o o' : Owner} {i j : Bool} {n : ℕ}
      → Run signature o i j n
      → enter_initial o ≡ (ok tt, o')
      → Run signature o' true j (suc n)
  initial_returned :
      {o : Owner} {j : Bool} {n : ℕ} (r : PostgresWriteSideResult)
      → Run signature o true j n
      → Run signature (publish_initial r o) false j n
  initial_raised :
      {o : Owner} {j : Bool} {n : ℕ} → Run signature o true j n → Run signature o false j n
  authority_evaluated :
      {o o' : Owner} {i j : Bool} {n : ℕ} {a : Result Failure Authority}
      → Run signature o i j n
      → evaluate_authority o ≡ (a, o')
      → Run signature o' i j n
  reinvocation_entered :
      {o o' : Owner} {i j : Bool} {n : ℕ}
      → Run signature o i j n
      → enter_reinvocation o ≡ (ok tt, o')
      → Run signature o' i true (suc n)
  reinvocation_returned :
      {o : Owner} {i : Bool} {n : ℕ} (r : PostgresWriteSideResult)
      → Run signature o i true n
      → Run signature (publish_current r o) i false n
  reinvocation_raised :
      {o : Owner} {i : Bool} {n : ℕ} → Run signature o i true n → Run signature o i false n
  response_evaluated :
      {o o' : Owner} {i j : Bool} {n : ℕ} {d : Result Failure Delivery} (minted : String)
      (reasons : Reasons)
      → Run signature o i j n
      → evaluate_current_response minted reasons o ≡ (d, o')
      → Run signature o' i j n

abbrev pub count : Bool → ℕ
count true = 1
count false = 0

-- What every step keeps.
pub record IsSound (signature : RequestSignature) (o : Owner) (i : Bool) (n : ℕ) : Type 0 where
  pub signed : o.request_signature ≡ signature
  pub counted : n ≡ count o.initial_invocation_started + count o.authority_spent
  pub unstarted : o.initial_invocation_started ≡ false → o.initial_result ≡ none
  pub entered : i ≡ true → o.initial_invocation_started ≡ true
  pub under_way : i ≡ true → o.initial_result ≡ none
  pub cached :
      (a : Authority)
      → o.cached_reinvocation_evaluation ≡ some a
      → (r : PostgresWriteSideResult) × (o.initial_result ≡ some r)
        × (a ≡ evaluate_reinvocation_authority signature r)
  pub spent :
      o.authority_spent ≡ true → o.cached_reinvocation_evaluation ≡ some (authorized signature)

start-IsSound : (signature : RequestSignature) → IsSound signature (new_owner signature) false 0
start-IsSound signature = record {
  signed = refl;
  counted = refl;
  unstarted = λ _. refl;
  entered = λ e. absurd (cc e);
  under_way = λ _. refl;
  cached = λ a e. absurd (cc e);
  spent = λ e. absurd (cc e);
}

-- What an entered first call found and left.
enter_initial-inv :
    (o o' : Owner)
    → enter_initial o ≡ (ok tt, o')
    → (o.initial_invocation_started ≡ false) × (o' ≡ record o { initial_invocation_started = true })
unfolding enter_initial
enter_initial-inv o o' e = elim (Bool-cases o.initial_invocation_started) [
  | inl b ↦ absurd (cc (rw b at e))
  | inr b ↦ (b, sym (ap (λ m. m.1) (rw b at e)))
]

initial_entered-IsSound :
    (signature : RequestSignature) (o o' : Owner) (i : Bool) (n : ℕ)
    → IsSound signature o i n
    → enter_initial o ≡ (ok tt, o')
    → IsSound signature o' true (suc n)
initial_entered-IsSound signature o o' i n h e =
    let (b, eq) = enter_initial-inv o o' e in
    subst (λ o'. IsSound signature o' true (suc n)) (sym eq)
      (record {
        signed = h.signed;
        counted = omega (arith, rw b at h.counted);
        unstarted = λ e. absurd (cc e);
        entered = λ _. refl;
        under_way = λ _. h.unstarted b;
        cached = h.cached;
        spent = h.spent;
      })

initial_returned-IsSound :
    (signature : RequestSignature) (o : Owner) (n : ℕ) (r : PostgresWriteSideResult)
    → IsSound signature o true n
    → IsSound signature (publish_initial r o) false n
unfolding publish_initial
initial_returned-IsSound signature o n r h = record {
  signed = h.signed;
  counted = h.counted;
  unstarted = λ e. absurd (cc (e, h.entered refl));
  entered = λ e. absurd (cc e);
  under_way = λ e. absurd (cc e);
  cached = λ a e. let (r', e', _) = h.cached a e in absurd (cc (e', h.under_way refl));
  spent = h.spent;
}

raised-IsSound :
    (signature : RequestSignature) (o : Owner) (i : Bool) (n : ℕ)
    → IsSound signature o i n
    → IsSound signature o false n
raised-IsSound signature o i n h = record {
  signed = h.signed;
  counted = h.counted;
  unstarted = h.unstarted;
  entered = λ e. absurd (cc e);
  under_way = λ e. absurd (cc e);
  cached = h.cached;
  spent = h.spent;
}

-- The fields of the current response do not matter.
current-IsSound :
    (signature : RequestSignature) (o : Owner) (i : Bool) (n : ℕ)
    (r : Option PostgresWriteSideResult) (u : Option String) (d : Option Delivery)
    → IsSound signature o i n
    → IsSound signature
        (record o {
          current_response_result = r;
          current_response_outcome_id = u;
          cached_current_response_delivery = d;
        })
        i
        n
current-IsSound signature o i n r u d h = record {
  signed = h.signed;
  counted = h.counted;
  unstarted = h.unstarted;
  entered = h.entered;
  under_way = h.under_way;
  cached = h.cached;
  spent = h.spent;
}

keep_evaluation-IsSound :
    (signature : RequestSignature) (o : Owner) (i : Bool) (n : ℕ) (r : PostgresWriteSideResult)
    (c : Option Authority)
    → IsSound signature o i n
    → o.initial_result ≡ some r
    → o.cached_reinvocation_evaluation ≡ c
    → IsSound signature ((keep_evaluation c r o).1) i n
unfolding keep_evaluation
keep_evaluation-IsSound signature o i n r (some a) h e e' = h
keep_evaluation-IsSound signature o i n r none h e e' = record {
  signed = h.signed;
  counted = h.counted;
  unstarted = h.unstarted;
  entered = h.entered;
  under_way = h.under_way;
  cached = λ a eq. (r, e, ground (arith, sym (rw h.signed at eq)));
  spent = λ b. absurd (cc (h.spent b, e'));
}

evaluate_on-IsSound :
    (signature : RequestSignature) (o : Owner) (i : Bool) (n : ℕ)
    (m : Option PostgresWriteSideResult)
    → IsSound signature o i n
    → o.initial_result ≡ m
    → IsSound signature ((evaluate_on m o).1) i n
unfolding evaluate_on
evaluate_on-IsSound signature o i n none h e = h
evaluate_on-IsSound signature o i n (some r) h e =
    keep_evaluation-IsSound signature o i n r o.cached_reinvocation_evaluation h e refl

permit-inv :
    (m : Option PostgresWriteSideResult) (c : Option Authority) (b : Bool)
    → Result.◌>>=◌ (require m) (λ _. Result.◌>>=◌ (permitted c) λ _. raise_if b lifecycle_misuse)
      ≡ ok tt
    → ((x : RequestSignature) × (c ≡ some (authorized x))) × (b ≡ false)
unfolding require permitted
permit-inv (some r) (some (authorized x)) false h = ((x, refl), refl)
permit-inv (some r) (some (authorized x)) true h = absurd (cc h)
permit-inv (some r) (some (not_authorized x)) b h = absurd (cc h)
permit-inv (some r) none b h = absurd (cc h)
permit-inv none c b h = absurd (cc h)

authorized-inv :
    (signature x : RequestSignature) (r : PostgresWriteSideResult)
    → authorized x ≡ evaluate_reinvocation_authority signature r
    → x ≡ signature
unfolding evaluate_reinvocation_authority
authorized-inv signature x r h =
    elim (Bool-cases
      (is_eligible_lock_timeout signature r || is_eligible_version_mismatch signature r)) [
        | inl b ↦ cc (rw b at h)
        | inr b ↦ absurd (cc (rw b at h))
      ]

spend-IsSound :
    (signature : RequestSignature) (o o' : Owner) (i : Bool) (n : ℕ) (c : Result Failure (Unit {0}))
    → IsSound signature o i n
    → check_reinvocation o ≡ c
    → spend c o ≡ (ok tt, o')
    → IsSound signature o' i (suc n)
unfolding spend check_reinvocation
spend-IsSound signature o o' i n (err f) h e e' = absurd (cc e')
spend-IsSound signature o o' i n (ok _) h e e' =
    let ((x, granted), unspent) =
      permit-inv o.initial_result o.cached_reinvocation_evaluation o.authority_spent e in
    let (r, found, issued) = h.cached (authorized x) granted in
    subst (λ o'. IsSound signature o' i (suc n)) (ap (λ m. m.1) e')
      (record {
        signed = h.signed;
        counted = omega (arith, rw unspent at h.counted);
        unstarted = h.unstarted;
        entered = h.entered;
        under_way = h.under_way;
        cached = h.cached;
        spent = λ _. granted ∙ ap (λ y. some (authorized y)) (authorized-inv signature x r issued);
      })

respond_on-IsSound :
    (signature : RequestSignature) (o : Owner) (i : Bool) (n : ℕ)
    (m : Option PostgresWriteSideResult) (d : Option Delivery) (minted : String) (reasons : Reasons)
    → IsSound signature o i n
    → IsSound signature ((respond_on m d minted reasons o).1) i n
unfolding respond_on
respond_on-IsSound signature o i n none d minted reasons h = h
respond_on-IsSound signature o i n (some r) (some d) minted reasons h = h
respond_on-IsSound signature o i n (some r) none minted reasons h =
    cached-IsSound
      (make_delivery o.request_signature r (id_or o.current_response_outcome_id minted) reasons)
  where
    cached-IsSound :
        (x : Result Failure Delivery)
        → IsSound signature
            ((cache_delivery x (record o {
              current_response_outcome_id = some (id_or o.current_response_outcome_id minted);
            })).1)
            i
            n
    cached-IsSound (ok x) = current-IsSound signature o i n o.current_response_result _ (some x) h
    cached-IsSound (err f) =
        current-IsSound signature o i n o.current_response_result _
          o.cached_current_response_delivery h

pub Run-IsSound :
    (signature : RequestSignature) (o : Owner) (i j : Bool) (n : ℕ)
    → Run signature o i j n
    → IsSound signature o i n
unfolding evaluate_authority enter_reinvocation evaluate_current_response
Run-IsSound signature o i j n start = start-IsSound signature
Run-IsSound signature o i j n (initial_entered run e) =
    initial_entered-IsSound signature _ o _ _ (Run-IsSound signature _ _ _ _ run) e
Run-IsSound signature o i j n (initial_returned r run) =
    initial_returned-IsSound signature _ _ r (Run-IsSound signature _ _ _ _ run)
Run-IsSound signature o i j n (initial_raised run) =
    raised-IsSound signature _ _ _ (Run-IsSound signature _ _ _ _ run)
Run-IsSound signature o i j n (authority_evaluated run e) =
    subst (λ o'. IsSound signature o' i n) (ap (λ m. m.1) e)
      (evaluate_on-IsSound signature _ _ _ _ (Run-IsSound signature _ _ _ _ run) refl)
Run-IsSound signature o i j n (reinvocation_entered run e) =
    spend-IsSound signature _ o _ _ _ (Run-IsSound signature _ _ _ _ run) refl e
Run-IsSound signature o i j n (reinvocation_returned r run) =
    current-IsSound signature _ _ _ (some r) none none (Run-IsSound signature _ _ _ _ run)
Run-IsSound signature o i j n (reinvocation_raised run) = Run-IsSound signature _ _ _ _ run
Run-IsSound signature o i j n (response_evaluated minted reasons run e) =
    subst (λ o'. IsSound signature o' i n) (ap (λ m. m.1) e)
      (respond_on-IsSound signature _ _ _ _ _ minted reasons (Run-IsSound signature _ _ _ _ run))
