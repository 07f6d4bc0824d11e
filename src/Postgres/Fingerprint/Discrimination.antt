-- ===== src/Postgres/Fingerprint/Discrimination.antt =====
-- src/storage/postgres_idempotency_store.py, `build_semantic_fingerprint`: what a fingerprint tells
-- apart.
use text.Mathlib.TextEquality.{Char-path}
use streaming_system_compass.Base.{
  ℕ, Bool, true, false, ◌==◌, List, [], ◌∷◌, ◌++◌, String, ◌≡◌, refl, sym, ap, ◌∙◌, subst, inl, inr,
}
use streaming_system_compass.Base.Text.{codes}
use streaming_system_compass.Base.Result.{ok, Result-cases}
use streaming_system_compass.Decimal.{Decimal, finite, infinity, nan, rescale}
use streaming_system_compass.Decimal.Parse.{is_digit}
use streaming_system_compass.Decimal.Parse.RoundTrip.{AllPlain, show_cents-AllPlain}
use streaming_system_compass.Money.{decimal, normalize_money, format_money, money_to_storage_string}
use streaming_system_compass.Order.{CommandType}
use streaming_system_compass.Postgres.Rows.{command_value}
use streaming_system_compass.Postgres.Fingerprint.{build_semantic_fingerprint}
use streaming_system_compass.Storage.Idempotency.{RequestSignature}

codes-inj : (s t : String) → codes s ≡ codes t → s ≡ t
codes-inj String.[] String.[] h = refl
codes-inj String.[] (String.◌∷◌ d t) h = absurd (cc h)
codes-inj (String.◌∷◌ c s) String.[] h = absurd (cc h)
codes-inj (String.◌∷◌ c s) (String.◌∷◌ d t) h =
    λ i. String.◌∷◌ (Char-path c d (cc h) i) (codes-inj s t (cc h) i)

format_money-AllPlain : (d : Decimal) → AllPlain (format_money d)
unfolding format_money
format_money-AllPlain (finite s c e) = show_cents-AllPlain s (rescale c e)
format_money-AllPlain (infinity s) = tt
format_money-AllPlain nan = tt

stored_text-AllPlain :
    (d : Decimal) (t : List ℕ) → money_to_storage_string (decimal d) ≡ ok t → AllPlain t
unfolding money_to_storage_string
stored_text-AllPlain d t h = elim (Result-cases (normalize_money (decimal d))) [
  | inl (m, e) ↦ subst AllPlain (cc (rw e at h)) (format_money-AllPlain m)
  | inr (f, e) ↦ absurd (cc (rw e at h))
]

-- The separator is no character of a printed amount.
separator-absent : {A : Type 0} (xs t : List ℕ) → AllPlain (xs ++ b'|' ∷ t) → A
unfolding is_digit
separator-absent [] t h = absurd (cc (h.0))
separator-absent (x ∷ xs) t h = separator-absent xs t (h.1)

-- So a text in front of the last separator is determined, and what is behind it.
last_separator :
    (xs ys t u : List ℕ)
    → AllPlain t
    → AllPlain u
    → xs ++ b'|' ∷ t ≡ ys ++ b'|' ∷ u
    → (xs ≡ ys) × (t ≡ u)
last_separator [] [] t u ht hu e = (refl, cc e)
last_separator [] (y ∷ ys) t u ht hu e =
    let e' : t ≡ ys ++ b'|' ∷ u = cc e in separator-absent ys u (subst AllPlain e' ht)
last_separator (x ∷ xs) [] t u ht hu e =
    let e' : xs ++ b'|' ∷ t ≡ u = cc e in separator-absent xs t (subst AllPlain (sym e') hu)
last_separator (x ∷ xs) (y ∷ ys) t u ht hu e =
    let (p, q) = last_separator xs ys t u ht hu (cc e) in
    let h : x ≡ y = cc e in ((λ i. h i ∷ p i), q)

-- The same command, the same order and the same amount, as it is stored.
abbrev pub SameRequest : RequestSignature → RequestSignature → Type 0
SameRequest a b =
    (a.command_type ≡ b.command_type)
    × (a.order_id ≡ b.order_id)
    × (money_to_storage_string (decimal a.amount) ≡ money_to_storage_string (decimal b.amount))

-- The first character of the command, behind the version.
starts_create : List ℕ → Bool
starts_create (_ ∷ _ ∷ _ ∷ c ∷ _) = c == 99
starts_create _ = false

joined-SameRequest :
    (p q : CommandType) (o o' t u : List ℕ)
    → AllPlain t
    → AllPlain u
    → codes "v1|" ++ (codes (command_value p) ++ (b'|' ∷ (o ++ b'|' ∷ t)))
      ≡ codes "v1|" ++ (codes (command_value q) ++ (b'|' ∷ (o' ++ b'|' ∷ u)))
    → (p ≡ q) × (o ≡ o') × (t ≡ u)
unfolding starts_create
joined-SameRequest CommandType.create CommandType.create o o' t u ht hu e =
    let (h, h') = last_separator o o' t u ht hu (cc e) in (refl, h, h')
joined-SameRequest CommandType.pay CommandType.pay o o' t u ht hu e =
    let (h, h') = last_separator o o' t u ht hu (cc e) in (refl, h, h')
joined-SameRequest CommandType.create CommandType.pay o o' t u ht hu e =
    let h : true ≡ false = ap starts_create e in absurd (cc h)
joined-SameRequest CommandType.pay CommandType.create o o' t u ht hu e =
    let h : false ≡ true = ap starts_create e in absurd (cc h)

-- Two requests with the same fingerprint have the same command, the same order and the same stored
-- amount, whatever characters the order ids have, the separator included.
pub build_semantic_fingerprint-SameRequest :
    (a b : RequestSignature) (f : List ℕ)
    → build_semantic_fingerprint a ≡ ok f
    → build_semantic_fingerprint b ≡ ok f
    → SameRequest a b
unfolding build_semantic_fingerprint
build_semantic_fingerprint-SameRequest a b f h h' =
    elim (Result-cases (money_to_storage_string (decimal a.amount))) [
      | inr (e, x) ↦ absurd (cc (rw x at h))
      | inl (t, x) ↦ elim (Result-cases (money_to_storage_string (decimal b.amount))) [
        | inr (e, y) ↦ absurd (cc (rw y at h'))
        | inl (u, y) ↦
            let (p, o, m) =
              joined-SameRequest a.command_type b.command_type (codes a.order_id) (codes b.order_id)
                t u (stored_text-AllPlain a.amount t x) (stored_text-AllPlain b.amount u y)
                (cc (rw x at h, rw y at h')) in
            (p, codes-inj a.order_id b.order_id o, x ∙ ap ok m ∙ sym y)
      ]
    ]
