-- ===== src/Base/Slice.antt =====
-- `xs[:n]` and `xs[n:]`, and how they make up the list again.
use streaming_system_compass.Base.{
  ℕ, suc, zero, ◌+◌, ◌≤◌, List, [], ◌∷◌, ◌++◌, ◌≡◌, ◌∙◌, refl, ap, arith, length,
}

module _ {A : Type 0} where
  abbrev pub take : ℕ → List A → List A
  take zero xs = []
  take (suc n) [] = []
  take (suc n) (x ∷ xs) = x ∷ take n xs

  abbrev pub drop : ℕ → List A → List A
  drop zero xs = xs
  drop (suc n) [] = []
  drop (suc n) (x ∷ xs) = drop n xs

  pub take-drop : (n : ℕ) (xs : List A) → take n xs ++ drop n xs ≡ xs
  take-drop zero xs = refl
  take-drop (suc n) [] = refl
  take-drop (suc n) (x ∷ xs) = ap (λ ys. x ∷ ys) (take-drop n xs)

  -- What is left after a slice, reached by counting its elements.
  pub drop-length : (n k : ℕ) (xs : List A) → drop (length (take n xs) + k) xs ≡ drop k (drop n xs)
  drop-length zero k xs = ap (λ m. drop m xs) (omega arith)
  drop-length (suc n) k [] = ap (λ m. drop m []) (omega arith)
  drop-length (suc n) k (x ∷ xs) =
      let next : suc (length (take n xs)) + k ≡ suc (length (take n xs) + k) = omega arith in
      ap (λ m. drop m (x ∷ xs)) next ∙ drop-length n k xs

  pub drop-shorter : (n : ℕ) (xs : List A) → length (drop n xs) ≤ length xs
  drop-shorter zero xs = omega arith
  drop-shorter (suc n) [] = omega arith
  drop-shorter (suc n) (x ∷ xs) = omega (arith, drop-shorter n xs)

  pub append_assoc : (xs ys zs : List A) → (xs ++ ys) ++ zs ≡ xs ++ (ys ++ zs)
  append_assoc [] ys zs = refl
  append_assoc (x ∷ xs) ys zs = ap (λ l. x ∷ l) (append_assoc xs ys zs)

  pub drop-append : (xs ys : List A) (k : ℕ) → drop (length xs + k) (xs ++ ys) ≡ drop k ys
  drop-append [] ys k = ap (λ m. drop m ys) (omega arith)
  drop-append (x ∷ xs) ys k =
      let next : suc (length xs) + k ≡ suc (length xs + k) = omega arith in
      ap (λ m. drop m (x ∷ xs ++ ys)) next ∙ drop-append xs ys k

  pub append-nil : (xs : List A) → xs ++ [] ≡ xs
  append-nil [] = refl
  append-nil (x ∷ xs) = ap (λ l. x ∷ l) (append-nil xs)
