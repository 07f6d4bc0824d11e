-- ===== src/Base/Text.antt =====
-- Texts as Python reads them: code points, and `str.strip` on whitespace.
use Prim.Native.Nat.{ℕ, compare, Ordering}
use Prim.Native.Char.{code}
use Prim.Native.String.{String}
use mathlib.Core.Bool.{Bool, true, false, ◌&&◌, ◌||◌}
use mathlib.Core.List.{List, [], ◌∷◌, ◌++◌, reverse, reverse-append, reverse-reverse}
use mathlib.Core.Path.{◌≡◌, refl}

-- The code points of a text.
abbrev pub codes : String → List ℕ
codes String.[] = []
codes (String.◌∷◌ c s) = code c ∷ codes s

abbrev between : ℕ → ℕ → ℕ → Bool
between lo hi c = elim (compare lo c) [
  | Ordering.gt ↦ false
  | _ ↦ elim (compare c hi) [ Ordering.gt ↦ false | _ ↦ true ]
]

-- `str.isspace` of one character: the Unicode whitespace that `str.strip` removes.
unfoldable pub is_space : ℕ → Bool
is_space c =
    between 9 13 c
    || between 28 32 c
    || between 133 133 c
    || between 160 160 c
    || between 5760 5760 c
    || between 8192 8202 c
    || between 8232 8233 c
    || between 8239 8239 c
    || between 8287 8287 c
    || between 12288 12288 c

drop_space : List ℕ → List ℕ
drop_space [] = []
drop_space (c ∷ cs) = elim (is_space c) [ true ↦ drop_space cs | false ↦ c ∷ cs ]

-- `value.strip()`
unfoldable pub strip : List ℕ → List ℕ
unfolding drop_space
strip cs = reverse (drop_space (reverse (drop_space cs)))

all_space : List ℕ → Bool
all_space [] = true
all_space (c ∷ cs) = is_space c && all_space cs

-- `not value.strip()`: the text has nothing but whitespace.
unfoldable pub is_blank : String → Bool
unfolding all_space is_space
is_blank s = all_space (codes s)

-- No code point of the text passes the test.
abbrev pub NonePass : (ℕ → Bool) → List ℕ → Type 0
NonePass p [] = Unit {0}
NonePass p (c ∷ cs) = (p c ≡ false) × NonePass p cs

pub NonePass-append :
    (p : ℕ → Bool) (xs ys : List ℕ) → NonePass p xs → NonePass p ys → NonePass p (xs ++ ys)
NonePass-append p [] ys h k = k
NonePass-append p (x ∷ xs) ys h k = (h.0, NonePass-append p xs ys h.1 k)

NonePass-reverse : (p : ℕ → Bool) (xs : List ℕ) → NonePass p xs → NonePass p (reverse xs)
NonePass-reverse p [] h = tt
NonePass-reverse p (x ∷ xs) h =
    rw (reverse-append (x ∷ []) xs)
      (NonePass-append p (reverse xs) (x ∷ []) (NonePass-reverse p xs h.1) (h.0, tt))

drop_space-NonePass : (cs : List ℕ) → NonePass is_space cs → drop_space cs ≡ cs
unfolding drop_space
drop_space-NonePass [] h = refl
drop_space-NonePass (c ∷ cs) h = rw (h.0, drop_space) refl

-- A text with no whitespace is its own strip.
pub strip-NonePass : (cs : List ℕ) → NonePass is_space cs → strip cs ≡ cs
unfolding strip
strip-NonePass cs h =
    rw (drop_space-NonePass cs h, drop_space-NonePass (reverse cs) (NonePass-reverse is_space cs h))
      (reverse-reverse cs)
