-- ===== src/Base/Dict.antt =====
-- A Python `dict` with text keys. The program never iterates over one, so the order of the entries
-- is not modelled.
use Prim.Native.String.{String}
use mathlib.Core.Path.{◌≡◌, refl}
use mathlib.Core.Logic.{◌≢◌}
use mathlib.Core.Option.{Option, none, some}
use mathlib.Core.List.{List, [], ◌∷◌}
use native.Mathlib.Omega.{arith}
use text.Mathlib.Text.{◌==◌ as str_eq}
use text.Mathlib.TextEquality.{eq_iff}
use streaming_system_compass.Base.{if◌then◌else◌}

pub record Dict {ℓ} (V : Type ℓ) : Type ℓ where
  entries : List (String × V)

module _ {ℓ} {V : Type ℓ} where
  find : String → List (String × V) → Option V
  find k [] = none
  find k ((j, v) ∷ d) = if str_eq j k then some v else find k d

  store : String → V → List (String × V) → List (String × V)
  store k v [] = (k, v) ∷ []
  store k v ((j, w) ∷ d) = if str_eq j k then (k, v) ∷ d else (j, w) ∷ store k v d

  -- `{}`
  unfoldable pub empty : Dict V
  empty = record { entries = [] }

  -- `d.get(k)`
  unfoldable pub lookup : String → Dict V → Option V
  unfolding find
  lookup k d = find k d.entries

  -- `d[k] = v`
  unfoldable pub insert : String → V → Dict V → Dict V
  unfolding store
  insert k v d = record { entries = store k v d.entries }

  find-store :
      (k j : String) (v : V) (d : List (String × V))
      → find j (store k v d) ≡ (if str_eq k j then some v else find j d)
  unfolding find store
  find-store k j v [] = refl
  find-store k j v ((i, w) ∷ d) =
      ground (arith, eq_iff k j, eq_iff i k, eq_iff i j, find-store k j v d)

  pub lookup-empty : (k : String) → lookup k empty ≡ none
  unfolding lookup empty
  lookup-empty k = refl

  pub lookup-insert_self : (k : String) (v : V) (d : Dict V) → lookup k (insert k v d) ≡ some v
  unfolding lookup insert
  lookup-insert_self k v d = ground (arith, find-store k k v d.entries, eq_iff k k)

  pub lookup-insert_ne :
      (k j : String) (v : V) (d : Dict V) → k ≢ j → lookup j (insert k v d) ≡ lookup j d
  unfolding lookup insert
  lookup-insert_ne k j v d h = ground (arith, find-store k j v d.entries, eq_iff k j)

  pub lookup-insert :
      (k j : String) (v : V) (d : Dict V)
      → lookup j (insert k v d) ≡ (if str_eq k j then some v else lookup j d)
  unfolding lookup insert
  lookup-insert k j v d = find-store k j v d.entries
