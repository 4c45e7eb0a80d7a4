-- ===== src/Prelude/Assoc.antt =====
-- Go maps with text keys, as association lists in which a write replaces the old entry.
use mathlib.Core.Path.{◌≡◌, refl}
use mathlib.Core.Option.{Option, none, some}
use mathlib.Core.List.{List, [], ◌∷◌}
use native.Mathlib.Omega.{arith}
use Prim.Native.String.{String}
use text.Mathlib.TextEquality.{eq_iff}
use zeroone.Prelude.Tests.{if◌then◌else◌}
use zeroone.Prelude.Texts.{str_eq}

module _ {ℓ} {V : Type ℓ} where
  unfoldable pub lookup : String → List (String × V) → Option V
  lookup k [] = none
  lookup k ((j, v) ∷ m) = if str_eq j k then some v else lookup k m

  -- `m[k]`: the zero value where the key is missing.
  unfoldable pub get_or : V → String → List (String × V) → V
  get_or z k [] = z
  get_or z k ((j, v) ∷ m) = if str_eq j k then v else get_or z k m

  unfoldable pub insert : String → V → List (String × V) → List (String × V)
  insert k v [] = (k, v) ∷ []
  insert k v ((j, w) ∷ m) = if str_eq j k then (k, v) ∷ m else (j, w) ∷ insert k v m

  pub get_or-insert :
      (z : V) (j k : String) (v : V) (m : List (String × V))
      → get_or z j (insert k v m) ≡ (if str_eq k j then v else get_or z j m)
  unfolding get_or insert
  get_or-insert z j k v [] = refl
  get_or-insert z j k v ((i, w) ∷ m) =
      ground (arith, eq_iff k j, eq_iff i k, eq_iff i j, get_or-insert z j k v m)

  pub lookup-insert :
      (j k : String) (v : V) (m : List (String × V))
      → lookup j (insert k v m) ≡ (if str_eq k j then some v else lookup j m)
  unfolding lookup insert
  lookup-insert j k v [] = refl
  lookup-insert j k v ((i, w) ∷ m) =
      ground (arith, eq_iff i k, eq_iff k j, eq_iff i j, lookup-insert j k v m)

  pub get_or-lookup :
      (z : V) (k : String) (v : V) (m : List (String × V)) → lookup k m ≡ some v → get_or z k m ≡ v
  unfolding lookup get_or
  get_or-lookup z k v [] h = cc
  get_or-lookup z k v ((j, w) ∷ m) h = ground (arith, get_or-lookup z k v m, h)

  -- A write of what is there changes nothing.
  pub insert-lookup :
      (k : String) (v : V) (m : List (String × V)) → lookup k m ≡ some v → insert k v m ≡ m
  unfolding lookup insert
  insert-lookup k v [] h = cc
  insert-lookup k v ((j, w) ∷ m) h = ground (arith, eq_iff j k, insert-lookup k v m, h)
