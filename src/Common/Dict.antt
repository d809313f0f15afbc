-- ===== src/Common/Dict.antt =====
-- Go maps with text keys, as association lists: `m[k]` and `m[k] = v`.
use Prim.Native.String.{String}
use mathlib.Core.Path.{◌≡◌, refl}
use mathlib.Core.Option.{Option, none, some}
use mathlib.Core.List.{List, [], ◌∷◌}
use native.Mathlib.Omega.{arith}
use text.Mathlib.Text.{◌==◌ as str_eq}
use text.Mathlib.TextEquality.{eq_iff}
use garlic.Common.Tests.{if◌then◌else◌}

module _ {ℓ} {Value : Type ℓ} where
  unfoldable pub lookup : String → List (String × Value) → Option Value
  lookup key [] = none
  lookup key ((other, value) ∷ rest) = if str_eq other key then some value else lookup key rest

  -- A new key goes behind the others.
  unfoldable pub insert : String → Value → List (String × Value) → List (String × Value)
  insert key value [] = (key, value) ∷ []
  insert key value ((other, old) ∷ rest) =
      let behind = insert key value rest in
      if str_eq other key then (other, value) ∷ rest else (other, old) ∷ behind

  pub lookup-insert :
      (key asked : String) (value : Value) (entries : List (String × Value))
      → lookup asked (insert key value entries)
        ≡ (if str_eq key asked then some value else lookup asked entries)
  unfolding lookup insert
  lookup-insert key asked value [] = refl
  lookup-insert key asked value ((other, old) ∷ rest) =
      let behind = lookup-insert key asked value rest in
      ground (arith, behind, eq_iff other key, eq_iff other asked, eq_iff key asked)
