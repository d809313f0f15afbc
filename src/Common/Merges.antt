-- ===== src/Common/Merges.antt =====
-- Go maps with text keys: the loop `for k, v := range m { n[k] = v }`, and the last value of a key in a list.
use Prim.Native.String.{String}
use mathlib.Core.Path.{◌≡◌, refl, ap, ◌∙◌}
use mathlib.Core.Logic.{inl, inr}
use mathlib.Core.Option.{Option, none, some}
use mathlib.Core.List.{List, [], ◌∷◌, ◌++◌}
use text.Mathlib.Text.{◌==◌ as str_eq}
use garlic.Common.Tests.{if◌then◌else◌, Bool-cases}
use garlic.Common.Dict.{lookup, insert, lookup-insert}

module _ {ℓ} {Value : Type ℓ} where
  -- Each entry, in some order, goes into the other map.
  unfoldable pub merge : List (String × Value) → List (String × Value) → List (String × Value)
  merge [] result = result
  merge ((key, value) ∷ entries) result = insert key value (merge entries result)

  abbrev pub or_else : Option Value → Option Value → Option Value
  or_else none other = other
  or_else (some value) other = some value

  pub or_else_assoc : (a b c : Option Value) → or_else (or_else a b) c ≡ or_else a (or_else b c)
  or_else_assoc none b c = refl
  or_else_assoc (some value) b c = refl

  pub or_else-none : (o : Option Value) → o ≡ or_else o none
  or_else-none none = refl
  or_else-none (some value) = refl

  -- The last value with the key.
  unfoldable pub last_with : String → List (String × Value) → Option Value
  last_with key [] = none
  last_with key ((other, value) ∷ entries) =
      or_else (last_with key entries) (if str_eq other key then some value else none)

  pub last_with-append :
      (key : String) (xs ys : List (String × Value))
      → last_with key (xs ++ ys) ≡ or_else (last_with key ys) (last_with key xs)
  unfolding last_with
  last_with-append key [] ys = or_else-none (last_with key ys)
  last_with-append key ((other, value) ∷ xs) ys =
      ap (λ o. or_else o (if str_eq other key then some value else none))
        (last_with-append key xs ys)
      ∙ or_else_assoc (last_with key ys) (last_with key xs)
          (if str_eq other key then some value else none)

  pub lookup-merge :
      (key : String) (entries result : List (String × Value))
      → lookup key (merge entries result) ≡ or_else (lookup key entries) (lookup key result)
  unfolding merge lookup
  lookup-merge key [] result = refl
  lookup-merge key ((other, value) ∷ entries) result = elim (Bool-cases (str_eq other key)) [
    | inl same ↦ lookup-insert other key value (merge entries result) ∙ rw same refl
    | inr apart ↦
        lookup-insert other key value (merge entries result)
        ∙ rw apart (lookup-merge key entries result)
  ]
