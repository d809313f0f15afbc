-- ===== src/Flatten/Keys.antt =====
-- The keys that `flattenStruct` of utils/flatten.go gives to the values.
use Prim.Native.String.{◌++◌ as str_append}
use text.Mathlib.Text.{starts_with}
use garlic.Common.{
  eq_iff, ◌≡◌, refl, ◌∙◌, ap, sym, String, Bool, true, false, List, [], ◌∷◌, ◌++◌, if◌then◌else◌,
  str_eq, inl, inr, Bool-cases,
}
use garlic.Flatten.{
  Fields, end, plain, nested, nil_pointer, hidden, squash, Table, join, next_parents,
}
use garlic.Flatten.Loop.{leaves}

-- The key of a field: its tag, behind the tags of the structs around it, each with a dot, but for those
-- that start with a comma.
unfoldable pub key_of : List String → String → String
key_of [] tag = tag
key_of (outer ∷ outers) tag =
    let key = key_of outers tag in
    if starts_with outer "," then key else str_append outer (str_append "." key)

-- The values of the tagged fields, each with its key, in the order of the fields.
unfoldable pub keyed : List String → Fields → Table
keyed outers end = []
keyed outers (plain tag value rest) =
    let others = keyed outers rest in
    if str_eq tag "" then others else (key_of outers tag, value) ∷ others
keyed outers (nil_pointer tag rest) = keyed outers rest
keyed outers (hidden tag rest) = keyed outers rest
keyed outers (nested tag fields rest) =
    let inner = keyed (outers ++ tag ∷ []) fields in
    let others = keyed outers rest in if str_eq tag "" then others else inner ++ others

-- The tags around a field that the loop has in `parents`.
unfoldable pub visible : List String → List String
visible [] = []
visible (outer ∷ outers) =
    let inner = visible outers in if starts_with outer "," then inner else outer ∷ inner

squash_lem : (tag : String) → squash tag ≡ starts_with tag ","
unfolding squash
squash_lem tag = elim (Bool-cases (str_eq tag ",squash")) [
  | inl whole ↦ rw (← sym ((eq_iff tag ",squash").0 whole)) refl
  | inr other ↦ rw other refl
]

visible-append :
    (tag : String) (outers : List String)
    → visible (outers ++ tag ∷ [])
      ≡ (if starts_with tag "," then visible outers else visible outers ++ tag ∷ [])
unfolding visible
visible-append tag [] = refl
visible-append tag (outer ∷ outers) = elim (Bool-cases (starts_with outer ",")) [
  | inl squashed ↦ rw squashed (visible-append tag outers)
  | inr kept ↦
      rw kept
        (ap (λ names. outer ∷ names) (visible-append tag outers) ∙ out_of (starts_with tag ","))
]
  where
    out_of :
        (b : Bool)
        → outer ∷ (if b then visible outers else visible outers ++ tag ∷ [])
          ≡ (if b then outer ∷ visible outers else outer ∷ (visible outers ++ tag ∷ []))
    out_of true = refl
    out_of false = refl

next_parents-visible :
    (tag : String) (outers : List String)
    → next_parents tag (visible outers) ≡ visible (outers ++ tag ∷ [])
next_parents-visible tag outers = rw (squash_lem tag) (sym (visible-append tag outers))

join-cons :
    (outer tag : String) (names : List String)
    → join (outer ∷ (names ++ tag ∷ []))
      ≡ str_append outer (str_append "." (join (names ++ tag ∷ [])))
unfolding join
join-cons outer tag [] = refl
join-cons outer tag (name ∷ names) = refl

join-visible :
    (tag : String) (outers : List String) → join (visible outers ++ tag ∷ []) ≡ key_of outers tag
unfolding visible key_of join
join-visible tag [] = refl
join-visible tag (outer ∷ outers) = elim (Bool-cases (starts_with outer ",")) [
  | inl squashed ↦ rw squashed (join-visible tag outers)
  | inr kept ↦ rw kept (
      join-cons outer tag (visible outers)
      ∙ ap (λ key. str_append outer (str_append "." key)) (join-visible tag outers))
]

pub leaves-keyed :
    (fields : Fields) (outers : List String) → leaves (visible outers) fields ≡ keyed outers fields
unfolding leaves keyed
leaves-keyed end outers = refl
leaves-keyed (plain tag value rest) outers =
    rw (leaves-keyed rest outers, join-visible tag outers) refl
leaves-keyed (nested tag fields rest) outers =
    rw
      (
        leaves-keyed rest outers,
        next_parents-visible tag outers,
        leaves-keyed fields (outers ++ tag ∷ []),
      )
      refl
leaves-keyed (nil_pointer tag rest) outers = leaves-keyed rest outers
leaves-keyed (hidden tag rest) outers = leaves-keyed rest outers
