-- ===== src/Flatten/Loop.antt =====
-- The loop of `flattenStruct` of utils/flatten.go, for the key that it builds for each field.
use garlic.Common.{
  or_else, or_else_assoc, or_else-none, last_with, last_with-append, merge, lookup-merge, ℕ, ◌≡◌,
  refl, ◌∙◌, ap, sym, String, Bool, true, false, ◌||◌, not, ◌&&◌, Option, none, some, List, [], ◌∷◌,
  ◌++◌, if◌then◌else◌, str_eq, insert, lookup, lookup-insert, inl, inr, Bool-cases, arith,
}
use garlic.Flatten.{
  Fields, end, plain, nested, nil_pointer, hidden, Table, join, next_parents, flatten_from,
}

-- The values with their paths, in the order of the fields.
unfoldable pub leaves : List String → Fields → Table
leaves parents end = []
leaves parents (plain tag value rest) =
    let others = leaves parents rest in
    if str_eq tag "" then others else (join (parents ++ tag ∷ []), value) ∷ others
leaves parents (nil_pointer tag rest) = leaves parents rest
leaves parents (hidden tag rest) = leaves parents rest
leaves parents (nested tag fields rest) =
    let inner = leaves (next_parents tag parents) fields in
    let others = leaves parents rest in if str_eq tag "" then others else inner ++ others

-- A nil pointer or a field that is not exported under a tag, in a struct whose field has a tag.
unfoldable pub is_blocked : Fields → Bool
is_blocked end = false
is_blocked (plain tag value rest) = is_blocked rest
is_blocked (nested tag fields rest) = (not (str_eq tag "") && is_blocked fields) || is_blocked rest
is_blocked (nil_pointer tag rest) = not (str_eq tag "") || is_blocked rest
is_blocked (hidden tag rest) = not (str_eq tag "") || is_blocked rest

-- The table has the last value of each path, and else what it had.
unfoldable pub Holds : List String → Fields → Table → Option Table → Type 0
Holds parents fields result made =
    (table : Table) × (made ≡ some table)
    × ((key : String)
        → lookup key table ≡ or_else (last_with key (leaves parents fields)) (lookup key result))

pub flatten_from-Holds :
    (fields : Fields) (parents : List String) (result : Table)
    → is_blocked fields ≡ false
    → Holds parents fields result (flatten_from parents fields result)
unfolding Holds flatten_from leaves is_blocked last_with lookup
flatten_from-Holds end parents result whole = (result, refl, λ key. refl)
flatten_from-Holds (plain tag value rest) parents result whole = elim (Bool-cases (str_eq tag "")) [
  | inl untagged ↦ rw untagged (flatten_from-Holds rest parents result whole)
  | inr tagged ↦
      let path = join (parents ++ tag ∷ []) in
      let (table, made, found) = flatten_from-Holds rest parents (insert path value result) whole in
      rw tagged (
        table,
        made,
        λ key.
            found key
            ∙ ap (or_else (last_with key (leaves parents rest))) (
                lookup-insert path key value result
                ∙ or_else-if (str_eq path key) value (lookup key result))
            ∙ sym (
                or_else_assoc (last_with key (leaves parents rest))
                  (if str_eq path key then some value else none) (lookup key result)),
      )
]
  where
    or_else-if :
        (b : Bool) (value : ℕ) (o : Option ℕ)
        → (if b then some value else o) ≡ or_else (if b then some value else none) o
    or_else-if true value o = refl
    or_else-if false value o = refl
flatten_from-Holds (nested tag fields rest) parents result whole =
    elim (Bool-cases (str_eq tag "")) [
      | inl untagged ↦
          rw (untagged, flatten_from, leaves)
            (flatten_from-Holds rest parents result (ground (arith, whole, untagged)))
      | inr tagged ↦
          let inner_parents = next_parents tag parents in
          let inner = leaves inner_parents fields in
          let (entries, inner_made, inner_found) =
            flatten_from-Holds fields inner_parents [] (ground (arith, whole, tagged)) in
          let (table, made, found) =
            flatten_from-Holds rest parents (merge entries result)
              (ground (arith, whole, tagged)) in
          rw (tagged, flatten_from, leaves, inner_made)
            (
              table,
              made,
              λ key.
                  found key
                  ∙ ap (or_else (last_with key (leaves parents rest))) (
                      lookup-merge key entries result
                      ∙ ap (λ o. or_else o (lookup key result))
                          (inner_found key ∙ sym (or_else-none (last_with key inner))))
                  ∙ sym (
                      or_else_assoc (last_with key (leaves parents rest)) (last_with key inner)
                        (lookup key result))
                  ∙ ap (λ o. or_else o (lookup key result))
                      (sym (last_with-append key inner (leaves parents rest))),
            )
    ]
flatten_from-Holds (nil_pointer tag rest) parents result whole = elim (Bool-cases (str_eq tag "")) [
  | inl untagged ↦
      rw (untagged, flatten_from, leaves)
        (flatten_from-Holds rest parents result (ground (arith, whole, untagged)))
  | inr tagged ↦ ground (arith, whole, tagged)
]
flatten_from-Holds (hidden tag rest) parents result whole = elim (Bool-cases (str_eq tag "")) [
  | inl untagged ↦
      rw (untagged, flatten_from, leaves)
        (flatten_from-Holds rest parents result (ground (arith, whole, untagged)))
  | inr tagged ↦ ground (arith, whole, tagged)
]

pub flatten_from_panics :
    (fields : Fields) (parents : List String) (result : Table)
    → is_blocked fields ≡ true
    → flatten_from parents fields result ≡ none
unfolding flatten_from is_blocked
flatten_from_panics end parents result nil = ground (arith, nil)
flatten_from_panics (plain tag value rest) parents result nil =
    flatten_from_panics rest parents
      (if str_eq tag "" then result else insert (join (parents ++ tag ∷ [])) value result) nil
flatten_from_panics (nested tag fields rest) parents result nil =
    elim (Bool-cases (str_eq tag "")) [
      | inl untagged ↦
          rw (untagged, flatten_from)
            (flatten_from_panics rest parents result (ground (arith, nil, untagged)))
      | inr tagged ↦ elim (Bool-cases (is_blocked fields)) [
        | inl inside ↦
            rw
              (
                tagged,
                flatten_from,
                flatten_from_panics fields (next_parents tag parents) [] inside,
              )
              refl
        | inr whole ↦
            rw (tagged, flatten_from)
              (outer (flatten_from (next_parents tag parents) fields []) (λ entries.
                flatten_from_panics rest parents (merge entries result)
                  (ground (arith, nil, tagged, whole))))
      ]
    ]
  where
    outer :
        (made : Option Table)
        → ((entries : Table) → flatten_from parents rest (merge entries result) ≡ none)
        → Path
            (Option Table)
            (elim made [
              | none ↦ none
              | some entries ↦ flatten_from parents rest (merge entries result)
            ])
            none
    outer none panics = refl
    outer (some entries) panics = panics entries
flatten_from_panics (nil_pointer tag rest) parents result nil = elim (Bool-cases (str_eq tag "")) [
  | inl untagged ↦
      rw (untagged, flatten_from)
        (flatten_from_panics rest parents result (ground (arith, nil, untagged)))
  | inr tagged ↦ rw (tagged, flatten_from) refl
]
flatten_from_panics (hidden tag rest) parents result nil = elim (Bool-cases (str_eq tag "")) [
  | inl untagged ↦
      rw (untagged, flatten_from)
        (flatten_from_panics rest parents result (ground (arith, nil, untagged)))
  | inr tagged ↦ rw (tagged, flatten_from) refl
]
