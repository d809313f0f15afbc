-- ===== src/Flatten/Laws.antt =====
-- `FlattenStruct` of utils/flatten.go has every tagged value under its path.
use garlic.Common.{
  or_else-none, last_with, ◌≡◌, refl, ◌∙◌, ap, sym, String, Bool, true, false, ◌||◌, not, Option,
  none, some, [], if◌then◌else◌, str_eq, lookup, inl, inr, Bool-cases, ◌⊎◌, arith,
}
use garlic.Flatten.{
  Input, no_struct, nil_struct, struct, Fields, end, plain, nested, nil_pointer, hidden,
  without_value, Table, flatten_struct,
}
use garlic.Flatten.Loop.{leaves, is_blocked, Holds, flatten_from-Holds, flatten_from_panics}
use garlic.Flatten.Keys.{keyed, visible, leaves-keyed}

-- Some field has a tag.
abbrev pub has_tag : Fields → Bool
has_tag end = false
has_tag (plain tag value rest) = not (str_eq tag "") || has_tag rest
has_tag (nested tag fields rest) = not (str_eq tag "") || has_tag rest
has_tag (nil_pointer tag rest) = not (str_eq tag "") || has_tag rest
has_tag (hidden tag rest) = not (str_eq tag "") || has_tag rest

without_value_lem :
    (fields : Fields) → without_value fields ≡ (if has_tag fields then none else some [])
unfolding without_value
without_value_lem end = refl
without_value_lem (plain tag value rest) = ground (arith, without_value_lem rest)
without_value_lem (nested tag fields rest) = ground (arith, without_value_lem rest)
without_value_lem (nil_pointer tag rest) = ground (arith, without_value_lem rest)
without_value_lem (hidden tag rest) = ground (arith, without_value_lem rest)

-- The table has the last value of each key of the struct, and nothing else.
pub IsFlat : Fields → Table → Type 0
IsFlat fields table = (key : String) → lookup key table ≡ last_with key (keyed [] fields)

-- How `FlattenStruct` ends.
pub Flattens : Input → Option Table → Type 0
Flattens no_struct made = made ≡ none
Flattens (nil_struct fields) made = made ≡ (if has_tag fields then none else some [])
Flattens (struct fields) made =
    ((is_blocked fields ≡ true) × (made ≡ none))
    ⊎ ((is_blocked fields ≡ false) × ((table : Table) × (made ≡ some table) × IsFlat fields table))

-- FlattenStruct panics on what is no struct, on a nil pointer to a struct with a tagged field, and where a
-- nil pointer or a field that is not exported stands under a tag. Else it returns a table that has for each
-- key the last value with that key, and no other key; a key is the tag of the field behind the tags of
-- the structs around it, each with a dot, but for those that start with a comma.
pub flatten_struct_lem : (input : Input) → Flattens input (flatten_struct input)
unfolding flatten_struct Holds IsFlat Flattens lookup visible
flatten_struct_lem no_struct = refl
flatten_struct_lem (nil_struct fields) = without_value_lem fields
flatten_struct_lem (struct fields) = elim (Bool-cases (is_blocked fields)) [
  | inl blocked ↦ inl (blocked, flatten_from_panics fields [] [] blocked)
  | inr whole ↦
      let (table, made, found) = flatten_from-Holds fields [] [] whole in
      inr (
        whole,
        (
          table,
          made,
          λ key.
              found key
              ∙ sym (or_else-none (last_with key (leaves [] fields)))
              ∙ ap (last_with key) (leaves-keyed fields []),
        ),
      )
]
