-- ===== src/Flatten.antt =====
-- utils/flatten.go: `FlattenStruct`, over what reflection shows of a struct. A panic is `none`.
pub mod Laws
pub mod Loop
pub mod Keys
mod Tests
use Prim.Native.String.{◌++◌ as str_append}
use text.Mathlib.Text.{starts_with}
use garlic.Common.{
  ℕ, String, Bool, true, false, Option, none, some, List, [], ◌∷◌, ◌++◌, if◌then◌else◌, str_eq,
  insert, merge, ◌||◌,
}

-- The fields of a struct, each with its tag `mapstructure`. A field holds a value that is no struct, or a
-- struct; both may be behind a pointer, or there is a nil pointer instead. Or the field is not exported,
-- so that reflection does not hand out what it holds. A value is a number here.
pub data Fields : Type 0 where
  end : Fields
  plain : String → ℕ → Fields → Fields
  nested : String → Fields → Fields → Fields
  nil_pointer : String → Fields → Fields
  hidden : String → Fields → Fields

-- What `FlattenStruct` is given: nil or a value that is no struct, a nil pointer to a struct with these
-- fields, or a struct, itself or behind a pointer.
pub data Input : Type 0 where
  no_struct : Input
  nil_struct struct : Fields → Input

abbrev pub Table : Type 0
Table = List (String × ℕ)

abbrev pub flattening_separator : String
flattening_separator = "."

-- `strings.Join(keys, FLATTENING_SEPARATOR)`
unfoldable pub join : List String → String
join [] = ""
join (key ∷ []) = key
join (key ∷ other ∷ keys) = str_append key (str_append flattening_separator (join (other ∷ keys)))

unfoldable pub squash : String → Bool
squash tag = str_eq tag ",squash" || starts_with tag ","

abbrev pub next_parents : String → List String → List String
next_parents tag parents = if squash tag then parents else parents ++ tag ∷ []

-- The loop of `flattenStruct`, from what it has so far.
unfoldable pub flatten_from : List String → Fields → Table → Option Table
flatten_from parents end result = some result
flatten_from parents (plain tag value rest) result =
    flatten_from parents rest
      (if str_eq tag "" then result else insert (join (parents ++ tag ∷ [])) value result)
flatten_from parents (nested tag fields rest) result = elim (str_eq tag "") [
  | true ↦ flatten_from parents rest result
  | false ↦ elim (flatten_from (next_parents tag parents) fields []) [
    | none ↦ none
    | some entries ↦ flatten_from parents rest (merge entries result)
  ]
]
flatten_from parents (nil_pointer tag rest) result = elim (str_eq tag "") [
  | true ↦ flatten_from parents rest result
  | false ↦ none
]
flatten_from parents (hidden tag rest) result = elim (str_eq tag "") [
  | true ↦ flatten_from parents rest result
  | false ↦ none
]

-- Without a value, the first field with a tag makes `Field` panic.
unfoldable pub without_value : Fields → Option Table
without_value end = some []
without_value (plain tag value rest) =
    let left = without_value rest in if str_eq tag "" then left else none
without_value (nested tag fields rest) =
    let left = without_value rest in if str_eq tag "" then left else none
without_value (nil_pointer tag rest) =
    let left = without_value rest in if str_eq tag "" then left else none
without_value (hidden tag rest) =
    let left = without_value rest in if str_eq tag "" then left else none

unfoldable pub flatten_struct : Input → Option Table
unfolding flatten_from
flatten_struct no_struct = none
flatten_struct (nil_struct fields) = without_value fields
flatten_struct (struct fields) = flatten_from [] fields []
