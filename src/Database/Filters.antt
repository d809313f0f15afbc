-- ===== src/Database/Filters.antt =====
-- database/filter.go: the filters of a struct. Reflection shows a value as a nil pointer, a struct behind
-- no or one pointer, or something else. The order in which a map gives its values is an argument.
use Prim.Native.String.{◌++◌ as str_append}
use garlic.Common.{ℕ, String, true, false, List, [], ◌∷◌, map, insert, str_eq, decimal}
use garlic.Errors.Store.{Value}

pub record Filter : Type 0 where
  pub key : String
  pub value : Value

unfoldable pub statement : Filter → ℕ → String
statement f param_index = str_append f.key (str_append "=$" (decimal param_index))

-- A field of a struct: no pointer, a nil pointer, or a pointer to a value.
pub data FieldValue : Type 0 where
  direct nil_pointer : FieldValue
  pointer : Value → FieldValue

pub record StructField : Type 0 where
  pub name : String
  pub tag : String
  pub value : FieldValue

pub data Input : Type 0 where
  absent other : Input
  struct : List StructField → Input

pub data Extracted {ℓ} (A : Type ℓ) : Type ℓ where
  ok : A → Extracted A
  panic : String → Extracted A

-- The loop of `ExtractFilters`, with the map so far.
unfoldable pub collect :
    List StructField → List (String × Filter) → Extracted (List (String × Filter))
collect [] unique_filters = ok unique_filters
collect (field ∷ fields) unique_filters = elim (str_eq field.tag "") [
  | true ↦ collect fields unique_filters
  | false ↦ elim field.value [
    | direct ↦ panic (
        str_append "field \""
          (str_append field.name "\" is tagged with filter but is not a pointer"))
    | nil_pointer ↦ collect fields unique_filters
    | pointer value ↦
        collect fields (insert field.tag (record { key = field.tag; value = value }) unique_filters)
  ]
]

unfoldable pub values :
    (List Filter → List Filter) → Extracted (List (String × Filter)) → Extracted (List Filter)
values order (panic message) = panic message
values order (ok unique_filters) =
    ok (order (map (λ (entry : String × Filter). entry.1) unique_filters))

unfoldable pub extract_filters : (List Filter → List Filter) → Input → Extracted (List Filter)
extract_filters order absent = ok []
extract_filters order other = panic "input must be a struct or a pointer to a struct"
extract_filters order (struct fields) = values order (collect fields [])
