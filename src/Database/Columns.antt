-- ===== src/Database/Columns.antt =====
-- database/utils: the columns of slices of texts in slices.go, and the bindings of a patch in patch.go. A text of
-- a column is its bytes.
mod Trim
pub mod Laws
mod Tests
use Prim.Native.String.{◌++◌ as str_append}
use garlic.Common.{
  ℕ, String, Bool, true, false, ◌&&◌, ◌||◌, ◌==◌, if◌then◌else◌, Option, none, some, List, [], ◌∷◌,
  ◌++◌, map, ◌⊎◌, inl, inr, str_eq,
}
use garlic.Errors.Store.{Value}
use garlic.Database.Filters.{
  FieldValue, direct, nil_pointer, pointer, StructField, Input, absent, other, struct,
}

abbrev pub Text : Type 0
Text = List ℕ

-- A value of database/sql, a value of a type that is neither with the type's name.
pub data Column : Type 0 where
  null : Column
  string : Text → Column
  bytes : Text → Column
  another : String → Column

-- A nil slice is nothing.
abbrev pub StringSlice : Type 0
StringSlice = Option (List Text)

abbrev pub is_brace : ℕ → Bool
is_brace c = (c == b'{') || (c == b'}')

-- `strings.Trim(s, "{}")`, from the left and from the right.
unfoldable pub trim_left : Text → Text
trim_left [] = []
trim_left (c ∷ s) = let rest = trim_left s in if is_brace c then rest else c ∷ s

abbrev pub all_braces : Text → Bool
all_braces [] = true
all_braces (c ∷ s) = is_brace c && all_braces s

unfoldable pub trim_right : Text → Text
trim_right [] = []
trim_right (c ∷ s) = let rest = trim_right s in if is_brace c && all_braces s then [] else c ∷ rest

unfoldable pub trim : Text → Text
trim s = trim_right (trim_left s)

-- `strings.Split(s, ",")`, its first piece and the others.
unfoldable pub pieces : Text → Text × List Text
pieces [] = ([], [])
pieces (c ∷ s) =
    let rest = pieces s in if c == b',' then ([], rest.0 ∷ rest.1) else (c ∷ rest.0, rest.1)

unfoldable pub split : Text → List Text
split s = (pieces s).0 ∷ (pieces s).1

-- `strings.Join(ss, ",")`
unfoldable pub join : List Text → Text
join [] = []
join (word ∷ []) = word
join (word ∷ next ∷ words) = word ++ b',' ∷ join (next ∷ words)

abbrev pub elements : Text → List Text
elements [] = []
elements (c ∷ s) = split (c ∷ s)

-- `Scan`: the error, or what the slice is afterwards.
unfoldable pub scan : Column → String ⊎ StringSlice
unfolding trim
scan null = inr none
scan (string s) = inr (some (elements (trim s)))
scan (bytes s) = inr (some (elements (trim s)))
scan (another type_name) =
    inl (str_append "cannot scan " (str_append type_name " into StringSlice"))

-- `Value`
unfoldable pub column : StringSlice → Column
column none = null
column (some words) = string (b'{' ∷ (join words ++ b'}' ∷ []))

abbrev pub yielded : String → FieldValue → List (String × Value) → List (String × Value)
yielded tag direct rest = rest
yielded tag nil_pointer rest = rest
yielded tag (pointer value) rest = (tag, value) ∷ rest

-- What `ResourceIter` yields for the fields of a struct.
unfoldable pub resource_fields : List StructField → List (String × Value)
resource_fields [] = []
resource_fields (field ∷ fields) =
    let rest = resource_fields fields in
    if str_eq field.tag "" then rest else yielded field.tag field.value rest

-- What is neither a struct nor a pointer to one makes the iteration panic.
unfoldable pub resource_iter : Input → Option (List (String × Value))
resource_iter absent = none
resource_iter other = none
resource_iter (struct fields) = some (resource_fields fields)

abbrev pub binding : String × Value → String
binding (k, value) = str_append k (str_append " = :" k)

unfoldable pub named_resource_bindings : Input → Option (List String)
named_resource_bindings resource = elim (resource_iter resource) [
  | none ↦ none
  | some yielded ↦ some (map binding yielded)
]

unfoldable pub join_bindings : List String → String
join_bindings [] = ""
join_bindings (text ∷ []) = text
join_bindings (text ∷ next ∷ texts) =
    str_append text (str_append ", " (join_bindings (next ∷ texts)))

unfoldable pub joined_patch_resource_bindings : Input → Option String
joined_patch_resource_bindings resource = elim (named_resource_bindings resource) [
  | none ↦ none
  | some texts ↦ some (join_bindings texts)
]
