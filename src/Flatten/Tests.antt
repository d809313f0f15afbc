-- ===== src/Flatten/Tests.antt =====
-- Structs flattened by `FlattenStruct` of utils/flatten.go.
use garlic.Common.{◌≡◌, refl, none, some, [], ◌∷◌, insert, merge}
use garlic.Flatten.{
  struct, hidden, Fields, end, plain, nested, nil_pointer, flatten_struct, join, squash,
}
use garlic.Flatten.Laws.{Flattens, flatten_struct_lem}

abbrev settings : Fields
settings = plain "name" 1 (
    plain "" 2 (
      nested "db" (plain "port" 3 (nested ",squash" (plain "host" 4 end) end))
        (nested "" (nil_pointer "lost" end) end)))

settings_table :
    flatten_struct (struct settings) ≡ some (("name", 1) ∷ ("db.host", 4) ∷ ("db.port", 3) ∷ [])
unfolding flatten_struct merge insert join squash
settings_table = refl

lost : flatten_struct (struct (nil_pointer "owner" end)) ≡ none
unfolding flatten_struct merge insert join squash
lost = refl

embedded : flatten_struct (struct (hidden ",squash" end)) ≡ none
unfolding flatten_struct
embedded = refl

flatten_struct_example : Flattens (struct settings) (flatten_struct (struct settings))
flatten_struct_example = flatten_struct_lem (struct settings)
