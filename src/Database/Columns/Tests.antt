-- ===== src/Database/Columns/Tests.antt =====
-- Columns of slices of texts, and the bindings of a patch, of database/utils.
use garlic.Common.{◌≡◌, ◌↔◌, refl, some, List, [], ◌∷◌, inr}
use garlic.Errors.Store.{Value}
use garlic.Database.Filters.{nil_pointer, pointer, direct, struct, StructField}
use garlic.Database.Columns.{
  Text, scan, column, trim_left, trim_right, split, pieces, join, named_resource_bindings,
  joined_patch_resource_bindings, resource_iter, resource_fields, join_bindings,
}
use garlic.Database.Columns.Laws.{Survives, scan-column_iff}

abbrev two_words : List Text
two_words = (b'a' ∷ b'b' ∷ []) ∷ (b'c' ∷ []) ∷ []

two_words-back : scan (column (some two_words)) ≡ inr (some two_words)
unfolding scan column trim_left trim_right split pieces join
two_words-back = refl

-- One element with a comma comes back as two.
comma-splits :
    scan (column (some ((b'a' ∷ b',' ∷ b'b' ∷ []) ∷ [])))
    ≡ inr (some ((b'a' ∷ []) ∷ (b'b' ∷ []) ∷ []))
unfolding scan column trim_left trim_right split pieces join
comma-splits = refl

-- One empty element comes back as none.
empty-lost : scan (column (some ([] ∷ []))) ≡ inr (some [])
unfolding scan column trim_left trim_right split pieces join
empty-lost = refl

scan-column_example : (scan (column (some two_words)) ≡ inr (some two_words)) ↔ Survives two_words
scan-column_example = scan-column_iff two_words

abbrev patch : List StructField
patch =
    (record { name = "Name"; tag = "name"; value = pointer (Value.text "Ann") })
    ∷ (record { name = "Born"; tag = "born"; value = nil_pointer })
    ∷ (record { name = "Size"; tag = "size"; value = direct })
    ∷ (record { name = "Mail"; tag = "mail"; value = pointer (Value.text "a@b") })
    ∷ []

patch-bindings : joined_patch_resource_bindings (struct patch) ≡ some "name = :name, mail = :mail"
unfolding joined_patch_resource_bindings named_resource_bindings resource_iter resource_fields
    join_bindings
patch-bindings = refl
