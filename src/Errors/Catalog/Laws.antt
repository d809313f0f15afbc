-- ===== src/Errors/Catalog/Laws.antt =====
-- Program start registers the whole catalog of kinds, whatever order the map iteration takes.
use mathlib.Core.List.{Permᴰ}
use mathlib.Core.List.Permᴰ
use garlic.Common.{◌≡◌, refl, List, ◌++◌, All, lookup, insert}
use garlic.Errors.Kind.{Kind}
use garlic.Errors.Registry.{ok, empty, register}
use garlic.Errors.Registry.Laws.{Finds, register-Finds}
use garlic.Errors.Registry.Order.{register-perm}
use garlic.Errors.Catalog.{startup, primitive_kinds, secondary_kinds, tertiary_kinds, package_kinds}

startup_in_order : (startup secondary_kinds).0 ≡ ok tt
unfolding startup secondary_kinds register tertiary_kinds package_kinds lookup insert
startup_in_order = refl

abbrev pub catalog : List Kind → List Kind
catalog secondary = primitive_kinds ++ (secondary ++ (tertiary_kinds ++ package_kinds))

-- In whatever order the secondary kinds come, program start registers every kind without a panic,
-- and afterwards each of them is found by its code and by its name.
pub startup-Finds :
    (secondary : List Kind)
    → Permᴰ secondary_kinds secondary
    → ((startup secondary).0 ≡ ok tt) × All (Finds (startup secondary).1) (catalog secondary)
unfolding startup
startup-Finds secondary p =
    let rest = tertiary_kinds ++ package_kinds in
    let reordered : Permᴰ (catalog secondary_kinds) (catalog secondary) =
      Permᴰ.append_left primitive_kinds (Permᴰ.append_right rest p) in
    let returns = register-perm empty reordered startup_in_order in
    (returns, register-Finds (catalog secondary) empty returns)
