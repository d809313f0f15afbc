-- ===== src/Errors/Registry.antt =====
-- errors/kind.go: the global registry of kinds, by code and by name. The two maps are state that is
-- passed; a panic keeps what was registered before it.
pub mod Laws
pub mod Order
use garlic.Common.{
  String, Bool, true, false, Option, none, some, List, [], ◌∷◌, lookup, insert, if◌then◌else◌,
}
use garlic.Errors.Kind.{Kind, label}

pub record Registry : Type 0 where
  pub codes : List (String × Kind)
  pub names : List (String × Kind)

abbrev pub empty : Registry
empty = record { codes = []; names = [] }

pub data Panic : Type 0 where
  duplicate_code duplicate_name unknown_code unknown_name : Panic

-- What a call returns, or the value that it panics with.
pub data Result {ℓ} (A : Type ℓ) : Type ℓ where
  ok : A → Result A
  panic : Panic → Result A

abbrev pub is_some {ℓ} : {A : Type ℓ} → Option A → Bool
is_some none = false
is_some (some _) = true

add : Kind → Registry → Registry
add k r = record {
  codes = insert (label k).code k r.codes;
  names = insert (label k).name k r.names;
}

-- The loop of `Register`.
unfoldable pub register : List Kind → Registry → Result (Unit {0}) × Registry
unfolding add
register [] r = (ok tt, r)
register (k ∷ ks) r =
    let rest = register ks (add k r) in
    if is_some (lookup (label k).code r.codes)
    then (panic duplicate_code, r)
    else if is_some (lookup (label k).name r.names)
    then (panic duplicate_name, r)
    else rest

unfoldable pub lookup_by_code : String → Registry → Option Kind
lookup_by_code code r = lookup code r.codes

unfoldable pub get_by_code : String → Registry → Result Kind
get_by_code code r = elim (lookup_by_code code r) [
  | none ↦ panic unknown_code
  | some kind ↦ ok kind
]

unfoldable pub get : String → Registry → Result Kind
get name r = elim (lookup name r.names) [ none ↦ panic unknown_name | some kind ↦ ok kind ]
