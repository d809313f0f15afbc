-- ===== src/Errors/Store.antt =====
-- The Go heap as far as the errors package shares it: the detail maps and context maps that several
-- errors can point to, and the backing arrays of the trace slices. An operation that panics, by a
-- write to a nil map, has no result.
pub mod Laws
pub mod Tables
use garlic.Common.{
  ℕ, zero, suc, ◌+◌, ◌≡◌, ap, String, Bool, Option, none, some, List, [], ◌∷◌, ◌++◌, length,
  get_elem?, set, take, ltb, insert, if◌then◌else◌,
}

-- What the package and its callers put into a `map[string]any`.
pub data Value : Type 0 where
  nil : Value
  text : String → Value
  num : ℕ → Value
  flag : Bool → Value
  texts : List (String × String) → Value  -- a `map[string]string`

abbrev pub Table : Type 0
Table = List (String × Value)

-- A context map: for each calling function the fields that it recorded.
abbrev pub ContextTable : Type 0
ContextTable = List (String × Table)

-- Maps and arrays are addressed by their position. An array's capacity is its length.
pub record Store : Type 0 where
  pub details : List Table
  pub contexts : List ContextTable
  pub arrays : List (List String)

abbrev pub fresh : Store
fresh = record { details = []; contexts = []; arrays = [] }

-- A non-nil `[]string`: a backing array and a length.
pub record Slice : Type 0 where
  pub array : ℕ
  pub len : ℕ

abbrev pub M {ℓ} : Type ℓ → Type ℓ
M A = Store → Option (A × Store)

abbrev pub pure {ℓ} : {A : Type ℓ} → A → M A
pure a s = some (a, s)

abbrev pub bind {ℓ κ} :
    {A : Type ℓ} {B : Type κ} → Option (A × Store) → (A → M B) → Option (B × Store)
bind none f = none
bind (some (a, s)) f = f a s

-- Where the first step has a result, the rest goes on from it.
pub bind-some {ℓ κ} :
    {A : Type ℓ} {B : Type κ} {r : Option (A × Store)} {a : A} {s : Store} (f : A → M B)
    → r ≡ some (a, s)
    → bind r f ≡ f a s
bind-some f e = ap (λ r. bind r f) e

infixl 5 ◌>>=◌ ◌>>◌
abbrev pub ◌>>=◌ {ℓ κ} : {A : Type ℓ} {B : Type κ} → M A → (A → M B) → M B
◌>>=◌ m f s = bind (m s) f

abbrev pub ◌>>◌ {ℓ} : {B : Type ℓ} → M (Unit {0}) → M B → M B
m >> k = m >>= λ _. k

-- `m[key] = value`: a write to a nil map panics.
unfoldable pub write_details : Option ℕ → String → Value → M (Unit {0})
write_details none key value s = none
write_details (some a) key value s = elim (get_elem? s.details a) [
  | none ↦ none
  | some m ↦ some (tt, record s { details = set s.details a (insert key value m) })
]

-- The loop of `details.Opt`.
unfoldable pub write_all : Option ℕ → Table → M (Unit {0})
write_all a [] = pure tt
write_all a ((key, value) ∷ fields) = do write_details a key value; write_all a fields

unfoldable pub write_context : Option ℕ → String → Table → M (Unit {0})
write_context none key fields s = none
write_context (some a) key fields s = elim (get_elem? s.contexts a) [
  | none ↦ none
  | some m ↦ some (tt, record s { contexts = set s.contexts a (insert key fields m) })
]

-- `map[string]any{}`
unfoldable pub new_details : M (Option ℕ)
new_details s = some (some (length s.details), record s { details = s.details ++ [] ∷ [] })

unfoldable pub new_context : M (Option ℕ)
new_context s = some (some (length s.contexts), record s { contexts = s.contexts ++ [] ∷ [] })

blanks : ℕ → List String
blanks zero = []
blanks (suc n) = "" ∷ blanks n

-- What a slice shows; a nil slice shows nothing.
unfoldable pub read_slice : Store → Option Slice → List String
read_slice s none = []
read_slice s (some x) = elim (get_elem? s.arrays x.array) [ none ↦ [] | some a ↦ take x.len a ]

-- `append(x, v)`: in place where the array has room, else in a new array. The capacity that the
-- runtime adds beyond the need is the parameter `spare`, at the new length.
module _ (spare : ℕ → ℕ) where
  grown : Store → List String → String → Option (Slice × Store)
  grown s shown v = some (
    record { array = length s.arrays; len = length shown + 1 },
    record s { arrays = s.arrays ++ (shown ++ v ∷ blanks (spare (length shown + 1))) ∷ [] },
  )

  unfoldable pub append : Option Slice → String → M Slice
  unfolding grown blanks
  append none v s = grown s [] v
  append (some x) v s = elim (get_elem? s.arrays x.array) [
    | none ↦ none
    | some a ↦
        if ltb x.len (length a)
        then some (
          record x { len = x.len + 1 },
          record s { arrays = set s.arrays x.array (set a x.len v) },
        )
        else grown s (take x.len a) v
  ]
