-- ===== src/Errors/Store/Tables.antt =====
-- The writes to the detail and context maps: they succeed on an allocated map, and touch no trace.
use garlic.Common.{
  ℕ, ◌≤◌, ◌<◌, String, ◌≡◌, refl, Option, none, some, List, [], ◌∷◌, ◌++◌, arith, length, get_elem?,
  set, length-append, length-set, insert, zero, suc, ◌∙◌,
}
use garlic.Errors.Store.{
  Store, Value, Table, Slice, read_slice, write_details, write_all, write_context, new_details,
  new_context,
}
use garlic.Errors.Store.Laws.{Holds}

-- A map reference is nil or allocated.
abbrev pub Below : ℕ → Option ℕ → Type 0
Below n none = Unit {0}
Below n (some a) = a < n

pub Below-le : (m n : ℕ) (a : Option ℕ) → Below m a → m ≤ n → Below n a
Below-le m n none h le = tt
Below-le m n (some a) h le = omega arith

-- From `s` to `s'` no trace changed and no map went away.
pub record TablesOnly (s s' : Store) : Type 0 where
  pub arrays : s'.arrays ≡ s.arrays
  pub details : length s.details ≤ length s'.details
  pub contexts : length s.contexts ≤ length s'.contexts

TablesOnly-refl : (s : Store) → TablesOnly s s
TablesOnly-refl s = record { arrays = refl; details = omega arith; contexts = omega arith }

pub TablesOnly-trans : {s t u : Store} → TablesOnly s t → TablesOnly t u → TablesOnly s u
TablesOnly-trans f g = record {
  arrays = g.arrays ∙ f.arrays;
  details = omega (arith, f.details, g.details);
  contexts = omega (arith, f.contexts, g.contexts);
}

pub read_slice_same :
    {s s' : Store} (z : Option Slice) → TablesOnly s s' → read_slice s' z ≡ read_slice s z
unfolding read_slice
read_slice_same none t = refl
read_slice_same (some x) t = rw t.arrays

pub Holds-same : {s s' : Store} (z : Option Slice) → TablesOnly s s' → Holds s z → Holds s' z
Holds-same none t h = tt
Holds-same (some x) t (a, e, fits) = (a, rw t.arrays e, fits)

get_elem?-lt {ℓ} :
    {A : Type ℓ} (xs : List A) (i : ℕ) → i < length xs → (a : A) × (get_elem? xs i ≡ some a)
get_elem?-lt [] i h = absurd (omega arith)
get_elem?-lt (x ∷ xs) zero h = (x, refl)
get_elem?-lt (x ∷ xs) (suc i) h = get_elem?-lt xs i (omega arith)

pub write_details_lem :
    (s : Store) (a : ℕ) (key : String) (value : Value)
    → a < length s.details
    → (s' : Store) × (write_details (some a) key value s ≡ some (tt, s')) × TablesOnly s s'
unfolding write_details
write_details_lem s a key value h =
    let (m, e) = get_elem?-lt s.details a h in
    let s' : Store = record s { details = set s.details a (insert key value m) } in
    (
      s',
      rw (e, write_details),
      record {
        arrays = refl;
        details = omega (arith, length-set s.details a (insert key value m));
        contexts = omega arith;
      },
    )

pub write_all_lem :
    (s : Store) (a : ℕ) (fields : Table)
    → a < length s.details
    → (s' : Store) × (write_all (some a) fields s ≡ some (tt, s')) × TablesOnly s s'
unfolding write_all
write_all_lem s a [] h = (s, refl, TablesOnly-refl s)
write_all_lem s a ((key, value) ∷ fields) h =
    let (s₁, e, t) = write_details_lem s a key value h in
    let (s₂, f, u) = write_all_lem s₁ a fields (omega (arith, t.details)) in
    (s₂, rw e f, TablesOnly-trans t u)

pub write_context_lem :
    (s : Store) (a : ℕ) (key : String) (fields : Table)
    → a < length s.contexts
    → (s' : Store) × (write_context (some a) key fields s ≡ some (tt, s')) × TablesOnly s s'
unfolding write_context
write_context_lem s a key fields h =
    let (m, e) = get_elem?-lt s.contexts a h in
    let s' : Store = record s { contexts = set s.contexts a (insert key fields m) } in
    (
      s',
      rw (e, write_context),
      record {
        arrays = refl;
        details = omega arith;
        contexts = omega (arith, length-set s.contexts a (insert key fields m));
      },
    )

pub new_details_lem :
    (s : Store)
    → (a : ℕ) × (s' : Store) × (new_details s ≡ some (some a, s'))
      × (a < length s'.details)
      × TablesOnly s s'
unfolding new_details
new_details_lem s =
    let grown = length-append s.details ([] ∷ []) in
    (
      length s.details,
      record s { details = s.details ++ [] ∷ [] },
      refl,
      omega (arith, grown),
      record { arrays = refl; details = omega (arith, grown); contexts = omega arith },
    )

pub new_context_lem :
    (s : Store)
    → (a : ℕ) × (s' : Store) × (new_context s ≡ some (some a, s'))
      × (a < length s'.contexts)
      × TablesOnly s s'
unfolding new_context
new_context_lem s =
    let grown = length-append s.contexts ([] ∷ []) in
    (
      length s.contexts,
      record s { contexts = s.contexts ++ [] ∷ [] },
      refl,
      omega (arith, grown),
      record { arrays = refl; details = omega arith; contexts = omega (arith, grown) },
    )
