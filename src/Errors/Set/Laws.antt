-- ===== src/Errors/Set/Laws.antt =====
-- Which field a set keeps of those with one key, and how much a redacted text shows.
use garlic.Common.{
  ℕ, ◌*◌, ◌/◌, ◌≤◌, String, ◌≡◌, refl, ◌∙◌, ap, inl, inr, ◌⊎◌, Option, none, some, List, [], ◌∷◌,
  arith, str_eq, eq_iff, if◌then◌else◌, Bool-cases, ltb,
}
use garlic.Errors.Set.{Field, merged, insert_field, extend, visible_chars}

-- The first field with a key.
abbrev pub find : String → List Field → Option Field
find key [] = none
find key (f ∷ rest) = if str_eq f.key key then some f else find key rest

abbrev or_else : Option Field → Option Field → Option Field
or_else none o = o
or_else (some f) o = some f

find-insert_field :
    (key : String) (e : Field) (entries : List Field)
    → find key (insert_field e entries) ≡ or_else (find key entries) (find key (e ∷ []))
unfolding insert_field merged
find-insert_field key e [] = refl
find-insert_field key e (f ∷ rest) =
    ground
      (arith, find-insert_field key e rest, eq_iff f.key e.key, eq_iff f.key key, eq_iff e.key key)

or_else-none : (o : Option Field) → o ≡ or_else o none
or_else-none none = refl
or_else-none (some f) = refl

or_else_assoc : (a b c : Option Field) → or_else (or_else a b) c ≡ or_else a (or_else b c)
or_else_assoc none b c = refl
or_else_assoc (some f) b c = refl

find-cons :
    (key : String) (e : Field) (es : List Field)
    → or_else (find key (e ∷ [])) (find key es) ≡ find key (e ∷ es)
find-cons key e es = ground arith

find-extend :
    (key : String) (es entries : List Field)
    → find key (extend es entries) ≡ or_else (find key entries) (find key es)
unfolding extend
find-extend key [] entries = or_else-none (find key entries)
find-extend key (e ∷ es) entries =
    find-extend key es (insert_field e entries)
    ∙ ap (λ o. or_else o (find key es)) (find-insert_field key e entries)
    ∙ or_else_assoc (find key entries) (find key (e ∷ [])) (find key es)
    ∙ ap (or_else (find key entries)) (find-cons key e es)

-- What a redacted text shows at both ends together is a third of it at most, or one byte at each end.
pub visible_chars_lem : (n : ℕ) → (3 * (2 * visible_chars n) ≤ n) ⊎ (visible_chars n ≡ 1)
unfolding visible_chars
visible_chars_lem n = elim (Bool-cases (ltb (n / (3 * 2)) 1)) [
  | inl short ↦ inr (ground arith)
  | inr long ↦ inl (rw long (omega arith))
]
