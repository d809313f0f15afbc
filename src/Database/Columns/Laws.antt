-- ===== src/Database/Columns/Laws.antt =====
-- When a slice of texts is read back from the column that `Value` of database/utils/slices.go makes of it.
use garlic.Common.{
  ℕ, ◌≡◌, ◌≢◌, ◌↔◌, refl, ◌∙◌, ap, sym, subst, Bool, false, ◌||◌, ◌==◌, some, List, [], ◌∷◌, ◌++◌,
  inl, inr, ◌⊎◌, All, Bool-cases, arith,
}
use garlic.Common.{==_iff}
use mathlib.Core.Path.{ap₂}
use garlic.Database.Columns.Trim.{starts_with_brace, ends_with_brace, trim_iff, trim-closed}
use garlic.Database.Columns.{
  Text, trim_left, trim_right, trim, pieces, split, join, elements, scan, column,
}

abbrev pub has_comma : Text → Bool
has_comma [] = false
has_comma (c ∷ s) = (c == b',') || has_comma s

join-split : (s : Text) → join (split s) ≡ s
unfolding join split pieces
join-split [] = refl
join-split (c ∷ s) = elim (Bool-cases (c == b',')) [
  | inl comma ↦ rw comma (ap₂ ◌∷◌ (sym ((==_iff c b',').0 comma)) (join-split s))
  | inr other ↦ rw other (join-grown c (pieces s).0 (pieces s).1 ∙ ap (λ t. c ∷ t) (join-split s))
]
  where
    join-grown :
        (c : ℕ) (word : Text) (words : List Text)
        → join ((c ∷ word) ∷ words) ≡ c ∷ join (word ∷ words)
    join-grown c word [] = refl
    join-grown c word (next ∷ words) = refl

-- The pieces of a text have no comma.
split-pieces :
    (s : Text)
    → (has_comma (pieces s).0 ≡ false) × All (λ word. has_comma word ≡ false) (pieces s).1
unfolding pieces
split-pieces [] = (refl, tt)
split-pieces (c ∷ s) = elim (Bool-cases (c == b',')) [
  | inl comma ↦ rw comma (refl, split-pieces s)
  | inr other ↦ rw other (rw other (split-pieces s).0, (split-pieces s).1)
]

pieces-word : (word : Text) → has_comma word ≡ false → pieces word ≡ (word, [])
unfolding pieces
pieces-word [] h = refl
pieces-word (c ∷ word) h =
    let other : (c == b',') ≡ false = ground (arith, h) in
    let inner : has_comma word ≡ false = ground (arith, h) in
    rw (other, pieces-word word inner) refl

pieces-append :
    (word rest : Text)
    → has_comma word ≡ false
    → pieces (word ++ b',' ∷ rest) ≡ (word, (pieces rest).0 ∷ (pieces rest).1)
unfolding pieces
pieces-append [] rest h = refl
pieces-append (c ∷ word) rest h =
    let other : (c == b',') ≡ false = ground (arith, h) in
    let inner : has_comma word ≡ false = ground (arith, h) in
    rw (other, pieces-append word rest inner) refl

pieces-join :
    (word : Text) (words : List Text)
    → has_comma word ≡ false
    → All (λ w. has_comma w ≡ false) words
    → pieces (join (word ∷ words)) ≡ (word, words)
unfolding join
pieces-join word [] h hs = pieces-word word h
pieces-join word (next ∷ words) h (hn, hs) =
    pieces-append word (join (next ∷ words)) h
    ∙ ap (λ (p : Text × List Text). (word, p.0 ∷ p.1)) (pieces-join next words hn hs)

elements-cons :
    (t word : Text) (words : List Text)
    → elements t ≡ word ∷ words
    → (pieces t ≡ (word, words)) × (t ≢ [])
unfolding split
elements-cons [] word words e = absurd (cc e)
elements-cons (c ∷ t) word words e = (ap₂ (λ w ws. (w, ws)) (cc e) (cc e), λ empty. cc)

-- No element has a comma, and what stands between the braces is not empty and has no brace at its ends.
pub Survives : List Text → Type 0
Survives words =
    (words ≡ [])
    ⊎ (All (λ word. has_comma word ≡ false) words
        × (starts_with_brace (join words) ≡ false)
        × (ends_with_brace (join words) ≡ false)
        × (join words ≢ []))

kept_iff : (words : List Text) → (elements (trim (join words)) ≡ words) ↔ Survives words
unfolding Survives split join trim trim_left trim_right
kept_iff [] = (λ _. inl refl, λ _. refl)
kept_iff (word ∷ words) = (
  λ e.
      let text = join (word ∷ words) in
      let (cut, there) = elements-cons (trim text) word words e in
      let whole : trim text ≡ text =
        sym (join-split (trim text)) ∙ ap (λ (p : Text × List Text). join (p.0 ∷ p.1)) cut in
      let (first_plain, others_plain) = split-pieces (trim text) in
      let (starts, ends) = (trim_iff text).0 whole in
      inr (
        (
          subst (λ (p : Text × List Text). has_comma p.0 ≡ false) cut first_plain,
          subst (λ (p : Text × List Text). All (λ w. has_comma w ≡ false) p.1) cut others_plain,
        ),
        starts,
        ends,
        λ empty. there (whole ∙ empty),
      ),
  λ survives. elim survives [
    | inl none_there ↦ absurd (cc none_there)
    | inr ((h, hs), starts, ends, there) ↦
        let text = join (word ∷ words) in
        ap elements ((trim_iff text).1 (starts, ends))
        ∙ split-there text there
        ∙ ap (λ (p : Text × List Text). p.0 ∷ p.1) (pieces-join word words h hs)
  ],
)
  where
    split-there : (t : Text) → t ≢ [] → elements t ≡ split t
    split-there [] there = absurd (there refl)
    split-there (c ∷ t) there = refl

-- A slice is read back from the column that `Value` makes of it exactly where it is empty, or no element
-- has a comma and the text between the braces is not empty and has no brace at its ends.
pub scan-column_iff :
    (words : List Text) → (scan (column (some words)) ≡ inr (some words)) ↔ Survives words
unfolding scan column trim_left
scan-column_iff words =
    let closed : elements (trim (join words ++ b'}' ∷ [])) ≡ elements (trim (join words)) =
      ap elements (trim-closed (join words)) in
    (
      λ e. (kept_iff words).0 (sym closed ∙ cc e),
      λ survives. ap (λ t. inr (some t)) (closed ∙ (kept_iff words).1 survives),
    )
