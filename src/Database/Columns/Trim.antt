-- ===== src/Database/Columns/Trim.antt =====
-- Trimming of braces, as `Scan` of database/utils/slices.go does it.
use garlic.Common.{
  ℕ, ◌≤◌, ◌<◌, ◌≡◌, ◌↔◌, refl, ◌∙◌, ap, sym, Bool, true, false, ◌&&◌, [], ◌∷◌, ◌++◌, length, inl,
  inr, Bool-cases, arith,
}
use garlic.Database.Columns.{Text, is_brace, trim_left, all_braces, trim_right, trim}

abbrev pub starts_with_brace : Text → Bool
starts_with_brace [] = false
starts_with_brace (c ∷ s) = is_brace c

abbrev pub ends_with_brace : Text → Bool
ends_with_brace [] = false
ends_with_brace (c ∷ []) = is_brace c
ends_with_brace (c ∷ d ∷ s) = ends_with_brace (d ∷ s)

length-trim_left : (s : Text) → length (trim_left s) ≤ length s
unfolding trim_left
length-trim_left [] = omega arith
length-trim_left (c ∷ s) = ground (arith, length-trim_left s)

trim_left-bare : (s : Text) → starts_with_brace s ≡ false → trim_left s ≡ s
unfolding trim_left
trim_left-bare [] h = refl
trim_left-bare (c ∷ s) h = rw h refl

trim_left-starts : (s : Text) → starts_with_brace s ≡ true → length (trim_left s) < length s
unfolding trim_left
trim_left-starts [] h = ground (arith, h)
trim_left-starts (c ∷ s) h = rw h (omega (arith, length-trim_left s))

length-trim_right : (s : Text) → length (trim_right s) ≤ length s
unfolding trim_right
length-trim_right [] = omega arith
length-trim_right (c ∷ s) = ground (arith, length-trim_right s)

not-all_braces : (c : ℕ) (s : Text) → ends_with_brace (c ∷ s) ≡ false → all_braces (c ∷ s) ≡ false
not-all_braces c [] h = ground (arith, h)
not-all_braces c (d ∷ s) h = ground (arith, not-all_braces d s h)

trim_right-bare : (s : Text) → ends_with_brace s ≡ false → trim_right s ≡ s
unfolding trim_right
trim_right-bare [] h = refl
trim_right-bare (c ∷ []) h = ground (arith, h)
trim_right-bare (c ∷ d ∷ s) h =
    rw (not-all_braces c (d ∷ s) h) (ap (λ t. c ∷ t) (trim_right-bare (d ∷ s) h))

trim_right-ends : (s : Text) → ends_with_brace s ≡ true → length (trim_right s) < length s
unfolding trim_right
trim_right-ends [] h = ground (arith, h)
trim_right-ends (c ∷ []) h = ground (arith, h)
trim_right-ends (c ∷ d ∷ s) h = elim (Bool-cases (all_braces (c ∷ d ∷ s))) [
  | inl all ↦ rw all (omega arith)
  | inr some_other ↦ rw some_other (omega (arith, trim_right-ends (d ∷ s) h))
]

-- Trimming leaves exactly the texts without a brace at either end.
pub trim_iff :
    (s : Text) → (trim s ≡ s) ↔ ((starts_with_brace s ≡ false) × (ends_with_brace s ≡ false))
unfolding trim
trim_iff s = (
  λ same.
      let bound = ap length same in
      (
        elim (Bool-cases (starts_with_brace s)) [
          | inl starts ↦
              absurd
                (omega (arith, bound, trim_left-starts s starts, length-trim_right (trim_left s)))
          | inr bare ↦ bare
        ],
        elim (Bool-cases (starts_with_brace s)) [
          | inl starts ↦
              absurd
                (omega (arith, bound, trim_left-starts s starts, length-trim_right (trim_left s)))
          | inr bare ↦ elim (Bool-cases (ends_with_brace s)) [
            | inl ends ↦ absurd (
                omega (
                  arith,
                  ap (λ t. length (trim_right t)) (sym (trim_left-bare s bare)),
                  bound,
                  trim_right-ends s ends,
                ))
            | inr bare_end ↦ bare_end
          ]
        ],
      ),
  λ (starts, ends). ap trim_right (trim_left-bare s starts) ∙ trim_right-bare s ends,
)

all_braces-closed : (s : Text) → all_braces (s ++ b'}' ∷ []) ≡ all_braces s
all_braces-closed [] = refl
all_braces-closed (c ∷ s) = ap (λ b. is_brace c && b) (all_braces-closed s)

trim_right-closed : (s : Text) → trim_right (s ++ b'}' ∷ []) ≡ trim_right s
unfolding trim_right
trim_right-closed [] = refl
trim_right-closed (c ∷ s) = rw (all_braces-closed s, trim_right-closed s) refl

pub trim-closed : (s : Text) → trim (s ++ b'}' ∷ []) ≡ trim s
unfolding trim trim_left
trim-closed [] = refl
trim-closed (c ∷ s) = elim (Bool-cases (is_brace c)) [
  | inl brace ↦ rw brace (trim-closed s)
  | inr other ↦ rw other (trim_right-closed (c ∷ s))
]
