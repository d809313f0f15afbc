-- ===== src/Release/Pins/Laws.antt =====
-- The loop of `parseGoSum` in hack/check-go-release-age/main.go keeps the first pin of each key.
use mathlib.Core.List.{append-nil, append_assoc}
use garlic.Common.{
  ◌≡◌, inl, inr, refl, sym, ap, ◌∙◌, subst, true, Option, none, some, List, [], ◌∷◌, ◌++◌,
  if◌then◌else◌, arith, Bool-cases,
}
use garlic.Release.Text.{Text, text_eq}
use garlic.Release.Text.Laws.{text_eq_iff}
use garlic.Release.Pins.{ModulePin, pin_of_line, key, seen, visit, scan}

abbrev pub put : Option ModulePin → List ModulePin → List ModulePin
put none ps = ps
put (some p) ps = p ∷ ps

-- The pins that the lines name, in order.
unfoldable pub named : List Text → List ModulePin
named [] = []
named (line ∷ lines) = put (pin_of_line line) (named lines)

unfoldable pub without : List Text → List ModulePin → List ModulePin
without keys [] = []
without keys (p ∷ ps) = if seen (key p) keys then without keys ps else p ∷ without keys ps

-- Of the pins with one key, the first one.
unfoldable pub firsts : List ModulePin → List ModulePin
firsts [] = []
firsts (p ∷ ps) = p ∷ without (key p ∷ []) (firsts ps)

pub without-nil : (ps : List ModulePin) → without [] ps ≡ ps
unfolding without
without-nil [] = refl
without-nil (p ∷ ps) = ap (λ t. p ∷ t) (without-nil ps)

without-without :
    (k : Text) (keys : List Text) (ps : List ModulePin)
    → without keys (without (k ∷ []) ps) ≡ without (k ∷ keys) ps
unfolding without
without-without k keys [] = refl
without-without k keys (p ∷ ps) = ground (arith, without-without k keys ps)

without-seen :
    (k : Text) (keys : List Text) (ps : List ModulePin)
    → seen k keys ≡ true
    → without (k ∷ keys) ps ≡ without keys ps
unfolding without
without-seen k keys [] h = refl
without-seen k keys (p ∷ ps) h = elim (Bool-cases (text_eq k (key p))) [
  | inl same ↦
      let e = (text_eq_iff k (key p)).0 same in
      rw (same, subst (λ x. seen x keys ≡ true) e h) (without-seen k keys ps h)
  | inr other ↦ rw (other, without-seen k keys ps h)
]

-- One round of the loop, from what it does on the other lines.
visit-firsts :
    (rest : List ModulePin) (then_scan : List Text → List ModulePin → List ModulePin)
    → ((keys : List Text) (pins : List ModulePin)
        → then_scan keys pins ≡ pins ++ without keys (firsts rest))
    → (found : Option ModulePin) (keys : List Text) (pins : List ModulePin)
    → then_scan (visit found keys pins).0 (visit found keys pins).1
      ≡ pins ++ without keys (firsts (put found rest))
unfolding firsts without
visit-firsts rest go ih none keys pins = ih keys pins
visit-firsts rest go ih (some p) keys pins = elim (Bool-cases (seen (key p) keys)) [
  | inl old ↦ rw old (
      ih keys pins
      ∙ ap (λ t. pins ++ t)
          (sym (
            without-without (key p) keys (firsts rest)
            ∙ without-seen (key p) keys (firsts rest) old)))
  | inr new ↦ rw new (
      ih (key p ∷ keys) (pins ++ p ∷ [])
      ∙ append_assoc pins (p ∷ []) (without (key p ∷ keys) (firsts rest))
      ∙ ap (λ t. pins ++ p ∷ t) (sym (without-without (key p) keys (firsts rest))))
]

pub scan-firsts :
    (lines keys : List Text) (pins : List ModulePin)
    → scan lines keys pins ≡ pins ++ without keys (firsts (named lines))
unfolding scan named firsts without
scan-firsts [] keys pins = sym (append-nil pins)
scan-firsts (line ∷ lines) keys pins =
    visit-firsts (named lines) (scan lines) (scan-firsts lines) (pin_of_line line) keys pins
