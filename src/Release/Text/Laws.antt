-- ===== src/Release/Text/Laws.antt =====
-- Equality of texts, and that `escapePath` of hack/check-go-release-age/main.go can be undone.
use garlic.Common.{
  ◌-◌, ◌≡◌, ◌≢◌, ◌↔◌, inl, inr, refl, Bool, true, false, ◌&&◌, [], ◌∷◌, ◌==◌, leb, if◌then◌else◌,
  arith, Bool-cases, All,
}
use mathlib.Core.Path.{ap₂}
use garlic.Release.Text.{Text, text_eq, escape_path}

pub text_eq_iff : (s t : Text) → (text_eq s t ≡ true) ↔ (s ≡ t)
text_eq_iff [] [] = (λ _. refl, λ _. refl)
text_eq_iff [] (d ∷ t) = (λ h. cc, λ h. cc)
text_eq_iff (c ∷ s) [] = (λ h. cc, λ h. cc)
text_eq_iff (c ∷ s) (d ∷ t) = ground (arith, text_eq_iff s t)

pub text_eq_refl : (s : Text) → text_eq s s ≡ true
text_eq_refl s = (text_eq_iff s s).1 refl

-- What the module proxy does with an escaped text: a mark makes the next letter a capital.
unescape_from : Bool → Text → Text
unescape_from marked [] = []
unescape_from true (c ∷ s) = (c - 32) ∷ unescape_from false s
unescape_from false (c ∷ s) =
    let marked = unescape_from true s in
    let plain = unescape_from false s in if c == b'!' then marked else c ∷ plain

unfoldable pub unescape : Text → Text
unfolding unescape_from
unescape s = unescape_from false s

-- A proxy that reads a mark before a small letter as the capital letter gets the path back, where
-- the path has no mark of its own, and what is sent has no capital letter.
pub unescape-escape_path :
    (s : Text)
    → All (λ c. c ≢ b'!') s
    → (unescape (escape_path s) ≡ s) × All (λ c. (leb b'A' c && leb c b'Z') ≡ false) (escape_path s)
unfolding unescape escape_path
unescape-escape_path [] h = (refl, tt)
unescape-escape_path (c ∷ s) (hc, hs) =
    let (undone, small) = unescape-escape_path s hs in
    elim (Bool-cases (leb b'A' c && leb c b'Z')) [
      | inl capital ↦ rw capital (ap₂ ◌∷◌ (omega arith) undone, (refl, (ground arith, small)))
      | inr other ↦ rw other (ground (arith, undone), (other, small))
    ]
