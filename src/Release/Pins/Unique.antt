-- ===== src/Release/Pins/Unique.antt =====
-- `parseGoSum` of hack/check-go-release-age/main.go: one pin for each module and version.
use garlic.Common.{
  ◌≡◌, ◌≢◌, ◌↔◌, ◌⊎◌, inl, inr, refl, sym, ap, ◌∙◌, subst, false, none, List, [], ◌∷◌, ◌++◌, arith,
  Bool-cases, All,
}
use garlic.Release.Text.{Text, text_eq}
use garlic.Release.Text.Laws.{text_eq_iff, text_eq_refl}
use garlic.Release.Pins.{ModulePin, key, seen, parse_go_sum}
use garlic.Release.Pins.Laws.{named, without, firsts, scan-firsts, without-nil}

abbrev pub Found : ModulePin → List ModulePin → Type 0
Found p [] = ⊥
Found p (q ∷ qs) = (p ≡ q) ⊎ Found p qs

abbrev pub Distinct : List ModulePin → Type 0
Distinct [] = Unit
Distinct (p ∷ ps) = (Found p ps → ⊥) × Distinct ps

Found-without :
    (p : ModulePin) (keys : List Text) (ps : List ModulePin)
    → Found p (without keys ps) ↔ (Found p ps × (seen (key p) keys ≡ false))
unfolding without
Found-without p keys [] = (λ f. absurd f, λ h. absurd h.0)
Found-without p keys (q ∷ ps) = elim (Bool-cases (seen (key q) keys)) [
  | inl gone ↦ rw gone (
    λ f. let (g, h) = (Found-without p keys ps).0 f in (inr g, h),
    λ h. elim h.0 [
      | inl e ↦ absurd (ground (arith, subst (λ x. seen (key x) keys ≡ false) e h.1, gone))
      | inr g ↦ (Found-without p keys ps).1 (g, h.1)
    ],
  )
  | inr kept ↦ rw kept (
    λ f. elim f [
      | inl e ↦ (inl e, subst (λ x. seen (key x) keys ≡ false) (sym e) kept)
      | inr g ↦ let (g', h) = (Found-without p keys ps).0 g in (inr g', h)
    ],
    λ h. elim h.0 [ inl e ↦ inl e | inr g ↦ inr ((Found-without p keys ps).1 (g, h.1)) ],
  )
]

Distinct-without :
    (keys : List Text) (ps : List ModulePin) → Distinct ps → Distinct (without keys ps)
unfolding without
Distinct-without keys [] d = tt
Distinct-without keys (p ∷ ps) (fresh, d) = elim (Bool-cases (seen (key p) keys)) [
  | inl gone ↦ rw gone (Distinct-without keys ps d)
  | inr kept ↦ rw kept (λ f. fresh ((Found-without p keys ps).0 f).0, Distinct-without keys ps d)
]

firsts-Distinct : (ps : List ModulePin) → Distinct (firsts ps)
unfolding firsts
firsts-Distinct [] = tt
firsts-Distinct (p ∷ ps) = (
  λ f.
      absurd
        (ground (arith, ((Found-without p (key p ∷ []) (firsts ps)).0 f).1, text_eq_refl (key p))),
  Distinct-without (key p ∷ []) (firsts ps) (firsts-Distinct ps),
)

-- No module path has an at sign.
abbrev pub IsPath : ModulePin → Type 0
IsPath p = All (λ c. c ≢ b'@') p.path

split_at :
    (s t u v : Text)
    → All (λ c. c ≢ b'@') s
    → All (λ c. c ≢ b'@') t
    → s ++ b'@' ∷ u ≡ t ++ b'@' ∷ v
    → (s ≡ t) × (u ≡ v)
split_at [] [] u v hs ht e = (refl, cc)
split_at [] (d ∷ t) u v hs ht e = absurd (ht.0 (cc))
split_at (c ∷ s) [] u v hs ht e = absurd (hs.0 (cc))
split_at (c ∷ s) (d ∷ t) u v (hc, hs) (hd, ht) e =
    let (same, rest) = split_at s t u v hs ht (cc) in (cc, rest)

key_inj : (p q : ModulePin) → IsPath p → IsPath q → key p ≡ key q → p ≡ q
unfolding key
key_inj p q hp hq e =
    let (paths, versions) = split_at p.path q.path p.version q.version hp hq e in cc

Found-All :
    (P : ModulePin → Type 0) (p : ModulePin) (ps : List ModulePin) → All P ps → Found p ps → P p
Found-All P p [] h f = absurd f
Found-All P p (q ∷ ps) (hq, h) (inl e) = subst P (sym e) hq
Found-All P p (q ∷ ps) (hq, h) (inr f) = Found-All P p ps h f

Found-firsts :
    (p : ModulePin) (ps : List ModulePin) → All IsPath ps → Found p (firsts ps) ↔ Found p ps
unfolding firsts
Found-firsts p [] h = (λ f. f, λ f. f)
Found-firsts p (q ∷ ps) (hq, h) = (
  λ f. elim f [
    | inl e ↦ inl e
    | inr g ↦ inr ((Found-firsts p ps h).0 ((Found-without p (key q ∷ []) (firsts ps)).0 g).0)
  ],
  λ f. elim f [
    | inl e ↦ inl e
    | inr g ↦ elim (Bool-cases (text_eq (key q) (key p))) [
      | inl same ↦
          inl (
            key_inj p q (Found-All IsPath p ps h g) hq (sym ((text_eq_iff (key q) (key p)).0 same)))
      | inr other ↦
          inr ((Found-without p (key q ∷ []) (firsts ps)).1 ((Found-firsts p ps h).1 g, rw other))
    ]
  ],
)

-- Where the file is read to its end and no module path has an at sign, the pins are pairwise
-- different and are exactly the pins that the lines name, those of `/go.mod` lines included.
pub parse_go_sum-Distinct :
    (lines : List Text)
    → All IsPath (named lines)
    → (ps : List ModulePin) × (parse_go_sum (inr (record { lines = lines; error = none })) ≡ inr ps)
      × Distinct ps
      × ((p : ModulePin) → Found p ps ↔ Found p (named lines))
unfolding parse_go_sum
parse_go_sum-Distinct lines h =
    let ps = named lines in
    (
      firsts ps,
      ap inr (scan-firsts lines [] [] ∙ without-nil (firsts ps)),
      firsts-Distinct ps,
      λ p. Found-firsts p ps h,
    )
