-- ===== src/Release/Allowlist/Laws.antt =====
-- What an entry of the allowlist of hack/check-go-release-age/main.go lets through, and when it is warned of.
use garlic.Common.{
  ◌≤◌, ◌≡◌, ◌↔◌, ◌⊎◌, inl, inr, refl, true, false, not, ◌&&◌, Option, none, some, List, [], ◌∷◌,
  arith, Option-cases, Bool-cases,
}
use garlic.Release.Text.{text_eq}
use garlic.Release.Text.Laws.{text_eq_iff}
use garlic.Release.Dates.{Moment, parse_date}
use garlic.Release.Pins.{ModulePin}
use garlic.Release.Allowlist.{AllowlistEntry, lapsed, warning_at, warning_of, matches}

-- The entry has a date that parses and is not past.
abbrev pub IsLive : Moment → AllowlistEntry → Type 0
IsLive now e = (expiry : Moment) × (parse_date e.expires ≡ some expiry) × (now ≤ expiry)

abbrev pub Names : ModulePin → AllowlistEntry → Type 0
Names p e = (e.path ≡ p.path) × ((e.version ≡ []) ⊎ (e.version ≡ p.version))

abbrev pub Any {ℓ} : {A : Type ℓ} → (A → Type 0) → List A → Type 0
Any P [] = ⊥
Any P (x ∷ xs) = P x ⊎ Any P xs

lapsed_iff :
    (now : Moment) (e : AllowlistEntry) → (lapsed now (parse_date e.expires) ≡ false) ↔ IsLive now e
lapsed_iff now e = elim (Option-cases (parse_date e.expires)) [
  | inl none_at ↦ (λ h. cc, λ (expiry, h, le). cc)
  | inr (expiry, at) ↦ (λ h. (expiry, at, ground arith), λ (other, h, le). ground arith)
]

at_none_iff :
    (now : Moment) (e : AllowlistEntry) (o : Option Moment)
    → (warning_at e now o ≡ none) ↔ ((expiry : Moment) × (o ≡ some expiry) × (now ≤ expiry))
at_none_iff now e none = (λ h. cc, λ (expiry, h, le). cc)
at_none_iff now e (some expiry) =
    (λ h. (expiry, refl, ground arith), λ (other, h, le). ground arith)

parse_date-nil : parse_date [] ≡ none
unfolding parse_date
parse_date-nil = refl

warning_of-none_iff : (now : Moment) (e : AllowlistEntry) → (warning_of now e ≡ none) ↔ IsLive now e
unfolding warning_of
warning_of-none_iff now e = elim (Bool-cases (text_eq e.expires [])) [
  | inl empty ↦
      let e_nil = (text_eq_iff e.expires []).0 empty in
      rw empty (λ h. cc, λ (expiry, at, le). cc (e_nil, at, parse_date-nil))
  | inr other ↦ rw other (at_none_iff now e (parse_date e.expires))
]

Names-iff :
    (p : ModulePin) (e : AllowlistEntry)
    → ((not (text_eq e.path p.path) ≡ false)
        × ((not (text_eq e.version []) && not (text_eq e.version p.version)) ≡ false))
      ↔ Names p e
Names-iff p e = (
  λ h.
      ground (
        arith,
        text_eq_iff e.path p.path,
        text_eq_iff e.version [],
        text_eq_iff e.version p.version,
      ),
  λ h.
      ground (
        arith,
        text_eq_iff e.path p.path,
        text_eq_iff e.version [],
        text_eq_iff e.version p.version,
      ),
)

-- An entry lets a module through exactly if it names the module, and its version or none, and is one
-- of which nothing is warned at that moment: its date parses and is not past.
pub matches_iff :
    (es : List AllowlistEntry) (p : ModulePin) (now : Moment)
    → (matches es p now ≡ true) ↔ Any (λ e. Names p e × (warning_of now e ≡ none)) es
unfolding matches
matches_iff [] p now = (λ h. cc, λ h. absurd h)
matches_iff (e ∷ es) p now =
    let (names, named) = Names-iff p e in
    let (live, lives) = lapsed_iff now e in
    let (warned, unwarned) = warning_of-none_iff now e in
    let (found, finds) = matches_iff es p now in
    elim (Bool-cases (not (text_eq e.path p.path))) [
      | inl a ↦ rw a (
        λ h. inr (found h),
        λ h. elim h [ inl (n, w) ↦ absurd (cc ((named n).0, a)) | inr rest ↦ finds rest ],
      )
      | inr a ↦
          elim (Bool-cases (not (text_eq e.version []) && not (text_eq e.version p.version))) [
            | inl b ↦
                rw (a, b)
                  (
                    λ h. inr (found h),
                    λ h. elim h [
                      | inl (n, w) ↦ absurd (cc ((named n).1, b))
                      | inr rest ↦ finds rest
                    ],
                  )
            | inr b ↦ elim (Bool-cases (lapsed now (parse_date e.expires))) [
              | inl l ↦
                  rw (a, b, l)
                    (
                      λ h. inr (found h),
                      λ h. elim h [
                        | inl (n, w) ↦ absurd (cc (lives (warned w), l))
                        | inr rest ↦ finds rest
                      ],
                    )
              | inr l ↦ rw (a, b, l) (λ h. inl (names (a, b), unwarned (live l)), λ h. refl)
            ]
          ]
    ]
