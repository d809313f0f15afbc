-- ===== src/Errors/Kind/Laws.antt =====
-- What the walks over the kind hierarchy of errors/kind.go find, and what a pinned status changes.
use garlic.Common.{
  ℕ, zero, suc, ◌≡◌, refl, ap, ◌∙◌, ◌==◌, if◌then◌else◌, ◌↔◌, ◌≢◌, inl, inr, Bool, true, false,
  arith, eq_iff, str_eq, Bool-cases,
}
use garlic.Errors.Kind.{
  Kind, Label, root, child, label, relabel, fqn, status_code, customize_status_code, is,
}

-- `a` is `k` or one of its ancestors.
pub data Ancestor (a : Kind) : Kind → Type 0 where
  self : {k : Kind} → k ≡ a → Ancestor a k
  above : {l : Label} {p : Kind} → Ancestor a p → Ancestor a (child l p)

-- `code` is the status of the nearest of a kind and its ancestors that defines one, or 500.
pub data Reports (code : ℕ) : Kind → Type 0 where
  own :
      {k : Kind}
      → (label k).http_status_code ≢ 0
      → code ≡ (label k).http_status_code
      → Reports code k
  inherited :
      {l : Label} {p : Kind} → l.http_status_code ≡ 0 → Reports code p → Reports code (child l p)
  fallback : {l : Label} → l.http_status_code ≡ 0 → code ≡ 500 → Reports code (root l)

is_of_Ancestor :
    {a k : Kind} (other : Kind)
    → Ancestor a k
    → (label a).code ≡ (label other).code
    → is k other ≡ true
unfolding is
is_of_Ancestor {k = root l} other (self e) h =
    (eq_iff l.code (label other).code).1 (ap (λ (k : Kind). (label k).code) e ∙ h)
is_of_Ancestor {k = child l p} other (self e) h =
    let same = (eq_iff l.code (label other).code).1 (ap (λ (k : Kind). (label k).code) e ∙ h) in
    ground arith
is_of_Ancestor other (above {l} {p} up) h = ground (arith, is_of_Ancestor other up h)

Ancestor-of_is :
    (k other : Kind)
    → is k other ≡ true
    → (a : Kind) × Ancestor a k × ((label a).code ≡ (label other).code)
unfolding is
Ancestor-of_is (root l) other h = (root l, self refl, (eq_iff _ _).0 h)
Ancestor-of_is (child l p) other h = elim (Bool-cases (str_eq l.code (label other).code)) [
  | inl same ↦ (child l p, self refl, (eq_iff _ _).0 same)
  | inr differs ↦
      let (a, up, e) = Ancestor-of_is p other (rw (differs, is) at h) in (a, above up, e)
]

-- A kind matches another exactly when it or one of its ancestors carries the other's code.
is_iff :
    (k other : Kind)
    → (is k other ≡ true) ↔ ((a : Kind) × Ancestor a k × ((label a).code ≡ (label other).code))
is_iff k other = (Ancestor-of_is k other, λ (a, up, e). is_of_Ancestor other up e)

-- All that a customized kind keeps of the original.
pub record SameButStatus (custom k : Kind) : Type 0 where
  pub fqn_kept : fqn custom ≡ fqn k
  pub code_kept : (label custom).code ≡ (label k).code
  pub description_kept : (label custom).description ≡ (label k).description
  pub matches_same : (other : Kind) → is custom other ≡ is k other
  pub matched_same : (other : Kind) → is other custom ≡ is other k

is-label : (k a b : Kind) → (label a).code ≡ (label b).code → is k a ≡ is k b
unfolding is
is-label (root l) a b e = rw e
is-label (child l p) a b e = rw (e, is-label p a b e)

relabel-SameButStatus :
    (k : Kind) (status : ℕ) (custom : Bool)
    → SameButStatus
        (relabel k (record (label k) { http_status_code = status; custom_status = custom }))
        k
unfolding fqn is
relabel-SameButStatus (root l) s c = record {
  fqn_kept = refl;
  code_kept = refl;
  description_kept = refl;
  matches_same = λ other. refl;
  matched_same = λ other. is-label other _ _ refl;
}
relabel-SameButStatus (child l p) s c = record {
  fqn_kept = refl;
  code_kept = refl;
  description_kept = refl;
  matches_same = λ other. refl;
  matched_same = λ other. is-label other _ _ refl;
}

status_code-relabel :
    (k : Kind) (n : ℕ)
    → status_code (relabel k (record (label k) { http_status_code = suc n; custom_status = true }))
      ≡ suc n
unfolding status_code
status_code-relabel (root l) n = ground arith
status_code-relabel (child l p) n = ground arith

pub SameButStatus-refl : (k : Kind) → SameButStatus k k
SameButStatus-refl k = record {
  fqn_kept = refl;
  code_kept = refl;
  description_kept = refl;
  matches_same = λ other. refl;
  matched_same = λ other. refl;
}

pub SameButStatus-trans : {j k l : Kind} → SameButStatus j k → SameButStatus k l → SameButStatus j l
SameButStatus-trans f g = record {
  fqn_kept = f.fqn_kept ∙ g.fqn_kept;
  code_kept = f.code_kept ∙ g.code_kept;
  description_kept = f.description_kept ∙ g.description_kept;
  matches_same = λ other. f.matches_same other ∙ g.matches_same other;
  matched_same = λ other. f.matched_same other ∙ g.matched_same other;
}

-- A customized kind reports exactly the positive status it was given, a zero one changes nothing,
-- and neither changes its fully qualified name, its code, its description, or what it matches.
pub customize_status_code_lem :
    (k : Kind) (code : ℕ)
    → (status_code (customize_status_code k code) ≡ (if code == 0 then status_code k else code))
      × SameButStatus (customize_status_code k code) k
unfolding customize_status_code
customize_status_code_lem k zero = (refl, SameButStatus-refl k)
customize_status_code_lem k (suc n) =
    let positive : (suc n == 0) ≡ false = ground arith in
    rw positive (status_code-relabel k n, relabel-SameButStatus k (suc n) true)
