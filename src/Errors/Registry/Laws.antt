-- ===== src/Errors/Registry/Laws.antt =====
-- What the registry of errors/kind.go promises: every registered kind is found by its code and by
-- its name, registration never replaces an entry, and it stops exactly at a duplicate.
use garlic.Common.{
  String, ◌≡◌, refl, ◌≢◌, ◌↔◌, ◌⊎◌, inl, inr, sym, none, some, List, [], ◌∷◌, All, arith, eq_iff,
  eq_refl, lookup, lookup-insert, Option-cases,
}
use mathlib.Core.Path.{subst}
use garlic.Errors.Kind.{Kind, label}
use garlic.Errors.Registry.{Registry, Result, ok, add, register, lookup_by_code, get_by_code, get}

-- No kind of the list shares its code or its name with `k`.
abbrev pub Differs : Kind → Kind → Type 0
Differs k j = ((label k).code ≢ (label j).code) × ((label k).name ≢ (label j).name)

abbrev pub Free : Registry → Kind → Type 0
Free r k = (lookup (label k).code r.codes ≡ none) × (lookup (label k).name r.names ≡ none)

-- Every kind of the list is free in the registry, and no two share a code or a name.
abbrev pub Registrable : Registry → List Kind → Type 0
Registrable r [] = Unit
Registrable r (k ∷ ks) = Free r k × All (Differs k) ks × Registrable r ks

-- `k` is found by its code, with and without a panic, and by its name.
abbrev pub Finds : Registry → Kind → Type 0
Finds r k =
    (lookup_by_code (label k).code r ≡ some k)
    × (get_by_code (label k).code r ≡ ok k)
    × (get (label k).name r ≡ ok k)

-- Every entry of `r` is an entry of `s`.
pub record Extends (r s : Registry) : Type 0 where
  pub codes : (c : String) (k : Kind) → lookup c r.codes ≡ some k → lookup c s.codes ≡ some k
  pub names : (n : String) (k : Kind) → lookup n r.names ≡ some k → lookup n s.names ≡ some k

Extends-refl : (r : Registry) → Extends r r
Extends-refl r = record { codes = λ c k h. h; names = λ n k h. h }

Extends-trans : {r s t : Registry} → Extends r s → Extends s t → Extends r t
Extends-trans f g = record {
  codes = λ c k h. g.codes c k (f.codes c k h);
  names = λ n k h. g.names n k (f.names n k h);
}

module _ (k : Kind) (r : Registry) where
  add-Extends : Free r k → Extends r (add k r)
  unfolding add
  add-Extends (c_free, n_free) = record {
    codes = λ c j h. rw lookup-insert (ground (arith, eq_iff (label k).code c));
    names = λ n j h. rw lookup-insert (ground (arith, eq_iff (label k).name n));
  }

  lookup-codes-add : lookup (label k).code (add k r).codes ≡ some k
  unfolding add
  lookup-codes-add = simp (lookup-insert, eq_refl)

  lookup-names-add : lookup (label k).name (add k r).names ≡ some k
  unfolding add
  lookup-names-add = simp (lookup-insert, eq_refl)

  Free-add : (j : Kind) → Free (add k r) j ↔ (Free r j × Differs k j)
  unfolding add
  Free-add j =
      simp lookup-insert
        (ground (arith, eq_iff (label k).code (label j).code, eq_iff (label k).name (label j).name))

  Finds-of_lookup :
      lookup (label k).code r.codes ≡ some k → lookup (label k).name r.names ≡ some k → Finds r k
  unfolding lookup_by_code get_by_code get
  Finds-of_lookup c n = ground arith

  register_cases :
      (ks : List Kind)
      → (Free r k × (register (k ∷ ks) r ≡ register ks (add k r)))
        ⊎ ((Free r k → ⊥) × ((register (k ∷ ks) r).0 ≢ ok tt) × ((register (k ∷ ks) r).1 ≡ r))
  unfolding register
  register_cases ks = elim (Option-cases (lookup (label k).code r.codes)) [
    | inr (j, taken) ↦ inr (λ free. cc (taken, free.0), rw taken cc, rw taken)
    | inl c_free ↦ elim (Option-cases (lookup (label k).name r.names)) [
      | inr (j, taken) ↦ inr (λ free. cc (taken, free.1), rw (c_free, taken) cc, rw (c_free, taken))
      | inl n_free ↦ inl ((c_free, n_free), rw (c_free, n_free))
    ]
  ]

-- Registration keeps every entry that was there, whether or not it panics.
pub register-Extends : (ks : List Kind) (r : Registry) → Extends r (register ks r).1
register-Extends [] r = unfold register in Extends-refl r
register-Extends (k ∷ ks) r = elim (register_cases k r ks) [
  | inl (free, e) ↦ rw e (Extends-trans (add-Extends k r free) (register-Extends ks (add k r)))
  | inr (_, _, e) ↦ rw e (Extends-refl r)
]

-- After a registration that returns, every kind of the call is found by its code and its name.
pub register-Finds :
    (ks : List Kind) (r : Registry) → (register ks r).0 ≡ ok tt → All (Finds (register ks r).1) ks
register-Finds [] r h = tt
register-Finds (k ∷ ks) r h = elim (register_cases k r ks) [
  | inr (_, fails, _) ↦ absurd (fails h)
  | inl (free, e) ↦
      let kept = register-Extends ks (add k r) in
      subst (λ (t : Result (Unit {0}) × Registry). All (Finds t.1) (k ∷ ks)) (sym e)
        (
          Finds-of_lookup k (register ks (add k r)).1
              (kept.codes (label k).code k (lookup-codes-add k r))
              (kept.names (label k).name k (lookup-names-add k r)),
          register-Finds ks (add k r) (rw e at h),
        )
]

Registrable-add :
    (k : Kind) (r : Registry) (ks : List Kind)
    → Registrable (add k r) ks ↔ (All (Differs k) ks × Registrable r ks)
Registrable-add k r [] = (λ h. (tt, tt), λ h. tt)
Registrable-add k r (j ∷ ks) =
    let (to, from) = Registrable-add k r ks in
    let (split, join) = Free-add k r j in
    (
      λ (free, apart, rest).
          let (differs, later) = to rest in
          let (free', differs') = split free in ((differs', differs), (free', apart, later)),
      λ ((differs', differs), (free', apart, later)).
          (join (free', differs'), apart, from (differs, later)),
    )

-- Registration returns exactly when no kind of the call shares a code or a name with a registered
-- kind or with another kind of the call; otherwise it panics.
pub register-eq-ok_iff :
    (ks : List Kind) (r : Registry) → ((register ks r).0 ≡ ok tt) ↔ Registrable r ks
register-eq-ok_iff [] r = (λ h. tt, λ h. unfold register in refl)
register-eq-ok_iff (k ∷ ks) r = elim (register_cases k r ks) [
  | inr (taken, fails, _) ↦ (λ h. absurd (fails h), λ (free, _, _). absurd (taken free))
  | inl (free, e) ↦
      let (to, from) = register-eq-ok_iff ks (add k r) in
      let (split, join) = Registrable-add k r ks in
      (
        λ h. let (differs, later) = split (to (rw e at h)) in (free, differs, later),
        λ (_, differs, later). rw e (from (join (differs, later))),
      )
]
