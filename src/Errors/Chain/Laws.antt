-- ===== src/Errors/Chain/Laws.antt =====
-- What the walks of errors/utils.go find, and what they find after a propagation.
use garlic.Common.{
  ℕ, String, ◌≡◌, refl, ap, ◌↔◌, ◌≢◌, inl, inr, true, false, none, some, arith, ◌||◌, Bool-cases,
  Option-cases, List, subst,
}
use garlic.Errors.Kind.{Kind, is}
use garlic.Errors.Store.{Store}
use garlic.Errors.ErrorT.{
  Err, nil, error_t, headless, plain, wrapped, joined, ErrorT, Parts, as_error, is_nil, as_garlic,
  Opt, propagate_as,
}
use garlic.Errors.ErrorT.Wrap.{IsSoundErr, has_map}
use garlic.Errors.ErrorT.Sound.{allowed}
use garlic.Errors.ErrorT.Builders.{Propagated, propagate_as-Propagated}
use garlic.Errors.Chain.{as_kind, is_kind, origin, origin_code_of}

-- The struct is in the chain of an error: itself, its cause, the cause's cause and so on.
pub data InChain (e : ErrorT) : Err → Type 0 where
  here : {err : Err} → err ≡ as_error e → InChain e err
  below :
      {k : Kind} {m : String} {c o : Err} {p : Parts} → InChain e c → InChain e (error_t k m c o p)
  inside : {t : String} {inner : Err} → InChain e inner → InChain e (wrapped t inner)

as_kind_sound :
    (err : Err) (kind : Kind) (e : ErrorT)
    → as_kind err kind ≡ some e
    → InChain e err × (is e.kind kind ≡ true)
unfolding as_kind
as_kind_sound nil kind e h = cc
as_kind_sound (error_t k m c o p) kind e h = elim (Bool-cases (is k kind)) [
  | inl hit ↦
      let own : ErrorT = record { kind = k; message = m; cause = c; origin = o; parts = p } in
      let found : some own ≡ some e = rw (hit, as_kind) at h in
      let same : own ≡ e = cc in
      subst (λ (x : ErrorT). InChain x (error_t k m c o p) × (is x.kind kind ≡ true)) same
        (here refl, hit)
  | inr miss ↦
      let (up, found) = as_kind_sound c kind e (rw (miss, as_kind) at h) in (below up, found)
]
as_kind_sound (headless _) kind e h = cc
as_kind_sound (plain _) kind e h = cc
as_kind_sound (wrapped _ inner) kind e h =
    let (up, found) = as_kind_sound inner kind e h in (inside up, found)
as_kind_sound (joined _ _) kind e h = cc

as_kind_complete :
    {e : ErrorT} {err : Err} (kind : Kind)
    → InChain e err
    → is e.kind kind ≡ true
    → as_kind err kind ≢ none
unfolding as_kind
as_kind_complete kind (here q) h = rw q (ground arith)
as_kind_complete kind (below up) h = ground (arith, as_kind_complete kind up h)
as_kind_complete kind (inside up) h = as_kind_complete kind up h

-- `IsKind` reports a kind exactly when some garlic error in the chain has that kind or one below it.
pub is_kind_iff :
    (err : Err) (kind : Kind)
    → (is_kind err kind ≡ true) ↔ ((e : ErrorT) × InChain e err × (is e.kind kind ≡ true))
unfolding is_kind
is_kind_iff err kind = (
  λ h. elim (Option-cases (as_kind err kind)) [
    | inl missed ↦ absurd (cc (rw (missed, is_kind) at h))
    | inr (e, found) ↦ let (up, hit) = as_kind_sound err kind e found in (e, up, hit)
  ],
  λ (e, up, hit). ground (arith, as_kind_complete kind up hit),
)

-- What a propagated error still answers: every kind and origin of the error that it wraps.
module _ {s s' : Store} {kind : Kind} {err : Err} {message : String} {added : List String}
    {e : ErrorT} (p : Propagated s kind err message added e s') where
  pub is_kind_propagated :
      (other : Kind) → is_kind (as_error e) other ≡ (is kind other || is_kind err other)
  unfolding is_kind as_kind
  is_kind_propagated other =
      ground (arith, p.kind_is.same.matches_same other, ap (λ (x : Err). as_kind x other) p.cause)

  pub origin_propagated : origin (as_error e) ≡ origin err
  unfolding origin is_nil
  origin_propagated = ground (arith, ap is_nil p.no_origin, ap origin p.cause)

-- The result of `PropagateAs` on a non-nil error is of every kind that the given kind or the error
-- is of, and of no other, and it has the origin code of the error.
pub propagate_as_answers :
    (spare : ℕ → ℕ) (kind : Kind) (err : Err) (message : String) (s : Store) (opts : List Opt)
    (line : String)
    → is_nil err ≡ false
    → IsSoundErr s (as_garlic err)
    → allowed (has_map (as_garlic err)) opts ≡ true
    → (r : Err) × (s' : Store) × (propagate_as spare kind err message opts line s ≡ some (r, s'))
      × ((other : Kind) → is_kind r other ≡ (is kind other || is_kind err other))
      × (origin_code_of r ≡ origin_code_of err)
unfolding origin_code_of
propagate_as_answers spare kind err message s opts line there h ok =
    let (e, s', done, p) = propagate_as-Propagated spare kind err message s there h opts line ok in
    (as_error e, s', done, is_kind_propagated p, rw (origin_propagated p))
