-- ===== src/Errors/ErrorT/Options.antt =====
-- What the options of errors/errors.go do to an error, when they panic, and what they leave alone.
use garlic.Common.{
  ℕ, inl, inr, ◌≡◌, refl, ◌∙◌, ap, Bool, true, false, none, some, List, [], ◌∷◌, ◌++◌, arith, ◌&&◌,
  Option-cases, Bool-cases, sym,
}
use garlic.Errors.Store.{Store, write_details, bind, pure, bind-some, text}
use garlic.Errors.ErrorT.{ErrorT, Opt, apply, with_opts}
use garlic.Errors.ErrorT.Sound.{
  is_some, IsSound, lines, allowed, Applied, Applied-refl, Applied-trans,
}
use garlic.Errors.ErrorT.Apply.{has_after, apply-Outcome}

allowed-cons :
    (has : Bool) (opt : Opt) (opts : List Opt)
    → allowed has (opt ∷ opts) ≡ (allowed has (opt ∷ []) && allowed (has_after has opt) opts)
allowed-cons true (Opt.hint _) opts = refl
allowed-cons false (Opt.hint _) opts = refl
allowed-cons has (Opt.details _) opts = refl
allowed-cons has (Opt.context _ _) opts = refl
allowed-cons has (Opt.rev_trace _) opts = refl
allowed-cons has (Opt.stack_trace _) opts = refl

both-true : (a b : Bool) → (a && b) ≡ true → (a ≡ true) × (b ≡ true)
both-true a b h = ground arith

lines-cons : (opt : Opt) (opts : List Opt) → lines (opt ∷ opts) ≡ lines (opt ∷ []) ++ lines opts
lines-cons (Opt.hint _) opts = refl
lines-cons (Opt.details _) opts = refl
lines-cons (Opt.context _ _) opts = refl
lines-cons (Opt.rev_trace _) opts = refl
lines-cons (Opt.stack_trace _) opts = refl

module _ (spare : ℕ → ℕ) where
  apply_panics :
      (opt : Opt) (s : Store) (e : ErrorT)
      → allowed (is_some e.parts.details) (opt ∷ []) ≡ false
      → apply spare opt e s ≡ none
  unfolding apply write_details
  apply_panics (Opt.hint message) s e bad = elim (Option-cases e.parts.details) [
    | inl q ↦ ap (λ d. bind (write_details d "hint" (text message) s) (λ _. pure e)) q
    | inr (a, q) ↦ absurd (cc (rw q at bad))
  ]
  apply_panics (Opt.details _) s e bad = absurd (cc bad)
  apply_panics (Opt.context _ _) s e bad = absurd (cc bad)
  apply_panics (Opt.rev_trace _) s e bad = absurd (cc bad)
  apply_panics (Opt.stack_trace _) s e bad = absurd (cc bad)

  -- Options that meet no nil map go through: they add exactly their lines to the error's trace, and
  -- keep its kind, message, cause, origin and every trace that ends before the error's own.
  pub with_opts-Applied :
      (opts : List Opt) (s : Store) (e : ErrorT)
      → IsSound s e
      → allowed (is_some e.parts.details) opts ≡ true
      → (e' : ErrorT) × (s' : Store) × (with_opts spare opts e s ≡ some (e', s'))
        × Applied s e (lines opts) e' s'
  unfolding with_opts
  with_opts-Applied [] s e h ok = (e, s, refl, Applied-refl h)
  with_opts-Applied (opt ∷ opts) s e h ok =
      let has = is_some e.parts.details in
      let (first, later) = both-true _ _ (sym (allowed-cons has opt opts) ∙ ok) in
      let (e₁, s₁, made, a, has₁) = apply-Outcome spare s e h opt first in
      let (e₂, s₂, rest, b) =
        with_opts-Applied opts s₁ e₁ a.sound (ap (λ x. allowed x opts) has₁ ∙ later) in
      (
        e₂,
        s₂,
        bind-some (λ x. with_opts spare opts x) made ∙ rest,
        rw (lines-cons opt opts) (Applied-trans a b),
      )

  -- A hint that meets a nil detail map makes the whole call panic.
  pub with_opts_panics :
      (opts : List Opt) (s : Store) (e : ErrorT)
      → IsSound s e
      → allowed (is_some e.parts.details) opts ≡ false
      → with_opts spare opts e s ≡ none
  unfolding with_opts
  with_opts_panics [] s e h bad = absurd (cc bad)
  with_opts_panics (opt ∷ opts) s e h bad =
      let has = is_some e.parts.details in
      elim (Bool-cases (allowed has (opt ∷ []))) [
        | inr now ↦ ap (λ r. bind r (λ x. with_opts spare opts x)) (apply_panics opt s e now)
        | inl first ↦
            let (e₁, s₁, made, a, has₁) = apply-Outcome spare s e h opt first in
            bind-some (λ x. with_opts spare opts x) made
            ∙ with_opts_panics opts s₁ e₁ a.sound
                (ap (λ x. allowed x opts) has₁ ∙ ground (arith, allowed-cons has opt opts))
      ]
