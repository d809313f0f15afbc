-- ===== src/Request/Answers.antt =====
-- What the parsers of request/requests.go return: a value, or an error of one kind.
use garlic.Common.{
  subst, ℕ, String, ◌≡◌, refl, ◌∙◌, ap, true, false, Option, none, some, [], ◌∷◌, ◌⊎◌, inl, inr,
}
use garlic.Errors.Kind.{Kind, is}
use garlic.Errors.Catalog.{kind_invalid_request_error}
use garlic.Errors.Store.{Store, bind-some}
use garlic.Errors.ErrorT.{Err, nil, as_error, as_garlic, is_nil, Opt}
use garlic.Errors.ErrorT.Wrap.{IsSoundErr, has_map}
use garlic.Errors.Chain.Built.{new-made, is_kind-single, is_self}
use garlic.Errors.Chain.{is_kind, as_kind}
use garlic.Errors.Chain.Laws.{propagate_as_answers}
use garlic.Request.{malformed, absent, checked}

-- An error of another package that can be propagated.
pub record IsForeign (s : Store) (err : Err) : Type 0 where
  pub there : is_nil err ≡ false
  pub sound : IsSoundErr s (as_garlic err)
  pub mapped : has_map (as_garlic err) ≡ true

-- What a parser returns: the value with a nil error, else the given zero value with an error of the
-- kind InvalidRequestError.
abbrev pub Answers {ℓ} : {A : Type ℓ} → Store → A → Option A → Option ((A × Err) × Store) → Type ℓ
Answers s zero (some a) result = result ≡ some ((a, nil), s)
Answers s zero none result =
    (e : Err) × (s' : Store) × (result ≡ some ((zero, e), s'))
    × (is_nil e ≡ false)
    × (is_kind e kind_invalid_request_error ≡ true)

abbrev pub good {ℓ} : {A : Type ℓ} → Err ⊎ A → Option A
good (inl err) = none
good (inr a) = some a

kind-is_nil : (err : Err) (kind : Kind) → is_kind err kind ≡ true → is_nil err ≡ false
unfolding is_kind as_kind is_nil
kind-is_nil nil kind h = cc
kind-is_nil (Err.error_t _ _ _ _ _) kind h = refl
kind-is_nil (Err.headless _) kind h = refl
kind-is_nil (Err.plain _) kind h = refl
kind-is_nil (Err.wrapped _ _) kind h = refl
kind-is_nil (Err.joined _ _) kind h = refl

module _ {ℓ} {A : Type ℓ} (spare : ℕ → ℕ) (line : String) (s : Store) (zero : A)
    (message hint : String) where
  pub absent-Answers : Answers s zero none (absent spare line zero message hint s)
  unfolding absent is_nil
  absent-Answers =
      let (e, s', made, kind, cause) =
        new-made spare kind_invalid_request_error message (Opt.hint hint ∷ []) line s refl in
      (
        as_error e,
        s',
        bind-some _ made,
        refl,
        is_kind-single e kind_invalid_request_error cause
            ∙ ap (λ k. is k kind_invalid_request_error) kind
            ∙ is_self kind_invalid_request_error,
      )

  malformed-Answers :
      (err : Err)
      → IsForeign s err
      → Answers s zero none (malformed spare line zero err message hint s)
  unfolding malformed
  malformed-Answers err f =
      let (e, s', made, kinds, _) =
        propagate_as_answers spare kind_invalid_request_error err message s (Opt.hint hint ∷ [])
          line f.there f.sound (rw f.mapped refl) in
      let kind : is_kind e kind_invalid_request_error ≡ true =
        kinds kind_invalid_request_error ∙ rw (is_self kind_invalid_request_error) refl in
      (e, s', bind-some _ made, kind-is_nil e kind_invalid_request_error kind, kind)

  pub checked-Answers :
      (value : Err ⊎ A)
      → ((err : Err) → value ≡ inl err → IsForeign s err)
      → Answers s zero (good value) (checked spare line zero value message hint s)
  unfolding checked
  checked-Answers (inl err) f = malformed-Answers err (f err refl)
  checked-Answers (inr a) f = refl

  pub checked-means :
      (value : Err ⊎ A) (meant : Option A)
      → good value ≡ meant
      → ((err : Err) → value ≡ inl err → IsForeign s err)
      → Answers s zero meant (checked spare line zero value message hint s)
  checked-means value meant e f =
      subst (λ m. Answers s zero m (checked spare line zero value message hint s)) e
        (checked-Answers value f)
