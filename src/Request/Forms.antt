-- ===== src/Request/Forms.antt =====
-- request/parser.go: the decoding and validation of a request body into a form, and of the form into a
-- model. The JSON decoder, the third-party validator and the form's own conversion are arguments; so is
-- the trace line. The errors of the validator are translated by Validator.
pub mod Laws
mod Tests
use garlic.Common.{ℕ, String, Bool, true, false, Option, none, some, [], ◌∷◌}
use garlic.Errors.Catalog.{kind_invalid_request_error}
use garlic.Errors.Store.{M, pure, ◌>>=◌}
use garlic.Validator.{Checked, valid, invalid, unchecked, parse_validation_errors}
use garlic.Errors.ErrorT.{Err, nil, is_nil, Opt, propagate, propagate_as}

module _ {F : Type 0} (spare : ℕ → ℕ) (line : String) (decode : F → Option Err × F)
    (validate : F → Checked) where
  abbrev pub refused : Checked → M Err
  refused checked = do
    e ← parse_validation_errors spare line checked
    propagate spare e "failed to validate form"
        (Opt.hint "please, verify the correctness of the fields" ∷ []) line

  unfoldable pub validate_form : F → M Err
  validate_form form = elim (validate form) [
    | valid ↦ pure nil
    | invalid shown errs ↦ refused (invalid shown errs)
    | unchecked err ↦ refused (unchecked err)
  ]

  unfoldable pub validated : F → M (F × Err)
  validated form = do
    err ← validate_form form
    elim (is_nil err) [
      | true ↦ pure (form, nil)
      | false ↦ do e ← propagate spare err "failed to validate form" [] line; pure (form, e)
    ]

  -- `empty` tells whether the content length is zero.
  unfoldable pub decode_request_body : Bool → F → M (F × Err)
  decode_request_body empty form = elim empty [
    | true ↦ validated form
    | false ↦
        let (failure, form') = decode form in
        elim failure [
          | none ↦ validated form'
          | some err ↦ do
            e ←
                propagate_as spare kind_invalid_request_error err "invalid request body"
                  (Opt.hint
                      "something may be wrong with formatting or the content of the request body"
                    ∷ [])
                  line
            pure (form', e)
        ]
  ]

  module _ {T : Type 0} (zero_model : T) where
    -- What `ParseForm` and `ParseUnsafeForm` share.
    unfoldable pub converted : (F → T × Err) → String → String → Bool → F → M (T × Err)
    converted to_model decoding parsing empty form = do
      (form', err) ← decode_request_body empty form
      elim (is_nil err) [
        | false ↦ do e ← propagate spare err decoding [] line; pure (zero_model, e)
        | true ↦
            let (model, failure) = to_model form' in
            elim (is_nil failure) [
              | true ↦ pure (model, nil)
              | false ↦ do e ← propagate spare failure parsing [] line; pure (model, e)
            ]
      ]

    unfoldable pub parse_form : (F → T × Err) → Bool → F → M (T × Err)
    parse_form to_model = converted to_model "failed to decode request body" "failed to parse form"

    -- The form's conversion has the crypto manager already.
    unfoldable pub parse_unsafe_form : (F → T × Err) → Bool → F → M (T × Err)
    parse_unsafe_form to_model =
        converted to_model "failed to decode unsafe request body into a form"
          "failed to parse unsafe form into model"
