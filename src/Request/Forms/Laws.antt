-- ===== src/Request/Forms/Laws.antt =====
-- What a client is told of a form that fails its validation: request/parser.go with validator/validator.go
-- and rest/response.go.
use garlic.Common.{
  ◌⊎◌, inl, inr, ℕ, ◌≡◌, refl, ◌∙◌, ap, String, Bool, true, false, Option, none, some, List, [],
  ◌∷◌, length, get_elem?, insert,
}
use garlic.Errors.Kind.{is, status_code}
use garlic.Errors.Catalog.{kind_validation_error}
use garlic.Errors.Store.{Store, Table, text, texts, bind-some}
use garlic.Errors.ErrorT.{Err, ErrorT, as_error, is_nil}
use garlic.Errors.ErrorT.Kept.{Kept, propagate-Kept, propagate_hint-Kept}
use garlic.Errors.Chain.{as_error_t}
use garlic.Errors.Dto.{Dto, error_dto}
use garlic.Rest.{Response, write_response, write_error}
use garlic.Rest.Laws.{write_error-user}
use garlic.Validator.{FieldError, Checked, invalid}
use garlic.Validator.Laws.{messages_of, parse_validation_errors-Tells}
use garlic.Request.Forms.{validate_form, validated, decode_request_body, converted, parse_form}

-- The details of a form that fails: the hint of `ValidateForm`, and the messages.
abbrev pub form_table : List FieldError → Table
form_table errs =
    ("hint", text "please, verify the correctness of the fields")
    ∷ ("validation", texts (messages_of errs))
    ∷ []

module _ {F : Type 0} (spare : ℕ → ℕ) (line : String) (decode : F → Option Err × F)
    (validate : F → Checked) where
  -- A form with wrong fields ends in an error with these details, at the first free map.
  validate_form-Kept :
      (form : F) (shown : String) (errs : List FieldError) (s : Store)
      → validate form ≡ invalid shown errs
      → (e : ErrorT) × (s' : Store) × (validate_form spare line decode validate form s
          ≡ some (as_error e, s'))
        × Kept kind_validation_error (length s.details) (form_table errs) e s'
  unfolding validate_form insert
  validate_form-Kept form shown errs s bad =
      let (e, s₁, made, tells) = parse_validation_errors-Tells spare line shown errs s in
      let (e', s', passed, kept) =
        propagate_hint-Kept spare "please, verify the correctness of the fields" line
          "failed to validate form" e s₁
          (record {
            kind_is = tells.kind;
            details = tells.details;
            stored = tells.table;
            trace = tells.trace;
          }) in
      (e', s', rw (bad, validate_form) (bind-some _ made ∙ passed), kept)

  validated-Kept :
      (form : F) (shown : String) (errs : List FieldError) (s : Store)
      → validate form ≡ invalid shown errs
      → (e : ErrorT) × (s' : Store) × (validated spare line decode validate form s
          ≡ some ((form, as_error e), s'))
        × Kept kind_validation_error (length s.details) (form_table errs) e s'
  unfolding validated is_nil
  validated-Kept form shown errs s bad =
      let (e, s₁, made, kept) = validate_form-Kept form shown errs s bad in
      let (e', s', passed, kept') = propagate-Kept spare line "failed to validate form" e s₁ kept in
      (e', s', bind-some _ made ∙ bind-some _ passed, kept')

  -- The form after the body was read: as it was where there is no body, else as the decoder leaves it.
  abbrev pub Reads : Bool → F → F → Type 0
  Reads empty form form' =
      ((empty ≡ true) × (form ≡ form')) ⊎ ((empty ≡ false) × (decode form ≡ (none, form')))

  decode_request_body-Kept :
      (empty : Bool) (form form' : F) (shown : String) (errs : List FieldError) (s : Store)
      → Reads empty form form'
      → validate form' ≡ invalid shown errs
      → (e : ErrorT) × (s' : Store) × (decode_request_body spare line decode validate empty form s
          ≡ some ((form', as_error e), s'))
        × Kept kind_validation_error (length s.details) (form_table errs) e s'
  unfolding decode_request_body
  decode_request_body-Kept empty form form' shown errs s (inl (none_there, same)) bad =
      rw (none_there, decode_request_body, same) (validated-Kept form' shown errs s bad)
  decode_request_body-Kept empty form form' shown errs s (inr (there, read)) bad =
      rw
        (
          there,
          decode_request_body,
          ap (λ (p : Option Err × F). p.0) read,
          ap (λ (p : Option Err × F). p.1) read,
        )
        (validated-Kept form' shown errs s bad)

  -- Where the form that was read has wrong fields, `ParseForm` gives no model and an error that
  -- `WriteError` answers with status 400; the details of the answer are the hint of `ValidateForm`, which
  -- has replaced the validator's own, and the messages for the fields.
  pub parse_form-invalid :
      {T : Type 0} (unknown : Response Dto) (zero_model : T) (to_model : F → T × Err) (empty : Bool)
      (form form' : F) (shown : String) (errs : List FieldError) (s : Store)
      → Reads empty form form'
      → validate form' ≡ invalid shown errs
      → (e : ErrorT) × (s' : Store) × (parse_form spare line decode validate zero_model to_model
            empty form s
          ≡ some ((zero_model, as_error e), s'))
        × (write_error spare unknown (as_error e) s' ≡ some (write_response 400 (error_dto e), s'))
        × ((error_dto e).details ≡ some (length s.details))
        × (get_elem? s'.details (length s.details) ≡ some (form_table errs))
  unfolding parse_form converted is_nil as_error_t error_dto status_code is kind_validation_error
  parse_form-invalid unknown zero_model to_model empty form form' shown errs s reads bad =
      let (e, s₁, made, kept) = decode_request_body-Kept empty form form' shown errs s reads bad in
      let (e', s', passed, kept') =
        propagate-Kept spare line "failed to decode request body" e s₁ kept in
      (
        e',
        s',
        bind-some _ made ∙ bind-some _ passed,
        write_error-user spare unknown (as_error e') s' e' refl (rw kept'.kind_is refl)
            ∙ ap (λ k. some (write_response (status_code k) (error_dto e'), s')) kept'.kind_is,
        kept'.details,
        kept'.stored,
      )
