-- ===== src/Request/Forms/Tests.antt =====
-- A form with wrong fields, from the body of a request to the answer of request/parser.go.
use garlic.Common.{
  zero, suc, ℕ, ◌≡◌, refl, Option, none, some, List, [], ◌∷◌, inr, false, get_elem?,
}
use garlic.Errors.Store.{fresh, Store}
use garlic.Errors.ErrorT.{Err, nil, ErrorT, as_error}
use garlic.Errors.Dto.{Dto, error_dto}
use garlic.Rest.{Response, write_response, write_error}
use garlic.Validator.{FieldError, Checked, valid, invalid}
use garlic.Request.Forms.{parse_form}
use garlic.Request.Forms.Laws.{form_table, parse_form-invalid}

abbrev read_five : ℕ → Option Err × ℕ
read_five form = (none, 5)

abbrev too_long : List FieldError
too_long = (record { field = "name"; tag = "max"; param = "3" }) ∷ []

-- Only an empty form is right.
abbrev short_enough : ℕ → Checked
short_enough zero = valid
short_enough (suc n) = invalid "name is too long" too_long

abbrev unknown : Response Dto
unknown = record {
  status_code = 500;
  payload = record { name = ""; error = "unknown"; code = ""; origin = ""; details = none };
}

abbrev to_model : ℕ → ℕ × Err
to_model form = (form, nil)

parse_form-invalid_example :
    (e : ErrorT) × (s' : Store) × (parse_form
        (λ n. n)
        "form.go:3"
        read_five
        short_enough
        0
        to_model
        false
        0
        fresh
      ≡ some ((0, as_error e), s'))
    × (write_error (λ n. n) unknown (as_error e) s' ≡ some (write_response 400 (error_dto e), s'))
    × ((error_dto e).details ≡ some 0)
    × (get_elem? s'.details 0 ≡ some (form_table too_long))
parse_form-invalid_example =
    parse_form-invalid (λ n. n) "form.go:3" read_five short_enough unknown 0 to_model false 0 5
      "name is too long" too_long fresh (inr (refl, refl)) refl
