-- ===== src/Validator/Tests.antt =====
-- Forms that fail their validation, and the tests of fields, of the package validator.
use garlic.Common.{
  insert, ◌≡◌, refl, String, List, true, false, none, some, [], ◌∷◌, map, lookup, last_with,
}
use garlic.Errors.Store.{Store, fresh}
use garlic.Errors.ErrorT.{ErrorT, as_error}
use garlic.Errors.Dto.{Dto, error_dto}
use garlic.Rest.{Response, write_response, write_error}
use garlic.Validator.{
  collected, message, FieldError, invalid, value, parse_validation_errors, is_safe_path,
  has_two_dots, alpha_space, new, init,
}
use garlic.Validator.Laws.{Tells, messages_of, entry, parse_validation_errors-shown}

abbrev wrong : List FieldError
wrong =
    (record { field = "name"; tag = "required"; param = "" })
    ∷ (record { field = "born"; tag = "datetime"; param = "2006-01-02" })
    ∷ (record { field = "name"; tag = "max"; param = "30" })
    ∷ []

told_last :
    value wrong
    ≡ ("name", "name must be a maximum of 30 in length")
      ∷ ("born", "born must be a valid date")
      ∷ []
unfolding value collected insert message
told_last = refl

climbing : is_safe_path (b'a' ∷ b'/' ∷ b'.' ∷ b'.' ∷ []) ≡ false
unfolding is_safe_path has_two_dots
climbing = refl

spaced : alpha_space (b'A' ∷ b' ' ∷ b'z' ∷ []) ≡ true
unfolding alpha_space
spaced = refl

-- A key that cannot be registered ends the program.
refused_key : init (λ key. false) [] none ≡ none
unfolding init new
refused_key = refl

abbrev unknown : Response Dto
unknown = record {
  status_code = 500;
  payload = record { name = ""; error = "unknown"; code = ""; origin = ""; details = none };
}

parse_validation_errors_example :
    (e : ErrorT) × (s' : Store) × (parse_validation_errors
        (λ n. n)
        "form.go:3"
        (invalid "two fields" wrong)
        fresh
      ≡ some (as_error e, s'))
    × Tells fresh "two fields" wrong e s'
    × ((field : String) → lookup field (messages_of wrong) ≡ last_with field (map entry wrong))
    × (write_error (λ n. n) unknown (as_error e) s' ≡ some (write_response 400 (error_dto e), s'))
parse_validation_errors_example =
    parse_validation_errors-shown (λ n. n) "form.go:3" "two fields" wrong fresh unknown
