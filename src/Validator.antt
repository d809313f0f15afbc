-- ===== src/Validator.antt =====
-- The package validator: the messages of error.go, the built-in tests of validation.go, and the validator of
-- the process with `ParseValidationErrors` of validator.go. The third-party validator decides which fields are
-- wrong and which keys can be registered, so both are arguments. A field's value is its code points.
pub mod Laws
mod Tests
use Prim.Native.String.{◌++◌ as str_append}
use garlic.Common.{
  ℕ, String, Bool, true, false, not, ◌&&◌, ◌||◌, ◌==◌, leb, if◌then◌else◌, Option, none, some, List,
  [], ◌∷◌, str_eq, insert, lookup, merge, get_elem?,
}
use garlic.Errors.Catalog.{kind_validation_error}
use garlic.Errors.Store.{Store, Value, text, texts, M, pure, ◌>>=◌, ◌>>◌, write_details}
use garlic.Errors.ErrorT.{
  Err, nil, plain, ErrorT, Opt, as_error, new_error_t, wrap, with_opts, is_nil,
}

-- A field that is wrong, with the tag that it fails and the tag's parameter.
pub record FieldError : Type 0 where
  pub field : String
  pub tag : String
  pub param : String

abbrev pub Messages : Type 0
Messages = List (String × String)

infixr 6 ◌+++◌
abbrev ◌+++◌ : String → String → String
s +++ t = str_append s t

unfoldable pub message : FieldError → String
message e =
    if str_eq e.tag "required"
    then e.field +++ " is a required field"
    else if str_eq e.tag "max"
    then e.field +++ " must be a maximum of " +++ e.param +++ " in length"
    else if str_eq e.tag "url"
    then e.field +++ " must be a valid URL"
    else if str_eq e.tag "alpha_space"
    then e.field +++ " can only contain alphabetic and space characters"
    else if str_eq e.tag "datetime"
    then if str_eq e.param "2006-01-02"
      then e.field +++ " must be a valid date"
      else e.field +++ " must follow " +++ e.param +++ " format"
    else "something wrong on " +++ e.field +++ "; " +++ e.tag

-- The loop of `Value`, from the messages so far.
unfoldable pub collected : List FieldError → Messages → Messages
collected [] messages = messages
collected (e ∷ errs) messages = collected errs (insert e.field (message e) messages)

unfoldable pub value : List FieldError → Messages
value errs = collected errs []

-- `e.Details["validation"].(map[string]string)`
abbrev pub as_texts : Option Value → Messages
as_texts none = []
as_texts (some Value.nil) = []
as_texts (some (text _)) = []
as_texts (some (Value.num _)) = []
as_texts (some (Value.flag _)) = []
as_texts (some (texts messages)) = messages

unfoldable pub told : Store → Option ℕ → Messages
told s none = []
told s (some a) = elim (get_elem? s.details a) [
  | none ↦ []
  | some table ↦ as_texts (lookup "validation" table)
]

-- `Opt` of the wrong fields; a map that is there is written in place.
unfoldable pub apply_errors : List FieldError → ErrorT → M ErrorT
unfolding value
apply_errors errs e s =
    (write_details e.parts.details "validation"
          (texts (merge (value errs) (told s e.parts.details)))
        >> pure e)
      s

-- What `Struct` of the third-party validator returns: nil, wrong fields with a text, another error.
pub data Checked : Type 0 where
  valid : Checked
  invalid : String → List FieldError → Checked
  unchecked : Err → Checked

abbrev pub error_of : Checked → Err
error_of valid = nil
error_of (invalid shown errs) = plain shown
error_of (unchecked err) = err

abbrev pub errors_of : Checked → List FieldError
errors_of valid = []
errors_of (invalid shown errs) = errs
errors_of (unchecked err) = []

abbrev pub form_hint : String
form_hint =
    "One or more fields of the form were completed incorrectly. Please, fix the errors and try again."

-- `ParseValidationErrors`: the steps of `PropagateAs`, with the hint and the wrong fields as its options.
unfoldable pub parse_validation_errors : (ℕ → ℕ) → String → Checked → M Err
parse_validation_errors spare line checked = if is_nil (error_of checked) then pure nil else do
  e ← new_error_t kind_validation_error "validation error" nil
  hinted ← with_opts spare (Opt.hint form_hint ∷ []) (wrap e (error_of checked))
  detailed ← apply_errors (errors_of checked) hinted
  traced ← with_opts spare (Opt.rev_trace line ∷ []) detailed
  pure (as_error traced)

abbrev pub Text : Type 0
Text = List ℕ

pub record Validation : Type 0 where
  pub key : String
  pub fn : Text → Bool

-- `strings.Contains(s, "..")`
unfoldable pub has_two_dots : Text → Bool
has_two_dots [] = false
has_two_dots (c ∷ []) = false
has_two_dots (c ∷ d ∷ s) = ((c == b'.') && (d == b'.')) || has_two_dots (d ∷ s)

unfoldable pub is_safe_path : Text → Bool
is_safe_path s = not (has_two_dots s)

abbrev pub letter_or_space : ℕ → Bool
letter_or_space c = (leb b'a' c && leb c b'z') || (leb b'A' c && leb c b'Z') || (c == b' ')

-- The expression `^[a-zA-Z ]+$`
unfoldable pub alpha_space : Text → Bool
alpha_space [] = false
alpha_space (c ∷ []) = letter_or_space c
alpha_space (c ∷ d ∷ s) = letter_or_space c && alpha_space (d ∷ s)

abbrev pub default_extended_validations : List Validation
default_extended_validations =
    (record { key = "is_safe_path"; fn = is_safe_path })
    ∷ (record { key = "alpha_space"; fn = alpha_space })
    ∷ []

-- The validations that are registered, by key.
abbrev pub Validator : Type 0
Validator = List (String × (Text → Bool))

module _ (accepts : String → Bool) where
  -- `Extend`: a key that cannot be registered ends the program, which is `none`.
  unfoldable pub extend : List Validation → Validator → Option Validator
  extend [] v = some v
  extend (validation ∷ validations) v = elim (accepts validation.key) [
    | true ↦ extend validations (insert validation.key validation.fn v)
    | false ↦ none
  ]

  unfoldable pub new : Option Validator
  unfolding extend
  new = extend default_extended_validations []

  -- `Global`: the validator, which is also the singleton from then on.
  unfoldable pub global : Option Validator → Option Validator
  global (some singleton) = some singleton
  global none = new

  -- `Init`: the singleton from then on.
  unfoldable pub init : List Validation → Option Validator → Option Validator
  init validations (some singleton) = none
  init validations none = elim new [ none ↦ none | some v ↦ extend validations v ]
