-- ===== src/Request.antt =====
-- request/requests.go: the parsers of path and query parameters. A parameter is the text that the
-- request has for it, empty if it has none. The parsers of UUIDs and of escaped paths and the errors of
-- strconv are arguments; so is the trace line of an error. Debug messages are left out.
pub mod Answers
pub mod Forms
pub mod Laws
mod Tests
use Prim.Native.String.{◌++◌ as str_append}
use garlic.Common.{
  ℕ, String, Bool, true, false, Option, none, some, List, [], ◌∷◌, if◌then◌else◌, ltb, str_eq, ◌||◌,
  ◌⊎◌, inl, inr, Parsed, natural, negative, invalid, atoi,
}
use garlic.Errors.Catalog.{kind_invalid_request_error}
use garlic.Errors.Store.{M, pure, ◌>>=◌}
use garlic.Errors.ErrorT.{Err, nil, Opt, as_error, new, propagate_as}

-- The three places of a format string.
abbrev around : String → String → String → String
around before param after = str_append before (str_append param after)

abbrev pub member : String → List String → Bool
member raw [] = false
member raw (text ∷ texts) = str_eq raw text || member raw texts

-- The cases of `strconv.ParseBool`.
abbrev pub true_texts : List String
true_texts = "1" ∷ "t" ∷ "T" ∷ "true" ∷ "TRUE" ∷ "True" ∷ []

abbrev pub false_texts : List String
false_texts = "0" ∷ "f" ∷ "F" ∷ "false" ∷ "FALSE" ∷ "False" ∷ []

module _ (spare : ℕ → ℕ) (line : String) where
  -- A value with the error that comes with it, nil if it is good.
  abbrev pub Parse {ℓ} : Type ℓ → Type ℓ
  Parse A = M (A × Err)

  unfoldable pub malformed {ℓ} : {A : Type ℓ} → A → Err → String → String → Parse A
  malformed zero err message hint = do
    e ← propagate_as spare kind_invalid_request_error err message (Opt.hint hint ∷ []) line
    pure (zero, e)

  unfoldable pub absent {ℓ} : {A : Type ℓ} → A → String → String → Parse A
  absent zero message hint = do
    e ← new spare kind_invalid_request_error message (Opt.hint hint ∷ []) line
    pure (zero, as_error e)

  -- The steps of a parser after its library function.
  unfoldable pub checked {ℓ} : {A : Type ℓ} → A → Err ⊎ A → String → String → Parse A
  checked zero (inl err) message hint = malformed zero err message hint
  checked zero (inr value) message hint = pure (value, nil)

  module _ {Uuid : Type 0} (nil_uuid : Uuid) (parse_uuid : String → Err ⊎ Uuid) where
    unfoldable pub parse_resource_uuid : String → String → Parse Uuid
    parse_resource_uuid param raw =
        checked nil_uuid (parse_uuid raw) "failed to parse resource id (int)"
          (around "Something is wrong with the request field '" param "'")

    unfoldable pub parse_param_uuid : String → String → Parse Uuid
    parse_param_uuid param raw = elim (str_eq raw "") [
      | true ↦
          absent nil_uuid "required request param is missing"
            (around "Something is wrong with the request param '" param "'")
      | false ↦
          checked nil_uuid (parse_uuid raw) "malformed required request param"
            (around "Something is wrong with the request param '" param "'")
    ]

    unfoldable pub parse_optional_param_uuid : String → String → Parse Uuid
    parse_optional_param_uuid param raw = elim (str_eq raw "") [
      | true ↦ pure (nil_uuid, nil)
      | false ↦
          checked nil_uuid (parse_uuid raw) "malformed optional request param"
            (around "Something is wrong with the optional request param '" param "'")
    ]

  module _ (num_error : String → Err) where
    unfoldable pub integer : Parsed → String → Err ⊎ Parsed
    integer invalid raw = inl (num_error raw)
    integer (natural n) raw = inr (natural n)
    integer (negative n) raw = inr (negative n)

    unfoldable pub parse_resource_int : String → String → Parse Parsed
    parse_resource_int param raw =
        checked (natural 0) (integer (atoi raw) raw) "failed to parse resource id (int)"
          (around "Something is wrong with the request field '" param "'")

    -- `strconv.ParseBool`
    unfoldable pub parse_bool : String → Err ⊎ Bool
    parse_bool raw =
        if member raw true_texts
        then inr true
        else if member raw false_texts
        then inr false
        else inl (num_error raw)

    unfoldable pub parse_optional_param_bool : String → String → Parse Bool
    parse_optional_param_bool param raw = elim (str_eq raw "") [
      | true ↦ pure (false, nil)
      | false ↦
          checked false (parse_bool raw)
            "Optional request param bool was provided but cannot be parsed"
            (around "make sure '" param
              "' request param is either 'true' or 'false', no other value is accepted")
    ]

  unfoldable pub parse_resource_string : (String → Err ⊎ String) → String → String → Parse String
  parse_resource_string path_unescape param raw = elim (str_eq raw "") [
    | true ↦ absent "" "path string is empty" (around "String path '" param "' can't be empty")
    | false ↦
        checked "" (path_unescape raw) "failed to unescape path string"
          (around "We couldn't unescape the path string '" param "'")
  ]

  unfoldable pub parse_param_string : String → String → Parse String
  parse_param_string param raw = elim (str_eq raw "") [
    | true ↦
        absent "" "missing required request param" (around "Request param '" param "' is missing")
    | false ↦ pure (raw, nil)
  ]

unfoldable pub non_negative : Parsed → ℕ
non_negative (natural n) = n
non_negative (negative _) = 0
non_negative invalid = 0

-- `ParseParamPagination` of the texts of `limit` and `start`.
unfoldable pub parse_param_pagination : String → String → ℕ × ℕ
parse_param_pagination raw_limit raw_start =
    let limit = non_negative (atoi raw_limit) in
    (if ltb 1000 limit then 1000 else limit, non_negative (atoi raw_start))
