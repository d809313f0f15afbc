-- ===== src/Errors/Catalog.antt =====
-- The kinds of errors/common.go below the primitive ones, those that database/errors.go,
-- httpclient/errors.go and validator/errors.go add, and the registrations made at program start.
pub mod Laws
use garlic.Common.{ℕ, String, Option, none, some, List, [], ◌∷◌, ◌++◌, map}
use garlic.Errors.Kind.{Kind, Label, root, child, http_status_not_defined}
use garlic.Errors.Primitive.{declared, kind_error, kind_user_error, kind_system_error}
use garlic.Errors.Status.{find, http_kinds, kind_for_status}
use garlic.Errors.Registry.{Registry, Result, empty, register}

-- A kind whose `Parent` is `httpKinds[status]`: a missing entry would be a nil parent.
abbrev below : Label → Option Kind → Kind
below l none = root l
below l (some parent) = child l parent

abbrev plain : String → String → String → Label
plain name code description = declared name code description http_status_not_defined

unfoldable pub kind_invalid_request_error : Kind
unfolding http_kinds find
kind_invalid_request_error =
    below
      (plain "InvalidRequestError" "C00001"
        "The request is incorrectly formatted or has errors in the request body.")
      (find 400 http_kinds)

unfoldable pub kind_auth_error : Kind
unfolding http_kinds find
kind_auth_error =
    below
      (plain "AuthError" "C00003"
        "An error occurred during authentication, such as invalid credentials.")
      (find 401 http_kinds)

unfoldable pub kind_forbidden_error : Kind
unfolding http_kinds find
kind_forbidden_error =
    below
      (plain "ForbiddenError" "C00004"
        "The user does not have permission to access the requested resource.")
      (find 403 http_kinds)

unfoldable pub kind_not_found_error : Kind
unfolding http_kinds find
kind_not_found_error =
    below
      (plain "NotFoundError" "C00005"
        "The requested resource was not found in our system or external services.")
      (find 404 http_kinds)

unfoldable pub kind_context_error : Kind
kind_context_error =
    child (plain "ContextError" "C00006" "An error occurred due to a problem with the context.")
      kind_system_error

unfoldable pub kind_context_value_not_found_error : Kind
unfolding kind_context_error
kind_context_value_not_found_error =
    child
      (plain "ContextValueNotFoundError" "C00007" "A required value was not found in the context.")
      kind_context_error

-- validator/errors.go
unfoldable pub kind_validation_error : Kind
unfolding kind_invalid_request_error
kind_validation_error =
    child
      (plain "ValidationError" "C00002"
        "Some field on a form was filled incorrectly by the user or is missing.")
      kind_invalid_request_error

-- database/errors.go
unfoldable pub kind_database_record_not_found_error : Kind
unfolding kind_not_found_error
kind_database_record_not_found_error =
    child
      (plain "DatabaseRecordNotFoundError" "C00008" "The requested database record was not found.")
      kind_not_found_error

unfoldable pub kind_database_transaction_error : Kind
unfolding kind_for_status http_kinds find
kind_database_transaction_error =
    child
      (plain "DatabaseTransactionError" "C00009" "An error occurred during a database transaction.")
      (kind_for_status 500)

-- httpclient/errors.go
unfoldable pub kind_response_decode_error : Kind
kind_response_decode_error =
    child
      (plain "ResponseDecodeError" "C10001"
        "The request was executed correctly but the response could not be decoded.")
      kind_system_error

unfoldable pub kind_unknown_response_error : Kind
kind_unknown_response_error =
    child
      (plain "UnknownResponseError" "C10003"
        "The request was executed correctly but the response is unknown.")
      kind_system_error

abbrev pub primitive_kinds : List Kind
primitive_kinds = kind_error ∷ kind_user_error ∷ kind_system_error ∷ []

-- What `registerHTTPKinds` goes through, in some order.
unfoldable pub secondary_kinds : List Kind
unfolding http_kinds
secondary_kinds = map (λ (entry : ℕ × Kind). entry.1) http_kinds

unfoldable pub tertiary_kinds : List Kind
unfolding kind_invalid_request_error kind_auth_error kind_forbidden_error kind_not_found_error
    kind_context_error kind_context_value_not_found_error
tertiary_kinds =
    kind_invalid_request_error ∷ kind_auth_error ∷ kind_forbidden_error ∷ kind_not_found_error
    ∷ kind_context_error ∷ kind_context_value_not_found_error ∷ []

unfoldable pub package_kinds : List Kind
unfolding kind_validation_error kind_database_record_not_found_error kind_database_transaction_error
    kind_response_decode_error kind_unknown_response_error
package_kinds =
    kind_database_record_not_found_error ∷ kind_database_transaction_error
    ∷ kind_response_decode_error ∷ kind_unknown_response_error ∷ kind_validation_error ∷ []

-- The `init` functions, with the secondary kinds in the order that the map iteration takes.
unfoldable pub startup : List Kind → Result (Unit {0}) × Registry
startup secondary =
    register (primitive_kinds ++ (secondary ++ (tertiary_kinds ++ package_kinds))) empty
