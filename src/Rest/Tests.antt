-- ===== src/Rest/Tests.antt =====
-- Concrete responses and handlers of the package rest, and what its theorems say of them.
use garlic.Common.{◌↔◌, true, insert, ℕ, String, ◌≡◌, refl, Option, none, some, [], ◌∷◌}
use garlic.Errors.Kind.{Kind, child, is, status_code}
use garlic.Errors.Primitive.{declared, kind_user_error, kind_system_error}
use garlic.Errors.Store.{M, fresh}
use garlic.Errors.ErrorT.{Err, nil, wrapped, ErrorT, as_error, is_nil, no_parts}
use garlic.Errors.Chain.{as_error_t}
use garlic.Errors.Dto.{Dto}
use garlic.Rest.{Response, Writer, Entry, Level, unused, write_response, write_error, handler}
use garlic.Rest.Laws.{
  write_error-user, Added, hinted, hint_table, sanitized, write_error-system, write_error-same,
}
use garlic.Rest.Handlers.{body_after, handler-error}
use garlic.Errors.Chain.Laws.{InChain}

abbrev spare : ℕ → ℕ
spare n = n

abbrev unknown : Response Dto
unknown = record {
  status_code = 500;
  payload = record { name = ""; error = "unknown"; code = ""; origin = ""; details = none };
}

abbrev error_of : Kind → String → ErrorT
error_of kind message = record {
  kind = kind;
  message = message;
  cause = nil;
  origin = nil;
  parts = no_parts;
}

abbrev missing : ErrorT
missing =
    error_of (child (declared "MissingError" "T00001" "Nothing is there." 404) kind_user_error)
      "no such user"

abbrev broken : ErrorT
broken = error_of kind_system_error "pool at 10.0.0.5 is full"

abbrev overloaded : ErrorT
overloaded = error_of kind_system_error "password table is locked"

abbrev no_json : Dto → Option String
no_json dto = none

write_error-same_example :
    write_error spare unknown (as_error broken) fresh
    ≡ write_error spare unknown (wrapped "start" (as_error overloaded)) fresh
unfolding as_error_t is
write_error-same_example =
    write_error-same spare unknown (as_error broken) (wrapped "start" (as_error overloaded)) broken
      overloaded fresh refl refl refl refl

write_error-system_example :
    (write_error spare unknown (as_error broken) fresh
      ≡ some (
        write_response (status_code kind_system_error) (sanitized kind_system_error 0),
        hinted fresh,
      ))
    × Added fresh 0 hint_table (hinted fresh)
unfolding as_error_t is
write_error-system_example =
    write_error-system spare unknown (as_error broken) fresh broken refl refl

abbrev failing : Writer → M (Writer × Err)
failing w s = some ((w, as_error missing), s)

handler-error_example :
    (out : Writer) × (entry : Entry) × (handler spare unknown no_json failing unused fresh
      ≡ some ((out, entry ∷ []), fresh))
    × (out.sent ≡ some (status_code missing.kind, ("Content-Type", "application/json") ∷ []))
    × (out.body ≡ body_after (status_code missing.kind) none "")
    × (entry.err ≡ as_error missing)
    × ((entry.level ≡ Level.warn)
        ↔ ((e : ErrorT) × InChain e (as_error missing) × (is e.kind kind_user_error ≡ true)))
unfolding as_error_t is is_nil write_response status_code insert
handler-error_example =
    handler-error spare unknown no_json failing unused fresh refl refl
      (write_error-user spare unknown (as_error missing) fresh missing refl refl) refl refl refl
