-- ===== src/Errors/Dto.antt =====
-- errors/dto.go and `ErrorDTO` of errors/errors.go: the form in which an error crosses the wire.
pub mod Laws
use garlic.Common.{ℕ, String, Option, none, some, [], ltb, ◌==◌, not, ◌&&◌, if◌then◌else◌}
use garlic.Errors.Kind.{Kind, label, fqn, status_code, customize_status_code}
use garlic.Errors.Primitive.{kind_error}
use garlic.Errors.Registry.{Registry, lookup_by_code, get_by_code, ok, panic}
use garlic.Errors.Store.{M, pure, ◌>>=◌}
use garlic.Errors.ErrorT.{Err, ErrorT, as_garlic, is_nil, new_headless_error, new_error_t, raw}
use garlic.Errors.Chain.{code_of, error_text}

-- `Details` is the map that the error points to.
pub record Dto : Type 0 where
  pub name : String
  pub error : String
  pub code : String
  pub origin : String
  pub details : Option ℕ

unfoldable pub error_dto : ErrorT → Dto
error_dto e = record {
  name = fqn e.kind;
  error = e.message;
  code = (label e.kind).code;
  origin = code_of e.origin;
  details = e.parts.details;
}

module _ (spare : ℕ → ℕ) where
  -- `NewDTO`; a nil error has a nil DTO.
  unfoldable pub new_dto : Err → M (Option Dto)
  new_dto err = if is_nil err then pure none else elim (as_garlic err) [
    | some e ↦ pure (some (error_dto e))
    | none ↦ do e ← raw spare kind_error (error_text err) []; pure (some (error_dto e))
  ]

unfoldable pub decoded : Dto → Kind → M ErrorT
decoded dto kind = do
  e ← new_error_t kind dto.error (new_headless_error dto.origin)
  pure (record e { parts = record e.parts { details = dto.details } })

-- A code that is not registered is a panic.
unfoldable pub must_decode : Registry → Dto → M ErrorT
must_decode r dto s = elim (get_by_code dto.code r) [
  | panic _ ↦ none
  | ok kind ↦ decoded dto kind s
]

unfoldable pub decode : Registry → Dto → M (Option ErrorT)
decode r dto = elim (lookup_by_code dto.code r) [
  | none ↦ pure none
  | some kind ↦ do e ← decoded dto kind; pure (some e)
]

unfoldable pub repin : ℕ → ErrorT → ErrorT
repin status e =
    if ltb 0 status && not (status_code e.kind == status)
    then record e { kind = customize_status_code e.kind status }
    else e

unfoldable pub decode_for : Registry → Dto → ℕ → M (Option ErrorT)
decode_for r dto status = do
  found ← decode r dto
  elim found [ none ↦ pure none | some e ↦ pure (some (repin status e)) ]
