-- ===== src/HttpClient/DecodeError.antt =====
-- `DecodeError` of httpclient/response.go: the local error for the response of an upstream service. The
-- trace line and the name of the caller that the errors package reads off the stack are arguments.
pub mod Laws
mod Tests
use Prim.Native.String.{◌++◌ as str_append}
use garlic.Common.{
  ℕ, String, Bool, true, false, not, Option, none, some, List, [], ◌∷◌, if◌then◌else◌,
}
use garlic.Errors.Kind.{Kind}
use garlic.Errors.Catalog.{kind_response_decode_error, kind_unknown_response_error}
use garlic.Errors.Registry.{Registry}
use garlic.Errors.Store.{M, pure, ◌>>=◌}
use garlic.Errors.ErrorT.{Err, ErrorT, as_error, Opt, raw, new, from}
use garlic.Errors.Dto.{Dto, decode_for}
use garlic.HttpClient.Diagnostic.{Capture}
use garlic.HttpClient.StatusKind.{status_kind, kind_with_status}
use garlic.HttpClient.Assembly.{is_error, no_capture, describe_body, response_metadata}
use garlic.HttpClient.Peer.{
  Bytes, Json, RawFields, parse_error_dto, capture_peer_string, captured_fields,
  unknown_kind_fields, render_received, safe_media_type,
}

-- What reading a body gives: the bytes that arrived, and the failure, if reading failed.
pub record Body : Type 0 where
  pub arrived : Bytes
  pub read_err : Option Err

-- A response, with the type that the media type parser reads in its header.
pub record Received : Type 0 where
  pub status : ℕ
  pub media_type : Option Bytes
  pub body : Option Body

-- `drainAndClose`: the body is gone.
abbrev pub closed : Received → Received
closed r = record r { body = none }

abbrev pub read_all : Option Body → Body
read_all none = record { arrived = []; read_err = none }
read_all (some body) = body

abbrev pub or_no_capture : Option Capture → Capture
or_no_capture none = no_capture
or_no_capture (some c) = c

abbrev pub failed : Option Err → Bool
failed none = false
failed (some err) = true

module _ (spare : ℕ → ℕ) (json : Json) (registry : Registry) (caller line : String) where
  abbrev pub media_type_text : Bytes → String
  media_type_text [] = ""
  media_type_text (b ∷ bytes) = json.text_of (b ∷ bytes)

  -- A DTO is read only of a body that arrived in full.
  abbrev pub error_dto_of : Body → Option (Dto × RawFields)
  error_dto_of body = elim body.read_err [
    | some err ↦ none
    | none ↦ parse_error_dto json body.arrived
  ]

  unfoldable pub unknown_kind : ℕ → RawFields → M Err
  unknown_kind status fields =
      let code = or_no_capture (capture_peer_string json fields.code) in
      do
        cause ← raw spare (status_kind status) "upstream returned an error status" []
        from spare (kind_with_status kind_unknown_response_error status) (as_error cause)
            (str_append "upstream returned error kind "
              (str_append (render_received json code) ", which is not registered here"))
            (Opt.context caller (unknown_kind_fields json status fields code) ∷ [])

  abbrev pub diagnostics : ℕ → Option Bytes → Capture → List Opt
  diagnostics status media_type snippet =
      Opt.details (response_metadata status (media_type_text (safe_media_type media_type)) snippet)
      ∷ Opt.context caller (captured_fields json "body" snippet)
      ∷ []

  -- The error for a body that is no DTO.
  unfoldable pub no_dto : ℕ → Option Bytes → Body → M Err
  no_dto status media_type body =
      let (snippet, message) = describe_body body.arrived (failed body.read_err) in
      elim body.read_err [
        | some err ↦
            from spare (status_kind status) err message (diagnostics status media_type snippet)
        | none ↦ do
          e ← new spare (status_kind status) message (diagnostics status media_type snippet) line
          pure (as_error e)
      ]

  unfoldable pub decode_failed : Received → M Err
  decode_failed r = elim (error_dto_of (read_all r.body)) [
    | none ↦ no_dto r.status r.media_type (read_all r.body)
    | some (dto, fields) ↦ do
      found ← decode_for registry dto r.status
      elim found [ some e ↦ pure (as_error e) | none ↦ unknown_kind r.status fields ]
  ]

  abbrev pub undecodable : String → M Err
  undecodable message = do
    e ← new spare kind_response_decode_error message [] line
    pure (as_error e)

  -- `DecodeError`, and the response that it leaves.
  unfoldable pub decode_error : Option Received → M (Err × Option Received)
  decode_error none = do e ← undecodable "response body is empty"; pure (e, none)
  decode_error (some r) = do
    e ←
        if not (is_error r.status)
        then undecodable "failed to decode a non-error response into error"
        else decode_failed r
    pure (e, some (closed r))
