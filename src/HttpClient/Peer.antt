-- ===== src/HttpClient/Peer.antt =====
-- What httpclient/response.go keeps of the identifiers and of the media type that a peer sends. Values of
-- the peer are bytes. The JSON decoder is an argument, as are `strconv.Quote` and the reading of bytes as
-- a text; the media type parser gives the type in its own form, or nothing.
use Prim.Native.String.{◌++◌ as str_append}
use garlic.Common.{
  ℕ, zero, suc, ◌-◌, String, Bool, true, false, not, ◌&&◌, ◌||◌, Option, none, some, List, [], ◌∷◌,
  ◌++◌, if◌then◌else◌, ltb, leb, ◌==◌, length, drop, decimal, str_eq,
}
use garlic.Errors.Store.{Table, text, num, flag}
use garlic.Errors.Dto.{Dto}
use garlic.HttpClient.Diagnostic.{Capture, max_diagnostic_bytes, decode_rune, capture_diagnostic}

abbrev pub Bytes : Type 0
Bytes = List ℕ

pub record RawFields : Type 0 where
  pub code : Bytes
  pub name : Bytes
  pub message : Bytes

pub record Envelope : Type 0 where
  pub error : Option String
  pub kind : Option String

-- What `json.Unmarshal` reads from a body, for each of the types that it is asked for, and what it
-- reads from a raw member as a text; nothing where it fails. `details` of the DTO is the address of a
-- map that it has allocated.
pub record Json : Type 0 where
  pub envelope : Bytes → Option Envelope
  pub dto : Bytes → Option Dto
  pub raw_fields : Bytes → Option RawFields
  pub string : Bytes → Option Bytes
  pub quote : Bytes → Bytes
  pub text_of : Bytes → String

-- Both core fields are there, and the kind is not empty.
abbrev pub has_core : Envelope → Bool
has_core e = elim e.error [
  | none ↦ false
  | some message ↦ elim e.kind [ none ↦ false | some kind ↦ not (str_eq kind "") ]
]

abbrev pub both : Option Dto → Option RawFields → Option (Dto × RawFields)
both none fields = none
both (some dto) none = none
both (some dto) (some fields) = some (dto, fields)

module _ (json : Json) where
  unfoldable pub parse_error_dto : Bytes → Option (Dto × RawFields)
  parse_error_dto body = elim (json.envelope body) [
    | none ↦ none
    | some e ↦ elim (has_core e) [
      | false ↦ none
      | true ↦ both (json.dto body) (json.raw_fields body)
    ]
  ]

-- The loop of `utf8.Valid`; the fuel is the length, since every round passes a byte.
unfoldable pub valid_from : ℕ → Bytes → Bool
valid_from zero bytes = length bytes == 0
valid_from (suc fuel) [] = true
valid_from (suc fuel) (b ∷ bytes) = elim (decode_rune (b ∷ bytes)) [
  | none ↦ false
  | some size ↦ valid_from fuel (drop size (b ∷ bytes))
]

unfoldable pub valid : Bytes → Bool
unfolding valid_from
valid bytes = valid_from (length bytes) bytes

abbrev pub first : Bytes → ℕ
first [] = 0
first (b ∷ bytes) = b

abbrev pub last : Bytes → ℕ
last [] = 0
last (b ∷ []) = b
last (b ∷ c ∷ bytes) = last (c ∷ bytes)

-- The length of the value alone.
abbrev pub unreadable : ℕ → Capture
unreadable n = record {
  text = [];
  length_of = n;
  truncated = ltb max_diagnostic_bytes n;
  readable = false;
}

module _ (json : Json) where
  unfoldable pub capture_peer_string : Bytes → Option Capture
  capture_peer_string raw =
      if ltb (length raw) 3 || not (first raw == 34) || not (last raw == 34)
      then none
      else if not (valid raw)
      then some (unreadable (length raw - 2))
      else elim (json.string raw) [ none ↦ none | some value ↦ some (capture_diagnostic value) ]

  -- `captured.text` under the name, where it is readable; its length and whether it was cut always.
  unfoldable pub captured_fields : String → Capture → Table
  captured_fields name c =
      (str_append name "_bytes", num c.length_of)
      ∷ (str_append name "_truncated", flag c.truncated)
      ∷ (if c.readable then (name, text (json.text_of c.text)) ∷ [] else [])

  abbrev pub captured : String → Option Capture → Table
  captured name none = []
  captured name (some c) = captured_fields name c

  unfoldable pub unknown_kind_fields : ℕ → RawFields → Capture → Table
  unknown_kind_fields status raw code =
      ("http_status", num status)
      ∷ (captured_fields "received_kind" code
          ++ captured "received_name" (capture_peer_string raw.name)
          ++ captured "received_message" (capture_peer_string raw.message))

  unfoldable pub render_received : Capture → String
  render_received c =
      if c.readable
      then json.text_of (capture_diagnostic (json.quote c.text)).text
      else str_append "<" (str_append (decimal c.length_of) " unreadable bytes>")

abbrev pub max_media_type_component_bytes : ℕ
max_media_type_component_bytes = 127

abbrev pub media_type_component : Bytes → Bool
media_type_component s = not (length s == 0) && leb (length s) max_media_type_component_bytes

-- `strings.Cut(s, "/")`
abbrev pub cut_slash : Bytes → Option (Bytes × Bytes)
cut_slash [] = none
cut_slash (b ∷ bytes) =
    if b == b'/'
    then some ([], bytes)
    else elim (cut_slash bytes) [ none ↦ none | some (before, behind) ↦ some (b ∷ before, behind) ]

abbrev pub two_components : Option (Bytes × Bytes) → Bool
two_components none = false
two_components (some (main_type, sub_type)) =
    media_type_component main_type && media_type_component sub_type

-- `safeMediaType`, from what `mime.ParseMediaType` gives.
unfoldable pub safe_media_type : Option Bytes → Bytes
safe_media_type none = []
safe_media_type (some media_type) = if two_components (cut_slash media_type) then media_type else []
