-- ===== src/HttpClient/Diagnostic.antt =====
-- The bounded diagnostics of httpclient/response.go: a value that a peer sent, as its bytes, is kept up
-- to a limit and cut between runes. The text of a capture is its bytes.
pub mod Runes
pub mod Laws
use garlic.Common.{
  ℕ, zero, suc, ◌+◌, Bool, true, false, ◌&&◌, Option, none, some, List, [], ◌∷◌, if◌then◌else◌, ltb,
  leb, ◌==◌, length, take, drop,
}

abbrev pub max_diagnostic_bytes : ℕ
max_diagnostic_bytes = 4096

abbrev pub between : ℕ → ℕ → ℕ → Bool
between low high b = leb low b && leb b high

-- What the first byte of a longer rune says: how many bytes follow, and the range of the next.
pub record Lead : Type 0 where
  pub more : ℕ
  pub low : ℕ
  pub high : ℕ

abbrev lead_of : ℕ → ℕ → ℕ → Option Lead
lead_of more low high = some (record { more = more; low = low; high = high })

unfoldable pub lead : ℕ → Option Lead
lead b =
    if between 194 223 b
    then lead_of 1 128 191
    else if b == 224
    then lead_of 2 160 191
    else if b == 237
    then lead_of 2 128 159
    else if between 225 239 b
    then lead_of 2 128 191
    else if b == 240
    then lead_of 3 144 191
    else if between 241 243 b
    then lead_of 3 128 191
    else if b == 244
    then lead_of 3 128 143
    else none

-- Whether so many continuation bytes follow, the first in a range of its own.
unfoldable pub continued : ℕ → ℕ → ℕ → List ℕ → Bool
continued zero low high bytes = true
continued (suc n) low high [] = false
continued (suc n) low high (b ∷ bytes) = between low high b && continued n 128 191 bytes

unfoldable pub decode_long : Option Lead → List ℕ → Option ℕ
decode_long none bytes = none
decode_long (some l) bytes = if continued l.more l.low l.high bytes then some (suc l.more) else none

-- The size of the rune that `utf8.DecodeRune` reads, nothing where it reports an invalid one.
unfoldable pub decode_rune : List ℕ → Option ℕ
decode_rune [] = none
decode_rune (b ∷ bytes) = if ltb b 128 then some 1 else decode_long (lead b) bytes

-- The loop of `boundedPrefix`, to the end that it reaches.
unfoldable pub bounded_end : ℕ → ℕ → List ℕ → Option ℕ
bounded_end zero end value = some end
bounded_end (suc fuel) end value = elim (ltb end (length value) && ltb end max_diagnostic_bytes) [
  | false ↦ some end
  | true ↦ elim (decode_rune (drop end value)) [
    | none ↦ none
    | some size ↦ elim (ltb max_diagnostic_bytes (end + size)) [
      | true ↦ some end
      | false ↦ bounded_end fuel (end + size) value
    ]
  ]
]

-- The fuel is the length: every round passes a byte.
unfoldable pub bounded_prefix : List ℕ → Option (List ℕ)
bounded_prefix value = elim (bounded_end (length value) 0 value) [
  | none ↦ none
  | some end ↦ some (take end value)
]

pub record Capture : Type 0 where
  pub text : List ℕ
  pub length_of : ℕ
  pub truncated : Bool
  pub readable : Bool

unfoldable pub capture_diagnostic : List ℕ → Capture
capture_diagnostic value = elim (bounded_prefix value) [
  | none ↦ record {
    text = [];
    length_of = length value;
    truncated = ltb max_diagnostic_bytes (length value);
    readable = false;
  }
  | some prefix ↦ record {
    text = prefix;
    length_of = length value;
    truncated = ltb (length prefix) (length value);
    readable = true;
  }
]
