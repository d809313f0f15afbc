-- ===== src/Release/Pins.antt =====
-- `parseGoSum` of hack/check-go-release-age/main.go. What opening the file gives is an argument: a
-- failure, or the lines that the scanner delivers and how it ended.
pub mod Laws
pub mod Unique
use garlic.Common.{
  ℕ, ◌≡◌, Bool, true, false, ◌||◌, Option, none, some, List, [], ◌∷◌, ◌++◌, if◌then◌else◌, ◌⊎◌, inl,
  inr,
}
use garlic.Release.Text.{Text, text_eq, fields, trim_suffix}

pub record ModulePin : Type 0 where
  pub path : Text
  pub version : Text

abbrev pub go_mod : Text
go_mod = b'/' ∷ b'g' ∷ b'o' ∷ b'.' ∷ b'm' ∷ b'o' ∷ b'd' ∷ []

abbrev pub pin_of_fields : List Text → Option ModulePin
pin_of_fields [] = none
pin_of_fields (path ∷ []) = none
pin_of_fields (path ∷ version ∷ rest) =
    some (record { path = path; version = trim_suffix version go_mod })

-- The pin that a line names; a line of fewer than two fields is passed over.
unfoldable pub pin_of_line : Text → Option ModulePin
pin_of_line line = pin_of_fields (fields line)

unfoldable pub key : ModulePin → Text
key p = p.path ++ b'@' ∷ p.version

abbrev pub seen : Text → List Text → Bool
seen k [] = false
seen k (j ∷ ks) = text_eq j k || seen k ks

-- The body of the loop after the fields are known.
abbrev pub visit : Option ModulePin → List Text → List ModulePin → List Text × List ModulePin
visit none keys pins = (keys, pins)
visit (some p) keys pins =
    if seen (key p) keys then (keys, pins) else (key p ∷ keys, pins ++ p ∷ [])

unfoldable pub scan : List Text → List Text → List ModulePin → List ModulePin
scan [] keys pins = pins
scan (line ∷ lines) keys pins =
    let after = visit (pin_of_line line) keys pins in scan lines after.0 after.1

pub record Scanned : Type 0 where
  pub lines : List Text
  pub error : Option Text

unfoldable pub parse_go_sum : Text ⊎ Scanned → Text ⊎ List ModulePin
unfolding scan
parse_go_sum (inl failure) = inl failure
parse_go_sum (inr s) = elim s.error [ some failure ↦ inl failure | none ↦ inr (scan s.lines [] []) ]
