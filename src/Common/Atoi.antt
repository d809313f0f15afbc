-- ===== src/Common/Atoi.antt =====
-- strconv's `Atoi` on 64-bit integers.
use Prim.Native.Char.{code}
use Prim.Native.Nat.{ℕ, ◌+◌, ◌-◌, ◌*◌, ◌^◌}
use Prim.Native.String.{String}
use mathlib.Core.Bool.{◌&&◌}
use mathlib.Core.Option.{Option, none, some}
use text.Mathlib.Text.{◌==◌ as str_eq}
use garlic.Common.Tests.{ltb, leb, ◌==◌, if◌then◌else◌}

-- The digits of `strconv.Atoi`, from the value read so far.
unfoldable pub digits : ℕ → String → Option ℕ
digits n String.[] = some n
digits n (String.◌∷◌ c s) =
    let rest = digits (10 * n + (code c - 48)) s in
    if leb 48 (code c) && leb (code c) 57 then rest else none

-- A text without a sign that is no number, or too large for an int64, is an error.
unfoldable pub unsigned : String → Option ℕ
unsigned s = if str_eq s "" then none else digits 0 s

-- What `Atoi` returns: no integer, or an integer by its sign and size.
pub data Parsed : Type 0 where
  invalid : Parsed
  natural negative : ℕ → Parsed

unfoldable pub in_range : Option ℕ → Parsed
in_range none = invalid
in_range (some n) = if ltb n (2 ^ 63) then natural n else invalid

-- `-0` is zero.
unfoldable pub negated : Option ℕ → Parsed
negated none = invalid
negated (some n) = if n == 0 then natural 0 else if leb n (2 ^ 63) then negative n else invalid

unfoldable pub atoi : String → Parsed
atoi String.[] = invalid
atoi (String.◌∷◌ c s) =
    if code c == 45
    then negated (unsigned s)
    else if code c == 43
    then in_range (unsigned s)
    else in_range (unsigned (String.◌∷◌ c s))
