-- ===== src/Common/Decimal.antt =====
-- fmt's `%d` and zero padding, on natural numbers. A number has at most as many digits as itself, but
-- for zero, so the fuel `n` is enough for the digits before the last.
use Prim.Native.Nat.{ℕ, zero, suc, ◌-◌, ◌/◌, ◌%◌}
use Prim.Native.String.{String, count, ◌++◌}
use mathlib.Core.Option.{none, some}
use mathlib.Core.List.{List, [], ◌∷◌}
use garlic.Common.Lists.{get_elem?}
use garlic.Common.Tests.{ltb, if◌then◌else◌}

abbrev digit_texts : List String
digit_texts = "0" ∷ "1" ∷ "2" ∷ "3" ∷ "4" ∷ "5" ∷ "6" ∷ "7" ∷ "8" ∷ "9" ∷ []

last_digit : ℕ → String
last_digit n = elim (get_elem? digit_texts (n % 10)) [ none ↦ "" | some d ↦ d ]

-- All digits of a positive number, none of zero.
leading : ℕ → ℕ → String
unfolding last_digit
leading zero n = ""
leading (suc fuel) n =
    let before = leading fuel (n / 10) in if ltb 0 n then before ++ last_digit n else ""

unfoldable pub decimal : ℕ → String
unfolding leading last_digit
decimal n = leading n (n / 10) ++ last_digit n

zeros : ℕ → String
zeros zero = ""
zeros (suc n) = "0" ++ zeros n

-- `%0<width>d`
unfoldable pub padded : ℕ → ℕ → String
unfolding zeros decimal
padded width n = zeros (width - count (decimal n)) ++ decimal n
