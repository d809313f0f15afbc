-- ===== src/Release/Dates.antt =====
-- The dates of hack/check-go-release-age/main.go: `time.Parse` with the layout 2006-01-02. A moment is the
-- number of nanoseconds since the start of the year 0 in UTC.
use garlic.Common.{
  ℕ, ◌+◌, ◌-◌, ◌*◌, ◌/◌, ◌%◌, Bool, true, not, ◌&&◌, ◌||◌, Option, none, some, [], ◌∷◌, ◌==◌, leb,
  ltb, if◌then◌else◌,
}
use garlic.Release.Text.{Text}

abbrev pub Moment : Type 0
Moment = ℕ

abbrev pub is_digit : ℕ → Bool
is_digit c = leb b'0' c && leb c b'9'

abbrev pub all_digits : Text → Bool
all_digits [] = true
all_digits (c ∷ s) = is_digit c && all_digits s

abbrev pub number_from : ℕ → Text → ℕ
number_from n [] = n
number_from n (c ∷ s) = number_from (10 * n + (c - 48)) s

abbrev pub is_leap : ℕ → Bool
is_leap year = (year % 4 == 0) && (not (year % 100 == 0) || (year % 400 == 0))

abbrev pub days_in : ℕ → ℕ → ℕ
days_in month year =
    if month == 2
    then (if is_leap year then 29 else 28)
    else if month == 4 || month == 6 || month == 9 || month == 11
    then 30
    else 31

-- Days of the year before the month.
abbrev pub days_before : ℕ → ℕ → ℕ
days_before month year =
    (if ltb 1 month then 31 else 0)
    + (if ltb 2 month then days_in 2 year else 0)
    + (if ltb 3 month then 31 else 0)
    + (if ltb 4 month then 30 else 0)
    + (if ltb 5 month then 31 else 0)
    + (if ltb 6 month then 30 else 0)
    + (if ltb 7 month then 31 else 0)
    + (if ltb 8 month then 31 else 0)
    + (if ltb 9 month then 30 else 0)
    + (if ltb 10 month then 31 else 0)
    + (if ltb 11 month then 30 else 0)

-- Days before the year: the year 0 is a leap year.
abbrev pub years_before : ℕ → ℕ
years_before year = 365 * year + (year + 3) / 4 - (year + 99) / 100 + (year + 399) / 400

abbrev pub day : ℕ
day = 24 * 3600 * 1000000000

abbrev pub date : ℕ → ℕ → ℕ → Option Moment
date year month d =
    if leb 1 month && leb month 12 && leb 1 d && leb d (days_in month year)
    then some (day * (years_before year + days_before month year + (d - 1)))
    else none

unfoldable pub parse_date : Text → Option Moment
parse_date (y1 ∷ y2 ∷ y3 ∷ y4 ∷ m ∷ mo1 ∷ mo2 ∷ n ∷ d1 ∷ d2 ∷ []) =
    if all_digits (y1 ∷ y2 ∷ y3 ∷ y4 ∷ mo1 ∷ mo2 ∷ d1 ∷ d2 ∷ []) && (m == b'-') && (n == b'-')
    then date (number_from 0 (y1 ∷ y2 ∷ y3 ∷ y4 ∷ [])) (number_from 0 (mo1 ∷ mo2 ∷ []))
        (number_from 0 (d1 ∷ d2 ∷ []))
    else none
parse_date _ = none
