-- ===== src/Release/Tests.antt =====
-- Runs of the functions of hack/check-go-release-age/main.go.
use mathlib.Core.List.Permᴰ
use Prim.Native.Char.{code}
use Prim.Native.String.{String}
use garlic.Common.{
  ◌*◌, ◌≡◌, ◌↔◌, inr, refl, true, false, ◌&&◌, some, none, List, [], ◌∷◌, leb, All, arith,
}
use garlic.Release.Text.{Text, fields, trim_suffix, escape_path}
use garlic.Release.Text.Laws.{unescape, unescape-escape_path}
use garlic.Release.Dates.{Moment, day, parse_date}
use garlic.Release.Pins.{ModulePin, pin_of_line, key, parse_go_sum}
use garlic.Release.Pins.Laws.{named}
use garlic.Release.Pins.Unique.{Found, Distinct, parse_go_sum-Distinct}
use garlic.Release.Allowlist.{
  AllowlistEntry, content, warning_of, warnings, load_allowlist, matches,
}
use garlic.Release.Allowlist.Laws.{Names, Any, matches_iff}
use garlic.Release.Lookup.{Answer, answered, fetch_info, read_answer}
use garlic.Release.Audit.{World, audit, run, exit_code, filtered, fetch_violations, record_result}
use garlic.Release.Audit.Laws.{IsKnown, IsFine, run-exit_code}

abbrev text : String → Text
text String.[] = []
text (String.◌∷◌ c s) = code c ∷ text s

date_2026 : parse_date (text "2026-07-01") ≡ some (day * 740163)
unfolding parse_date
date_2026 = refl

date_leap : parse_date (text "2024-02-29") ≡ some (day * 739310)
unfolding parse_date
date_leap = refl

date_not_leap : parse_date (text "2023-02-29") ≡ none
unfolding parse_date
date_not_leap = refl

fields_spaced : fields (text " a\tb  c ") ≡ text "a" ∷ text "b" ∷ text "c" ∷ []
unfolding fields
fields_spaced = refl

unescape-escape_path_example :
    (unescape (escape_path (text "a/Bc")) ≡ text "a/Bc")
    × All (λ c. (leb b'A' c && leb c b'Z') ≡ false) (escape_path (text "a/Bc"))
unescape-escape_path_example = unescape-escape_path (text "a/Bc") (omega arith)

-- Two lines for one module and version.
abbrev lines : List Text
lines = text "x v1 h1:a" ∷ text "x v1/go.mod h1:b" ∷ text "y v2 h1:c" ∷ []

abbrev x_pin : ModulePin
x_pin = record { path = text "x"; version = text "v1" }

abbrev y_pin : ModulePin
y_pin = record { path = text "y"; version = text "v2" }

named_lines : named lines ≡ x_pin ∷ x_pin ∷ y_pin ∷ []
unfolding named pin_of_line fields trim_suffix
named_lines = refl

parsed_lines :
    parse_go_sum (inr (record { lines = lines; error = none })) ≡ inr (x_pin ∷ y_pin ∷ [])
unfolding parse_go_sum pin_of_line fields trim_suffix key
parsed_lines = refl

parse_go_sum-Distinct_example :
    (ps : List ModulePin) × (parse_go_sum (inr (record { lines = lines; error = none })) ≡ inr ps)
    × Distinct ps
    × ((p : ModulePin) → Found p ps ↔ Found p (named lines))
unfolding named pin_of_line fields trim_suffix
parse_go_sum-Distinct_example = parse_go_sum-Distinct lines (omega arith)

-- An exception for every version of x until July.
abbrev entry : AllowlistEntry
entry = record {
  path = text "x";
  version = [];
  reason = text "fix";
  approved_by = text "ops";
  added = text "2026-06-01";
  expires = text "2026-07-01";
}

abbrev june : Moment
june = day * 740153

matches_iff_example :
    (matches (entry ∷ []) x_pin june ≡ true)
    ↔ Any (λ e. Names x_pin e × (warning_of june e ≡ none)) (entry ∷ [])
matches_iff_example = matches_iff (entry ∷ []) x_pin june

abbrev answer : Text → Answer
answer url = answered 200 [] (inr (record { version = text "v"; time = day * 700000 }))

abbrev world : World
world = record {
  go_sum = inr (record { lines = lines; error = none });
  allowlist_file = content (text "exclude");
  unmarshal = λ _. inr (entry ∷ []);
  answer = answer;
  loaded_at = june;
  now = june;
  finished = λ l. l;
}

loaded_entry :
    load_allowlist world.unmarshal world.loaded_at world.allowlist_file ≡ inr (entry ∷ [], [])
unfolding load_allowlist warnings warning_of parse_date
loaded_entry = refl

run-exit_code_example :
    ((exit_code (run world (text "p") (7 * day)) ≡ 0)
      ↔ All (IsFine world (text "p") (7 * day) (entry ∷ [])) (x_pin ∷ y_pin ∷ []))
    × ((exit_code (run world (text "p") (7 * day)) ≡ 1) ↔ (
        All (IsKnown world (text "p") (7 * day) (entry ∷ [])) (x_pin ∷ y_pin ∷ [])
        × (All (IsFine world (text "p") (7 * day) (entry ∷ [])) (x_pin ∷ y_pin ∷ []) → ⊥)))
run-exit_code_example =
    run-exit_code world (text "p") (7 * day) (entry ∷ []) (x_pin ∷ y_pin ∷ []) []
      (λ l. Permᴰ.refl l) parsed_lines loaded_entry

run_passes : exit_code (run world (text "p") (7 * day)) ≡ 0
unfolding run audit filtered matches fetch_violations record_result fetch_info read_answer
    parse_date
run_passes = rw (parsed_lines, loaded_entry) refl
