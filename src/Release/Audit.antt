-- ===== src/Release/Audit.antt =====
-- `run`, `fetchViolations` and `main` of hack/check-go-release-age/main.go. The proxy requests run in
-- parallel: the order in which they end is an argument. What is printed is left out, with the age in
-- days that only the printed table shows.
pub mod Laws
use garlic.Common.{
  ℕ, ◌+◌, ◌≡◌, Bool, true, false, Option, none, some, List, [], ◌∷◌, ltb, if◌then◌else◌, ◌⊎◌, inl,
  inr,
}
use garlic.Release.Text.{Text}
use garlic.Release.Dates.{Moment}
use garlic.Release.Pins.{ModulePin, Scanned, parse_go_sum}
use garlic.Release.Allowlist.{AllowlistEntry, Warning, File, load_allowlist, matches}
use garlic.Release.Lookup.{ProxyInfo, Answer, LookupError, fetch_info}

pub record Violation : Type 0 where
  pub pin : ModulePin
  pub published_at : Moment

pub record Found : Type 0 where
  pub violations : List Violation
  pub errs : List (ModulePin × LookupError)

-- `info.Time.After(cutoff)`, for the cutoff `now.Add(-minAge)`.
abbrev pub is_young : Moment → ℕ → ProxyInfo → Bool
is_young now min_age info = ltb now (info.time + min_age)

-- The body of a worker's loop after `fetchInfo`.
unfoldable pub record_result : Moment → ℕ → ModulePin → LookupError ⊎ ProxyInfo → Found → Found
record_result now min_age p (inl e) found = record found { errs = (p, e) ∷ found.errs }
record_result now min_age p (inr info) found =
    if is_young now min_age info
    then record found {
      violations = record { pin = p; published_at = info.time } ∷ found.violations;
    }
    else found

unfoldable pub fetch_violations :
    (ModulePin → LookupError ⊎ ProxyInfo) → Moment → ℕ → List ModulePin → Found
fetch_violations fetch now min_age [] = record { violations = []; errs = [] }
fetch_violations fetch now min_age (p ∷ ps) =
    record_result now min_age p (fetch p) (fetch_violations fetch now min_age ps)

-- The loop that drops what the allowlist lets through.
unfoldable pub filtered : List AllowlistEntry → Moment → List ModulePin → List ModulePin
filtered allow now [] = []
filtered allow now (p ∷ ps) =
    let rest = filtered allow now ps in if matches allow p now then rest else p ∷ rest

pub data RunError : Type 0 where
  parse_failed : Text → RunError
  allowlist_failed : Text → RunError
  incomplete : List (ModulePin × LookupError) → RunError
  err_violations : List Violation → RunError

abbrev pub verdict : List (ModulePin × LookupError) → List Violation → Option RunError
verdict (e ∷ errs) violations = some (incomplete (e ∷ errs))
verdict [] [] = none
verdict [] (v ∷ violations) = some (err_violations (v ∷ violations))

-- What `run` reads and asks.
pub record World : Type 0 where
  pub go_sum : Text ⊎ Scanned
  pub allowlist_file : File
  pub unmarshal : Text → Text ⊎ List AllowlistEntry
  pub answer : Text → Answer
  pub loaded_at : Moment
  pub now : Moment
  pub finished : List ModulePin → List ModulePin

unfoldable pub audit : World → Text → ℕ → List AllowlistEntry → List ModulePin → Option RunError
audit w proxy min_age allow pins =
    let found =
      fetch_violations (fetch_info w.answer proxy) w.now min_age
        (w.finished (filtered allow w.now pins)) in
    verdict found.errs found.violations

abbrev pub with_allowlist :
    World
    → Text
    → ℕ
    → List ModulePin
    → Text ⊎ (List AllowlistEntry × List Warning)
    → Option RunError
with_allowlist w proxy min_age pins (inl failure) = some (allowlist_failed failure)
with_allowlist w proxy min_age pins (inr (allow, warned)) = audit w proxy min_age allow pins

abbrev pub with_pins : World → Text → ℕ → Text ⊎ List ModulePin → Option RunError
with_pins w proxy min_age (inl failure) = some (parse_failed failure)
with_pins w proxy min_age (inr pins) =
    with_allowlist w proxy min_age pins (load_allowlist w.unmarshal w.loaded_at w.allowlist_file)

unfoldable pub run : World → Text → ℕ → Option RunError
run w proxy min_age = with_pins w proxy min_age (parse_go_sum w.go_sum)

-- `main`: 1 for violations, 2 for every other error.
abbrev pub exit_code : Option RunError → ℕ
exit_code none = 0
exit_code (some (err_violations vs)) = 1
exit_code (some (parse_failed failure)) = 2
exit_code (some (allowlist_failed failure)) = 2
exit_code (some (incomplete errs)) = 2
