-- ===== src/Release/Allowlist.antt =====
-- `loadAllowlist` and `allowlist.matches` of hack/check-go-release-age/main.go. The YAML parser is a
-- third-party package and an argument, as is what reading the file gives.
pub mod Laws
use garlic.Common.{
  ℕ, ◌<◌, ◌≡◌, Bool, true, false, not, ◌&&◌, Option, none, some, List, [], ◌∷◌, ltb, if◌then◌else◌,
  ◌⊎◌, inl, inr,
}
use garlic.Release.Text.{Text, text_eq}
use garlic.Release.Dates.{Moment, parse_date}
use garlic.Release.Pins.{ModulePin}

pub record AllowlistEntry : Type 0 where
  pub path : Text
  pub version : Text
  pub reason : Text
  pub approved_by : Text
  pub added : Text
  pub expires : Text

pub data Warning : Type 0 where
  no_expiry : AllowlistEntry → Warning
  unparseable : AllowlistEntry → Warning
  expired : AllowlistEntry → Warning

abbrev pub past : Moment → Moment → Bool
past now expiry = ltb expiry now

abbrev pub warning_at : AllowlistEntry → Moment → Option Moment → Option Warning
warning_at e now none = some (unparseable e)
warning_at e now (some expiry) = if past now expiry then some (expired e) else none

-- The body of the loop of `loadAllowlist`.
unfoldable pub warning_of : Moment → AllowlistEntry → Option Warning
warning_of now e =
    if text_eq e.expires [] then some (no_expiry e) else warning_at e now (parse_date e.expires)

abbrev pub put : Option Warning → List Warning → List Warning
put none ws = ws
put (some w) ws = w ∷ ws

unfoldable pub warnings : Moment → List AllowlistEntry → List Warning
warnings now [] = []
warnings now (e ∷ es) = put (warning_of now e) (warnings now es)

pub data File : Type 0 where
  not_exist : File
  unreadable : Text → File
  content : Text → File

abbrev pub loaded :
    Moment → Text ⊎ List AllowlistEntry → Text ⊎ (List AllowlistEntry × List Warning)
loaded now (inl failure) = inl failure
loaded now (inr entries) = inr (entries, warnings now entries)

-- A file that does not exist allows nothing and is no error.
unfoldable pub load_allowlist :
    (Text → Text ⊎ List AllowlistEntry)
    → Moment
    → File
    → Text ⊎ (List AllowlistEntry × List Warning)
load_allowlist unmarshal now not_exist = inr ([], [])
load_allowlist unmarshal now (unreadable failure) = inl failure
load_allowlist unmarshal now (content raw) = loaded now (unmarshal raw)

abbrev pub lapsed : Moment → Option Moment → Bool
lapsed now none = true
lapsed now (some expiry) = past now expiry

-- An entry of no version is for every version of its module.
unfoldable pub matches : List AllowlistEntry → ModulePin → Moment → Bool
matches [] p now = false
matches (e ∷ es) p now =
    let rest = matches es p now in
    if not (text_eq e.path p.path)
    then rest
    else if not (text_eq e.version []) && not (text_eq e.version p.version)
    then rest
    else if lapsed now (parse_date e.expires)
    then rest
    else true
