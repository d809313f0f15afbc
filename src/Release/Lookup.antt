-- ===== src/Release/Lookup.antt =====
-- `fetchInfo` of hack/check-go-release-age/main.go. The module proxy is an argument: its answer to an
-- address. The JSON decoder's result is a part of the answer.
use mathlib.Core.List.{reverse}
use garlic.Common.{ℕ, ◌*◌, [], ◌∷◌, ◌++◌, ◌==◌, take, if◌then◌else◌, ◌⊎◌, inl, inr}
use garlic.Release.Text.{Text, is_space, escape_path, trim_right_slashes}
use garlic.Release.Dates.{Moment, day}
use garlic.Release.Pins.{ModulePin}

pub record ProxyInfo : Type 0 where
  pub version : Text
  pub time : Moment

-- What `client.Do` gives: a failure, or a status, the bytes of the body and what they decode to.
pub data Answer : Type 0 where
  refused : Text → Answer
  answered : ℕ → Text → Text ⊎ ProxyInfo → Answer

pub data LookupError : Type 0 where
  not_answered : Text → LookupError
  http_status : ℕ → Text → LookupError
  undecodable : Text → LookupError
  empty_time : LookupError

-- `time.Time{}` is the start of the year 1.
abbrev pub zero_time : Moment
zero_time = 366 * day

abbrev drop_spaces : Text → Text
drop_spaces [] = []
drop_spaces (c ∷ s) = if is_space c then drop_spaces s else c ∷ s

-- `strings.TrimSpace`.
unfoldable pub trim_space : Text → Text
unfolding is_space
trim_space s = reverse (drop_spaces (reverse (drop_spaces s)))

abbrev slash_at_v : Text
slash_at_v = b'/' ∷ b'@' ∷ b'v' ∷ b'/' ∷ []

abbrev dot_info : Text
dot_info = b'.' ∷ b'i' ∷ b'n' ∷ b'f' ∷ b'o' ∷ []

unfoldable pub info_url : Text → ModulePin → Text
info_url proxy p =
    trim_right_slashes proxy
    ++ b'/' ∷ (escape_path p.path ++ slash_at_v ++ escape_path p.version ++ dot_info)

abbrev pub decoded : Text ⊎ ProxyInfo → LookupError ⊎ ProxyInfo
decoded (inl failure) = inl (undecodable failure)
decoded (inr info) = if info.time == zero_time then inl empty_time else inr info

unfoldable pub read_answer : Answer → LookupError ⊎ ProxyInfo
read_answer (refused failure) = inl (not_answered failure)
read_answer (answered status body info) =
    if status == 200 then decoded info else inl (http_status status (trim_space (take 512 body)))

unfoldable pub fetch_info : (Text → Answer) → Text → ModulePin → LookupError ⊎ ProxyInfo
fetch_info answer proxy p = read_answer (answer (info_url proxy p))
