-- ===== src/Errors/Status/Laws.antt =====
-- What errors/status.go promises of the kind for an HTTP status.
use Prim.Native.Char.{code}
use Prim.Native.String.{◌++◌ as str_append}
use text.Mathlib.TextLemmas.{cons-append}
use garlic.Common.{
  ℕ, zero, suc, ◌+◌, ◌≤◌, ◌<◌, String, ◌≡◌, refl, ap, ◌∙◌, ◌≢◌, inl, inr, Bool, true, false, not,
  ◌&&◌, none, some, arith, str_eq, eq_iff, ltb, leb, if◌then◌else◌, Bool-cases, padded,
}
use garlic.Errors.Kind.{Kind, status_code, is}
use garlic.Errors.Primitive.{kind_user_error, kind_system_error}
use garlic.Errors.Status.Text.{status_text-range}
use garlic.Errors.Status.{
  status_text, class_for_status, http_kind, build_from, http_kinds, find, kind_for_status,
}

-- A status with a text.
abbrev pub is_standard : ℕ → Bool
is_standard status = not (str_eq (status_text status) "")

abbrev pub is_client : ℕ → Bool
is_client status = leb 400 status && ltb status 500

find-build_from :
    (rounds from s : ℕ)
    → find s (build_from rounds from) ≡ (
        if (leb from s && ltb s (from + rounds)) && is_standard s then some (http_kind s) else none)
unfolding find build_from
find-build_from zero from s = ground arith
find-build_from (suc rounds) from s = ground (arith, find-build_from rounds (from + 1) s)

is_standard_range : (s : ℕ) → is_standard s ≡ true → (100 ≤ s) × (s < 600)
is_standard_range s h = status_text-range s (λ e. ground (arith, eq_iff (status_text s) ""))

in_loop_range :
    {A : Type 0} (s : ℕ) (here away : A)
    → (if (leb 100 s && ltb s (100 + 500)) && is_standard s then here else away)
      ≡ (if is_standard s then here else away)
in_loop_range s here away = elim (Bool-cases (is_standard s)) [
  | inl standard ↦ let (low, high) = is_standard_range s standard in ground arith
  | inr other ↦ ground arith
]

-- The map holds exactly the standard statuses, each under its own kind.
find-http_kinds : (s : ℕ) → find s http_kinds ≡ (if is_standard s then some (http_kind s) else none)
unfolding http_kinds
find-http_kinds s = find-build_from 500 100 s ∙ in_loop_range s (some (http_kind s)) none

kind_for_status_lem :
    (s : ℕ) → kind_for_status s ≡ (if is_standard s then http_kind s else class_for_status s)
unfolding kind_for_status
kind_for_status_lem s = ground (arith, find-http_kinds s)

abbrev first_code : String → ℕ
first_code String.[] = 0
first_code (String.◌∷◌ c s) = code c

first_code-append : (s : String) → first_code (str_append "S" s) ≡ 83
first_code-append s = ap first_code (cons-append "S" "" s)

differs_by_first : (s t : String) → first_code s ≢ first_code t → str_eq s t ≡ false
differs_by_first s t ne = elim (Bool-cases (str_eq s t)) [
  | inl same ↦ absurd (ne (ap first_code ((eq_iff s t).0 same)))
  | inr other ↦ other
]

secondary_code : (s t : String) → first_code t ≡ 80 → str_eq (str_append "S" s) t ≡ false
secondary_code s t e =
    differs_by_first (str_append "S" s) t (λ same. omega (arith, first_code-append s))

-- What a kind reports and descends from.
abbrev Reads : Kind → ℕ → Bool → Type 0
Reads k status client =
    (status_code k ≡ status)
    × (is k kind_user_error ≡ client)
    × (is k kind_system_error ≡ not client)

class_for_status-Reads :
    (s : ℕ) → Reads (class_for_status s) (if is_client s then 400 else 500) (is_client s)
unfolding class_for_status status_code is
class_for_status-Reads s = elim (Bool-cases (is_client s)) [
  | inl yes_client ↦ rw yes_client (refl, refl, refl)
  | inr no_client ↦ rw no_client (refl, refl, refl)
]

http_kind-Reads : (s : ℕ) → 0 < s → Reads (http_kind s) s (is_client s)
unfolding http_kind status_code is
http_kind-Reads s pos =
    let (_, user, system) = class_for_status-Reads s in
    (
      ground arith,
      rw (secondary_code (padded 5 s) "P00001" refl) user,
      rw (secondary_code (padded 5 s) "P00002" refl) system,
    )

-- For every status: the kind reports the status itself if that is standard and the status of its
-- class if not, and it descends from UserError exactly for the 4xx statuses and from SystemError
-- exactly for the others.
pub kind_for_status_reports :
    (s : ℕ)
    → (status_code (kind_for_status s)
        ≡ (if is_standard s then s else if is_client s then 400 else 500))
      × (is (kind_for_status s) kind_user_error ≡ is_client s)
      × (is (kind_for_status s) kind_system_error ≡ not (is_client s))
kind_for_status_reports s = elim (Bool-cases (is_standard s)) [
  | inl standard ↦
      let (low, high) = is_standard_range s standard in
      rw (kind_for_status_lem, standard) (http_kind-Reads s (omega arith))
  | inr other ↦ rw (kind_for_status_lem, other) (class_for_status-Reads s)
]
