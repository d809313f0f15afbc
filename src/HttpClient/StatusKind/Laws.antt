-- ===== src/HttpClient/StatusKind/Laws.antt =====
-- Which status and which class the kind for an upstream status has.
use garlic.Common.{ℕ, ◌<◌, ◌≡◌, ◌∙◌, inl, inr, not, arith, ◌==◌, ==_iff, Bool-cases}
use garlic.Errors.Kind.{Kind, status_code, is}
use garlic.Errors.Kind.Laws.{SameButStatus, SameButStatus-refl, customize_status_code_lem}
use garlic.Errors.Primitive.{kind_user_error, kind_system_error}
use garlic.Errors.Status.{kind_for_status}
use garlic.Errors.Status.Laws.{is_client, kind_for_status_reports}
use garlic.HttpClient.StatusKind.{kind_with_status, status_kind}

pub kind_with_status_lem :
    (kind : Kind) (status : ℕ)
    → 0 < status
    → (status_code (kind_with_status kind status) ≡ status)
      × SameButStatus (kind_with_status kind status) kind
unfolding kind_with_status
kind_with_status_lem kind status pos = elim (Bool-cases (status_code kind == status)) [
  | inl same ↦ rw same (ground (arith, ==_iff (status_code kind) status), SameButStatus-refl kind)
  | inr apart ↦
      let (code, same) = customize_status_code_lem kind status in
      rw apart (ground (arith, code), same)
]

-- For every positive status of a response, standard or not, the kind reports exactly that status, and
-- it is a user kind exactly for the 4xx statuses and a system kind exactly for the others.
pub status_kind_lem :
    (status : ℕ)
    → 0 < status
    → (status_code (status_kind status) ≡ status)
      × (is (status_kind status) kind_user_error ≡ is_client status)
      × (is (status_kind status) kind_system_error ≡ not (is_client status))
unfolding status_kind
status_kind_lem status pos =
    let (code, same) = kind_with_status_lem (kind_for_status status) status pos in
    let (_, user, system) = kind_for_status_reports status in
    (code, same.matches_same kind_user_error ∙ user, same.matches_same kind_system_error ∙ system)
