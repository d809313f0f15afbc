-- ===== src/Errors/Status.antt =====
-- errors/status.go: one secondary kind for each standard HTTP status, and the kind for a status.
mod Text
pub mod Laws
unfoldable pub use Text.{status_text}
use Prim.Native.String.{◌++◌ as str_append}
use garlic.Common.{
  ℕ, zero, suc, ◌+◌, String, Bool, ◌&&◌, Option, none, some, List, [], ◌∷◌, str_eq, decimal, padded,
  ltb, leb, ◌==◌, if◌then◌else◌,
}
use garlic.Errors.Kind.{Kind, child}
use garlic.Errors.Primitive.{declared, kind_user_error, kind_system_error}

unfoldable pub class_for_status : ℕ → Kind
class_for_status status =
    if leb 400 status && ltb status 500 then kind_user_error else kind_system_error

-- The kind that `buildHTTPKinds` makes for a standard status.
http_kind : ℕ → Kind
http_kind status =
    child
      (declared (str_append "HTTP" (str_append (decimal status) "Error"))
        (str_append "S" (padded 5 status)) (status_text status) status)
      (class_for_status status)

-- The loop of `buildHTTPKinds`, over the rounds that are left; the map is keyed by status.
build_from : ℕ → ℕ → List (ℕ × Kind)
build_from zero status = []
build_from (suc rounds) status =
    let kinds = build_from rounds (status + 1) in
    if str_eq (status_text status) "" then kinds else (status, http_kind status) ∷ kinds

unfoldable pub http_kinds : List (ℕ × Kind)
unfolding build_from http_kind decimal padded status_text class_for_status
http_kinds = build_from 500 100

-- `httpKinds[status]`
unfoldable pub find : ℕ → List (ℕ × Kind) → Option Kind
find status [] = none
find status ((s, k) ∷ more) = if s == status then some k else find status more

unfoldable pub kind_for_status : ℕ → Kind
kind_for_status status = elim (find status http_kinds) [
  | none ↦ class_for_status status
  | some kind ↦ kind
]
