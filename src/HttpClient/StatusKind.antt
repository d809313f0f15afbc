-- ===== src/HttpClient/StatusKind.antt =====
-- `kindWithStatus` and `statusKind` of httpclient/response.go: the kind of an error that stands for a
-- response of an upstream service.
pub mod Laws
use garlic.Common.{ℕ, ◌==◌, if◌then◌else◌}
use garlic.Errors.Kind.{Kind, status_code, customize_status_code}
use garlic.Errors.Status.{kind_for_status}

unfoldable pub kind_with_status : Kind → ℕ → Kind
kind_with_status kind status =
    if status_code kind == status then kind else customize_status_code kind status

unfoldable pub status_kind : ℕ → Kind
status_kind status = kind_with_status (kind_for_status status) status
