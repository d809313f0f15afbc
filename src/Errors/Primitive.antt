-- ===== src/Errors/Primitive.antt =====
-- errors/common.go: the primitive kinds, the roots of the hierarchy.
use garlic.Common.{ℕ, String, false}
use garlic.Errors.Kind.{Kind, Label, root, child, http_status_not_defined}

abbrev pub declared : String → String → String → ℕ → Label
declared name code description status = record {
  name = name;
  code = code;
  description = description;
  http_status_code = status;
  custom_status = false;
}

abbrev pub kind_error : Kind
kind_error = root (
    declared "Error" "P00000" "Any error that has not been mapped in the application."
      http_status_not_defined)

abbrev pub kind_user_error : Kind
kind_user_error =
    child
      (declared "UserError" "P00001" "Any error that was caused by some incorrect user action." 400)
      kind_error

abbrev pub kind_system_error : Kind
kind_system_error =
    child
      (declared "SystemError" "P00002"
        "Any error that was caused by some unexpected system failure." 500)
      kind_error
