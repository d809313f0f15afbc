-- ===== src/Errors/Kind.antt =====
-- errors/kind.go: the kinds of errors and their hierarchy. A kind is immutable once it is built, so
-- the pointer `Parent` is the parent itself; statuses are the non-negative ones.
pub mod Laws
use Prim.Native.String.{◌++◌ as str_append}
use garlic.Common.{ℕ, String, Bool, true, str_eq, ◌==◌, if◌then◌else◌}

abbrev pub kind_fqn_separator : String
kind_fqn_separator = "::"

abbrev pub http_status_not_defined : ℕ
http_status_not_defined = 0

-- The fields of `Kind` but `Parent`.
pub record Label : Type 0 where
  pub name : String
  pub code : String
  pub description : String
  pub http_status_code : ℕ
  pub custom_status : Bool

-- A root has a nil `Parent`.
pub data Kind : Type 0 where
  root : Label → Kind
  child : Label → Kind → Kind

abbrev pub label : Kind → Label
label (root l) = l
label (child l p) = l

abbrev pub relabel : Kind → Label → Kind
relabel (root _) l = root l
relabel (child _ p) l = child l p

unfoldable pub fqn : Kind → String
fqn (root l) = l.name
fqn (child l p) = str_append l.name (str_append kind_fqn_separator (fqn p))

unfoldable pub status_code : Kind → ℕ
status_code (root l) =
    if l.http_status_code == http_status_not_defined then 500 else l.http_status_code
status_code (child l p) =
    if l.http_status_code == http_status_not_defined then status_code p else l.http_status_code

unfoldable pub customize_status_code : Kind → ℕ → Kind
customize_status_code k code =
    if code == 0
    then k
    else relabel k (record (label k) { http_status_code = code; custom_status = true })

unfoldable pub is : Kind → Kind → Bool
is (root l) other = str_eq l.code (label other).code
is (child l p) other = if str_eq l.code (label other).code then true else is p other
