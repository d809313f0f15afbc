-- ===== src/Errors/Chain.antt =====
-- errors/utils.go and the readers of errors/errors.go and errors/headless.go: walks over an error
-- and the errors that it wraps.
pub mod Laws
pub mod Built
use Prim.Native.String.{◌++◌ as str_append}
use garlic.Common.{String, Bool, true, false, Option, none, some, if◌then◌else◌}
use garlic.Errors.Kind.{Kind, label, status_code, is}
use garlic.Errors.ErrorT.{
  Err, nil, error_t, headless, plain, wrapped, joined, Errs, done, more, ErrorT, as_error, is_nil,
}

-- The `Unwrap() error` of an error, nil if it has none.
abbrev pub unwrap : Err → Err
unwrap nil = nil
unwrap (error_t _ _ cause _ _) = cause
unwrap (headless _) = nil
unwrap (plain _) = nil
unwrap (wrapped _ inner) = inner
unwrap (joined _ _) = nil

-- The loop of `AsKind`.
unfoldable pub as_kind : Err → Kind → Option ErrorT
as_kind nil kind = none
as_kind (error_t k m c o p) kind =
    if is k kind
    then some (record { kind = k; message = m; cause = c; origin = o; parts = p })
    else as_kind c kind
as_kind (headless _) kind = none
as_kind (plain _) kind = none
as_kind (wrapped _ inner) kind = as_kind inner kind
as_kind (joined _ _) kind = none

unfoldable pub is_kind : Err → Kind → Bool
is_kind err kind = elim (as_kind err kind) [ none ↦ false | some _ ↦ true ]

-- `As` with a target of type `**ErrorT`: the standard library's depth-first search.
unfoldable mutual
  pub as_error_t : Err → Option ErrorT
  as_error_t nil = none
  as_error_t (error_t k m c o p) =
      some (record { kind = k; message = m; cause = c; origin = o; parts = p })
  as_error_t (headless _) = none
  as_error_t (plain _) = none
  as_error_t (wrapped _ inner) = as_error_t inner
  as_error_t (joined _ errs) = first_error_t errs

  pub first_error_t : Errs → Option ErrorT
  first_error_t done = none
  first_error_t (more err errs) = elim (as_error_t err) [
    | some e ↦ some e
    | none ↦ first_error_t errs
  ]

-- The loop of `Origin`.
unfoldable pub origin : Err → Err
origin nil = nil
origin (error_t _ _ c o _) = if is_nil o then origin c else o
origin (headless _) = nil
origin (plain _) = nil
origin (wrapped _ inner) = origin inner
origin (joined _ _) = nil

-- `CodeOf`: garlic errors and headless errors expose a code.
unfoldable pub code_of : Err → String
code_of nil = ""
code_of (error_t k _ _ _ _) = (label k).code
code_of (headless code) = code
code_of (plain _) = ""
code_of (wrapped _ _) = ""
code_of (joined _ _) = ""

unfoldable pub origin_code_of : Err → Option String
origin_code_of err = if is_nil (origin err) then none else some (code_of (origin err))

-- `Error()`
unfoldable pub error_text : Err → String
error_text nil = ""
error_text (error_t _ m c _ _) =
    if is_nil c then m else str_append m (str_append ": " (error_text c))
error_text (headless code) = code
error_text (plain t) = t
error_text (wrapped t _) = t
error_text (joined t _) = t
