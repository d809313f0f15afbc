-- ===== src/Errors/ErrorT.antt =====
-- errors/errors.go, errors/hint.go, errors/details.go, errors/context.go, errors/revtrace.go,
-- errors/stacktrace.go, errors/headless.go: garlic errors, their options and their builders. An
-- error is a value, its maps and its trace are references into the store. A builder applies its
-- options to an error that no one else holds yet, so the struct itself is not shared.
-- What `findCaller` reads off the stack is an argument: the trace line and the caller's name.
pub mod Kept
pub mod Sound
mod Apply
pub mod Options
pub mod Wrap
pub mod Builders
pub mod Aliasing
use Prim.Native.String.{◌++◌ as str_append}
use garlic.Common.{
  ℕ, String, Bool, true, false, Option, none, some, List, [], ◌∷◌, ◌++◌, if◌then◌else◌, ◌&&◌, ◌||◌,
  not, str_eq,
}
use garlic.Errors.Kind.{Kind, label, status_code, customize_status_code}
use garlic.Errors.Primitive.{kind_error}
use garlic.Errors.Store.{
  Table, Value, text, Slice, M, pure, ◌>>=◌, ◌>>◌, write_details, write_all, write_context,
  new_details, new_context, append,
}

-- `Details` and `Troubleshooting`; a nil map or slice is `none`.
pub record Parts : Type 0 where
  pub details : Option ℕ
  pub reverse_trace : Option Slice
  pub stack_trace : String
  pub context : Option ℕ

-- Values of the interface `error`. `plain`, `wrapped` and `joined` are errors of other packages,
-- with the text that they show: without an `Unwrap` method, with one cause, with several.
mutual
  pub data Err : Type 0 where
    nil : Err
    error_t : Kind → String → Err → Err → Parts → Err
    headless : String → Err
    plain : String → Err
    wrapped : String → Err → Err
    joined : String → Errs → Err

  pub data Errs : Type 0 where
    done : Errs
    more : Err → Errs → Errs

-- The struct behind a `*ErrorT`.
pub record ErrorT : Type 0 where
  pub kind : Kind
  pub message : String
  pub cause : Err
  pub origin : Err
  pub parts : Parts

abbrev pub as_error : ErrorT → Err
as_error e = error_t e.kind e.message e.cause e.origin e.parts

-- `err.(*ErrorT)`
unfoldable pub as_garlic : Err → Option ErrorT
as_garlic (error_t k m c o p) =
    some (record { kind = k; message = m; cause = c; origin = o; parts = p })
as_garlic nil = none
as_garlic (headless _) = none
as_garlic (plain _) = none
as_garlic (wrapped _ _) = none
as_garlic (joined _ _) = none

-- `err == nil`
unfoldable pub is_nil : Err → Bool
is_nil nil = true
is_nil (error_t _ _ _ _ _) = false
is_nil (headless _) = false
is_nil (plain _) = false
is_nil (wrapped _ _) = false
is_nil (joined _ _) = false

pub data Opt : Type 0 where
  hint : String → Opt
  details : Table → Opt
  context : String → Table → Opt
  rev_trace : String → Opt
  stack_trace : String → Opt

abbrev pub no_parts : Parts
no_parts = record { details = none; reverse_trace = none; stack_trace = ""; context = none }

-- `NewHeadlessError`
unfoldable pub new_headless_error : String → Err
new_headless_error code = if str_eq code "" then nil else headless code

unfoldable pub new_error_t : Kind → String → Err → M ErrorT
new_error_t kind message origin = do
  table ← new_details
  pure (record {
    kind = kind;
    message = message;
    cause = nil;
    origin = origin;
    parts = record no_parts { details = table };
  })

-- `e.Details`, allocated if it is nil.
unfoldable pub ensure_details : ErrorT → M ErrorT
ensure_details e = elim e.parts.details [
  | some a ↦ pure e
  | none ↦ do table ← new_details; pure (record e { parts = record e.parts { details = table } })
]

unfoldable pub ensure_context : ErrorT → M ErrorT
ensure_context e = elim e.parts.context [
  | some a ↦ pure e
  | none ↦ do table ← new_context; pure (record e { parts = record e.parts { context = table } })
]

module _ (spare : ℕ → ℕ) where
  -- `opt.Opt(e)`
  unfoldable pub apply : Opt → ErrorT → M ErrorT
  apply (hint message) e = do write_details e.parts.details "hint" (text message); pure e
  apply (details fields) e = do e' ← ensure_details e; write_all e'.parts.details fields; pure e'
  apply (context caller fields) e = do
    e' ← ensure_context e
    write_context e'.parts.context caller fields
    pure e'
  apply (rev_trace line) e = do
    trace ← append spare e.parts.reverse_trace line
    pure (record e { parts = record e.parts { reverse_trace = some trace } })
  apply (stack_trace stack) e = pure (record e { parts = record e.parts { stack_trace = stack } })

  -- `With`
  unfoldable pub with_opts : List Opt → ErrorT → M ErrorT
  with_opts [] e = pure e
  with_opts (opt ∷ opts) e = do e' ← apply opt e; with_opts opts e'

  unfoldable pub raw : Kind → String → List Opt → M ErrorT
  raw kind message opts = do e ← new_error_t kind message nil; with_opts opts e

  -- `line` is the trace line of the caller.
  unfoldable pub new : Kind → String → List Opt → String → M ErrorT
  new kind message opts line = raw kind message (opts ++ rev_trace line ∷ [])

  unfoldable pub override : Kind → Err → String → List Opt → M ErrorT
  override kind origin message opts = do e ← new_error_t kind message origin; with_opts opts e

  unfoldable pub mirror : Kind → List Opt → M ErrorT
  mirror kind opts = do e ← new_error_t kind (label kind).description nil; with_opts opts e

  unfoldable pub mirror_override : Kind → Err → List Opt → M ErrorT
  mirror_override kind origin opts = do
    e ← new_error_t kind (label kind).description origin
    with_opts opts e

-- `inheritStatusCustomization`
unfoldable pub inherit_status_customization : Kind → ErrorT → ErrorT
inherit_status_customization cause e =
    if not (label cause).custom_status || (label e.kind).custom_status
    then e
    else record e { kind = customize_status_code e.kind (label cause).http_status_code }

-- `wrap` once the type of the cause is known.
unfoldable pub wrap_found : Option ErrorT → ErrorT → Err → ErrorT
wrap_found none e other = record e { cause = other }
wrap_found (some o) e other =
    record (inherit_status_customization o.kind (record e { parts = o.parts })) { cause = other }

unfoldable pub wrap : ErrorT → Err → ErrorT
wrap e other = if is_nil other then e else wrap_found (as_garlic other) e other

unfoldable pub kind_of : Err → Kind
kind_of err = elim (as_garlic err) [ none ↦ kind_error | some e ↦ e.kind ]

module _ (spare : ℕ → ℕ) where
  unfoldable pub from_non_nil : Kind → Err → String → List Opt → M Err
  from_non_nil kind err message opts = do
    e ← new_error_t kind message nil
    e' ← with_opts spare opts (wrap e err)
    pure (as_error e')

  unfoldable pub from : Kind → Err → String → List Opt → M Err
  from kind err message opts = if is_nil err then pure nil else from_non_nil kind err message opts

  unfoldable pub propagate_as : Kind → Err → String → List Opt → String → M Err
  propagate_as kind err message opts line =
      if is_nil err then pure nil else from kind err message (opts ++ rev_trace line ∷ [])

  unfoldable pub propagate : Err → String → List Opt → String → M Err
  propagate err message opts line =
      if is_nil err then pure nil else propagate_as (kind_of err) err message opts line
