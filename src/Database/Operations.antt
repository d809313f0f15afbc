-- ===== src/Database/Operations.antt =====
-- The operations of `Database` in database/database.go. The SQL driver is an argument: an executor, the
-- connection or a transaction, answers a statement in a world `W`. The caller's name and the trace line
-- that an error records are arguments too.
pub mod Laws
use garlic.Common.{
  ℕ, String, Bool, true, false, Option, none, some, List, [], ◌∷◌, if◌then◌else◌, ltb, str_eq, ◌||◌,
  ◌⊎◌, inl, inr,
}
use Prim.Native.String.{◌++◌ as str_append}
use garlic.Errors.Kind.{Kind}
use garlic.Errors.Primitive.{kind_user_error, kind_system_error}
use garlic.Errors.Catalog.{kind_not_found_error}
use garlic.Errors.Store.{Value, Table, text, M, pure, ◌>>=◌}
use garlic.Errors.ErrorT.{Err, nil, Opt, as_error, new, propagate_as}

-- What `NamedQuery` gives: an error, or the first row with the result of scanning it, if there is one.
pub data Rows : Type 0 where
  failed : Err → Rows
  empty : Rows
  row : Option Err → Rows

-- `sql.Result` with what `RowsAffected` gives.
pub record Executed : Type 0 where
  pub rows_affected : Err ⊎ ℕ

pub record Executor (W : Type 0) : Type 0 where
  pub named_query : String → W → Rows × W
  pub named_exec : String → W → (Err ⊎ Executed) × W
  pub exec : String → W → (Err ⊎ Executed) × W
  pub select : String → W → Option Err × W
  pub get : String → W → Option Err × W

-- The driver's own errors: the code of a Postgres error, and whether one is `sql.ErrNoRows`.
pub record Sql (W Tx : Type 0) : Type 0 where
  pub connection : Executor W
  pub within : Tx → Executor W
  pub pg_code : Err → Option String
  pub is_no_rows : Err → Bool

abbrev pub not_found_hint : String
not_found_hint = "Check if the reference of this resource is right and if exists."

abbrev pub exists_hint : String
exists_hint =
    str_append "Another resource with similar parameters already exists in our system. "
      "Please change the parameters and try again."

abbrev pub missing_hint : String
missing_hint =
    str_append "You're trying to create a new resource but some parameters are missing. "
      "Please, check the documentation to clarify which parameters are necessary and try again."

module _ {W Tx : Type 0} (sql : Sql W Tx) (spare : ℕ → ℕ) (caller line : String) where
  -- `Executor`
  unfoldable pub executor : Option Tx → Executor W
  executor none = sql.connection
  executor (some tx) = sql.within tx

  unfoldable pub system : Err → String → Table → M Err
  system err message fields =
      propagate_as spare kind_system_error err message (Opt.context caller fields ∷ []) line

  unfoldable pub user : Err → String → String → Table → M Err
  user err message hint fields =
      propagate_as spare kind_user_error err message
        (Opt.hint hint ∷ Opt.context caller fields ∷ []) line

  unfoldable pub not_found : Table → M Err
  not_found fields = do
    e ←
        new spare kind_not_found_error "resource not found"
          (Opt.hint not_found_hint ∷ Opt.context caller fields ∷ []) line
    pure (as_error e)

  -- What `Create` makes of an error of the query.
  unfoldable pub rejected : Err → Table → M Err
  rejected err fields = elim (sql.pg_code err) [
    | none ↦ system err "failed to insert resource" fields
    | some code ↦ elim (str_eq code "23505") [
      | true ↦ user err "resource already exists" exists_hint fields
      | false ↦ elim (str_eq code "23502") [
        | true ↦ user err "missing required field" missing_hint fields
        | false ↦ system err "unexpected database constraint error" fields
      ]
    ]
  ]

  unfoldable pub created : Rows → Table → M Err
  created (failed err) fields = rejected err fields
  created (row none) fields = pure nil
  created (row (some err)) fields = system err "failed to scan returned resource" fields
  created empty fields = do
    e ←
        new spare kind_system_error "no rows returned while scanning resource during creation"
          (Opt.context caller fields ∷ []) line
    pure (as_error e)

  -- Each operation gives its error, nil if it succeeds, and the world. `Create`:
  unfoldable pub create : Option Tx → String → Value → W → M (Err × W)
  create context query resource w = do
    let (rows, w') = (executor context).named_query query w
    err ← created rows (("query", text query) ∷ ("resource_name", resource) ∷ [])
    pure (err, w')

  unfoldable pub selected : Option Err → String → Table → M Err
  selected none message fields = pure nil
  selected (some err) message fields = system err message fields

  -- `List`
  unfoldable pub list : Option Tx → String → W → M (Err × W)
  list context query w = do
    let (failure, w') = (executor context).select query w
    err ← selected failure "failed to select resources" (("query", text query) ∷ [])
    pure (err, w')

  -- `Update` and `Delete` differ in their messages only.
  unfoldable pub modified : Err ⊎ Executed → String → String → Table → M Err
  modified (inl err) failing counting fields = system err failing fields
  modified (inr res) failing counting fields = elim res.rows_affected [
    | inl err ↦ system err counting fields
    | inr rows ↦ elim (ltb rows 1) [ true ↦ not_found fields | false ↦ pure nil ]
  ]

  unfoldable pub delete : Option Tx → String → Value → W → M (Err × W)
  delete context query args w = do
    let (res, w') = (executor context).exec query w
    err ←
        modified res "failed to execute delete query"
          "failed to get affected rows while deleting resource"
          (("query", text query) ∷ ("args", args) ∷ [])
    pure (err, w')

  unfoldable pub update : Option Tx → String → Value → W → M (Err × W)
  update context query args w = do
    let (res, w') = (executor context).exec query w
    err ←
        modified res "failed to execute query while updating resource"
          "failed to get affected rows while updating resource"
          (("query", text query) ∷ ("args", args) ∷ [])
    pure (err, w')

  unfoldable pub found : Option Err → Table → M Err
  found none fields = pure nil
  found (some err) fields = elim (sql.is_no_rows err) [
    | true ↦ not_found fields
    | false ↦ system err "failed to read dataset from database" fields
  ]

  -- `Read`
  unfoldable pub read : Option Tx → String → Value → W → M (Err × W)
  read context query args w = do
    let (failure, w') = (executor context).get query w
    err ← found failure (("query", text query) ∷ ("args", args) ∷ [])
    pure (err, w')

  unfoldable pub executed : Err ⊎ Executed → String → Table → M (Err × Option Executed)
  executed (inr res) message fields = pure (nil, some res)
  executed (inl err) message fields = do e ← system err message fields; pure (e, none)

  unfoldable pub raw_exec : Option Tx → String → Value → W → M ((Err × Option Executed) × W)
  raw_exec context query args w = do
    let (res, w') = (executor context).exec query w
    out ←
        executed res "failed to execute arbitrary query"
          (("query", text query) ∷ ("args", args) ∷ [])
    pure (out, w')

  unfoldable pub named_raw_exec : Option Tx → String → Value → W → M ((Err × Option Executed) × W)
  named_raw_exec context query resource w = do
    let (res, w') = (executor context).named_exec query w
    out ←
        executed res "failed to execute arbitrary named query"
          (("query", text query) ∷ ("arg", resource) ∷ [])
    pure (out, w')
