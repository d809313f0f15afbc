-- ===== src/Database/Operations/Laws.antt =====
-- How the operations of database/database.go classify what the driver answers.
use garlic.Common.{
  ◌≤◌, arith, Sum-cases, ◌⊎◌, ℕ, ◌≡◌, refl, ◌∙◌, ap, String, Bool, true, false, ◌||◌, Option, none,
  some, [], ◌∷◌, ltb, str_eq, inl, inr, Bool-cases, Option-cases,
}
use garlic.Errors.Kind.{Kind, is}
use garlic.Errors.Primitive.{kind_user_error, kind_system_error}
use garlic.Errors.Catalog.{kind_not_found_error}
use garlic.Errors.Store.{Store, Value, Table, bind-some}
use garlic.Errors.ErrorT.{Err, nil, Opt, as_error, as_garlic, is_nil}
use garlic.Errors.ErrorT.Wrap.{IsSoundErr, has_map}
use garlic.Errors.Chain.{as_kind, is_kind}
use garlic.Errors.Chain.Laws.{propagate_as_answers}
use garlic.Errors.Chain.Built.{new-made, is_kind-single}
use garlic.Database.Operations.{
  failed, Executed, Sql, executor, system, user, not_found, rejected, created, create, modified,
  delete, update, found,
}

module _ {W Tx : Type 0} (sql : Sql W Tx) (spare : ℕ → ℕ) (caller line : String) (s : Store) where
  not_found_lem :
      (fields : Table)
      → (err : Err) × (s' : Store) × (not_found sql spare caller line fields s ≡ some (err, s'))
        × (is_nil err ≡ false)
        × ((other : Kind) → is_kind err other ≡ is kind_not_found_error other)
  unfolding not_found is_nil
  not_found_lem fields =
      let (e, s', made, kind, cause) =
        new-made spare kind_not_found_error "resource not found"
          (Opt.hint _ ∷ Opt.context caller fields ∷ []) line s refl in
      (
        as_error e,
        s',
        bind-some _ made,
        refl,
        λ other. is_kind-single e other cause ∙ ap (λ k. is k other) kind,
      )

  -- The error that the driver gives for a statement, or for its affected rows.
  abbrev pub FailsWith : Err ⊎ Executed → Err → Type 0
  FailsWith res e =
      (res ≡ inl e) ⊎ ((done : Executed) × (res ≡ inr done) × (done.rows_affected ≡ inl e))

  -- What the driver reports of a statement, and the error that an operation then returns.
  pub data Reports (res : Err ⊎ Executed) (err : Err) : Type 0 where
    counted_some :
        (done : Executed) (rows : ℕ)
        → res ≡ inr done
        → done.rows_affected ≡ inr rows
        → 1 ≤ rows
        → is_nil err ≡ true
        → Reports res err
    counted_none :
        (done : Executed)
        → res ≡ inr done
        → done.rows_affected ≡ inr 0
        → is_nil err ≡ false
        → ((other : Kind) → is_kind err other ≡ is kind_not_found_error other)
        → Reports res err
    broken :
        (e : Err)
        → FailsWith res e
        → is_nil err ≡ false
        → ((other : Kind) → is_kind err other ≡ (is kind_system_error other || is_kind e other))
        → Reports res err

  not_nil : (r : Err) (kind : Kind) → is_kind r kind ≡ true → is_nil r ≡ false
  unfolding is_kind as_kind is_nil
  not_nil nil kind h = absurd (cc h)
  not_nil (Err.error_t _ _ _ _ _) kind h = refl
  not_nil (Err.headless _) kind h = refl
  not_nil (Err.plain _) kind h = refl
  not_nil (Err.wrapped _ _) kind h = refl
  not_nil (Err.joined _ _) kind h = refl

  system_kinds :
      (e : Err) (message : String) (fields : Table)
      → is_nil e ≡ false
      → IsSoundErr s (as_garlic e)
      → (r : Err) × (s' : Store) × (system sql spare caller line e message fields s ≡ some (r, s'))
        × (is_nil r ≡ false)
        × ((other : Kind) → is_kind r other ≡ (is kind_system_error other || is_kind e other))
  unfolding system is
  system_kinds e message fields there sound =
      let (r, s', made, kinds, _) =
        propagate_as_answers spare kind_system_error e message s (Opt.context caller fields ∷ [])
          line there sound refl in
      (r, s', made, not_nil r kind_system_error (kinds kind_system_error), kinds)

  modified-Reports :
      (res : Err ⊎ Executed) (failing counting : String) (fields : Table)
      → ((e : Err) → FailsWith res e → (is_nil e ≡ false) × IsSoundErr s (as_garlic e))
      → (err : Err) × (s' : Store) × (modified sql spare caller line res failing counting fields s
          ≡ some (err, s'))
        × Reports res err
  unfolding modified is_nil is_kind as_kind
  modified-Reports (inl e) failing counting fields sound =
      let (there, held) = sound e (inl refl) in
      let (err, s', made, some_err, kinds) = system_kinds e failing fields there held in
      (err, s', made, broken e (inl refl) some_err kinds)
  modified-Reports (inr done) failing counting fields sound = elim (Sum-cases done.rows_affected) [
    | inl (e, uncounted) ↦
        let (there, held) = sound e (inr (done, refl, uncounted)) in
        let (err, s', made, some_err, kinds) = system_kinds e counting fields there held in
        (
          err,
          s',
          rw (uncounted, modified) made,
          broken e (inr (done, refl, uncounted)) some_err kinds,
        )
    | inr (rows, counted) ↦ elim (Bool-cases (ltb rows 1)) [
      | inl none_hit ↦
          let (err, s', made, there, kinds) = not_found_lem fields in
          let no_row : rows ≡ 0 = ground (arith, none_hit) in
          (
            err,
            s',
            rw (counted, none_hit, modified) made,
            counted_none done refl (counted ∙ ap inr no_row) there kinds,
          )
      | inr some_hit ↦ (
        nil,
        s,
        rw (counted, some_hit, modified) refl,
        counted_some done rows refl counted (ground (arith, some_hit)) refl,
      )
    ]
  ]

  -- The result of an operation together with the world.
  abbrev pub ReportsIn : W → Err ⊎ Executed → Option ((Err × W) × Store) → Type 0
  ReportsIn w' res result =
      (err : Err) × (s' : Store) × (result ≡ some ((err, w'), s')) × Reports res err

  -- Where the driver gives errors that are not nil and that are sound in the store, `Update` and `Delete`
  -- always return. They return nil exactly where the driver executes the statement and counts one row or
  -- more. Where it counts none the error is of exactly the kinds of NotFoundError; where it fails to
  -- execute or to count, of the kinds of SystemError and of the driver's error. They run in the
  -- transaction of the context if there is one.
  pub modified_reports :
      (context : Option Tx) (query : String) (args : Value) (w w' : W) (res : Err ⊎ Executed)
      → (executor sql spare caller line context).exec query w ≡ (res, w')
      → ((e : Err) → FailsWith res e → (is_nil e ≡ false) × IsSoundErr s (as_garlic e))
      → ReportsIn w' res (update sql spare caller line context query args w s)
        × ReportsIn w' res (delete sql spare caller line context query args w s)
  unfolding update delete
  modified_reports context query args w w' res ran sound =
      let (err, s₁, made, reports) = modified-Reports res _ _ _ sound in
      let (err', s₂, made', reports') = modified-Reports res _ _ _ sound in
      (rw ran (err, s₁, bind-some _ made, reports), rw ran (err', s₂, bind-some _ made', reports'))

  -- Whether `Create` takes an error of the driver for the user's.
  abbrev pub is_conflict : Option String → Bool
  is_conflict none = false
  is_conflict (some code) = str_eq code "23505" || str_eq code "23502"

  abbrev pub blamed : Bool → Kind
  blamed true = kind_user_error
  blamed false = kind_system_error

  abbrev Blames : Err → Bool → Option (Err × Store) → Type 0
  Blames err conflict result =
      (r : Err) × (s' : Store) × (result ≡ some (r, s'))
      × ((other : Kind) → is_kind r other ≡ (is (blamed conflict) other || is_kind err other))

  module _ (err : Err) (fields : Table) (there : is_nil err ≡ false)
      (sound : IsSoundErr s (as_garlic err)) (mapped : has_map (as_garlic err) ≡ true) where
    system-Blames :
        (message : String) → Blames err false (system sql spare caller line err message fields s)
    unfolding system
    system-Blames message =
        let (r, s', made, kinds, _) =
          propagate_as_answers spare kind_system_error err message s
            (Opt.context caller fields ∷ []) line there sound refl in
        (r, s', made, kinds)

    user-Blames :
        (message hint : String)
        → Blames err true (user sql spare caller line err message hint fields s)
    unfolding user
    user-Blames message hint =
        let (r, s', made, kinds, _) =
          propagate_as_answers spare kind_user_error err message s
            (Opt.hint hint ∷ Opt.context caller fields ∷ []) line there sound (rw mapped refl) in
        (r, s', made, kinds)

    rejected-Blames :
        Blames err (is_conflict (sql.pg_code err)) (rejected sql spare caller line err fields s)
    unfolding rejected
    rejected-Blames = elim (Option-cases (sql.pg_code err)) [
      | inl other ↦ rw (other, rejected) (system-Blames _)
      | inr (code, pg) ↦ elim (Bool-cases (str_eq code "23505")) [
        | inl unique ↦ rw (pg, unique, rejected) (user-Blames _ _)
        | inr no_unique ↦ elim (Bool-cases (str_eq code "23502")) [
          | inl no_null ↦ rw (pg, no_unique, no_null, rejected) (user-Blames _ _)
          | inr neither ↦ rw (pg, no_unique, neither, rejected) (system-Blames _)
        ]
      ]
    ]

  -- `Create` whose query fails returns an error that is a UserError if the driver reports a violated
  -- unique or not-null constraint and a SystemError if not, and that is besides of exactly the kinds
  -- that the driver's error is of.
  create_rejects :
      (context : Option Tx) (query : String) (resource : Value) (w w' : W) (err : Err)
      → (executor sql spare caller line context).named_query query w ≡ (failed err, w')
      → is_nil err ≡ false
      → IsSoundErr s (as_garlic err)
      → has_map (as_garlic err) ≡ true
      → (r : Err) × (s' : Store) × (create sql spare caller line context query resource w s
          ≡ some ((r, w'), s'))
        × ((other : Kind)
            → is_kind r other
              ≡ (is (blamed (is_conflict (sql.pg_code err))) other || is_kind err other))
  unfolding create created
  create_rejects context query resource w w' err ran there sound mapped =
      let (r, s', made, kinds) = rejected-Blames err _ there sound mapped in
      rw ran (r, s', bind-some _ made, kinds)

  found_missed :
      (err : Err) (fields : Table)
      → sql.is_no_rows err ≡ true
      → found sql spare caller line (some err) fields s ≡ not_found sql spare caller line fields s
  unfolding found
  found_missed err fields missed = rw (missed, found) refl
