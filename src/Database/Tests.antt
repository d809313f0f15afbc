-- ===== src/Database/Tests.antt =====
-- A driver over numbers, and what the theorems of the package database say of a transaction on it.
use garlic.Errors.Store.{fresh}
use garlic.Errors.Store.Value.{nil}
use garlic.Database.Operations.{Sql, Executor, Executed, failed, executor, update, delete}
use garlic.Database.Operations.Laws.{ReportsIn, modified_reports}
use garlic.Common.{
  ◌∙◌, Bool, false, [], true, Option-cases, ℕ, ◌+◌, ◌≡◌, refl, ap, sym, Option, none, some, inl,
  inr, ◌⊎◌,
}
use garlic.Errors.ErrorT.{Err, plain}
use garlic.Database.Transaction.{Driver, Exit, returned, transaction}
use garlic.Database.Transaction.Laws.{IsTransactional, Ends, transaction_atomic}

-- The committed number, the number of the transaction, whether one is open and whether the
-- connection is up.
record Disk : Type 0 where
  committed : ℕ
  working : ℕ
  busy : Bool
  up : Option Err

begin : Disk → (Err ⊎ Unit {0}) × Disk
begin w = elim w.up [
  | none ↦ (inr tt, record w { working = w.committed; busy = true })
  | some err ↦ (inl err, w)
]

abbrev driver : Driver Disk (Unit {0})
driver = record {
  begin = begin;
  commit = λ tx w. (none, record w { committed = w.working; busy = false });
  rollback = λ tx w. (none, record w { busy = false });
}

abbrev shown : Disk → ℕ
shown w = w.committed

abbrev working_of : Unit {0} → Disk → ℕ
working_of tx w = w.working

abbrev is_busy : Unit {0} → Disk → Bool
is_busy tx w = w.busy

abbrev increment : Option (Unit {0}) → Disk → Exit × Disk
increment context w = (returned none, record w { working = w.working + 1 })

abbrev seven : Disk
seven = record { committed = 7; working = 0; busy = false; up = none }

begins :
    (w w' : Disk) (tx : Unit {0})
    → begin w ≡ (inr tx, w')
    → (w'.committed ≡ w.committed) × (w'.working ≡ w.committed)
unfolding begin
begins w w' tx h = elim (Option-cases w.up) [
  | inl up ↦
      let e = rw (up, begin) at h in
      (
        sym (ap (λ (p : (Err ⊎ Unit {0}) × Disk). p.1.committed) e),
        sym (ap (λ (p : (Err ⊎ Unit {0}) × Disk). p.1.working) e),
      )
  | inr (err, off) ↦ absurd (cc (rw (off, begin) at h))
]

driver-IsTransactional : IsTransactional ℕ driver shown working_of is_busy
driver-IsTransactional = record {
  begins = begins;
  commits = λ w w' tx e. (
    sym (ap (λ (p : Option Err × Disk). p.1.committed) e),
    sym (ap (λ (p : Option Err × Disk). p.1.busy) e),
  );
  commit_fails = λ w w' tx err e. absurd (cc e);
  rolls_back = λ w tx. (refl, refl);
}

transaction_atomic_example :
    (shown seven ≡ 7)
    × Ends driver shown working_of is_busy driver-IsTransactional tt 7 8
        (returned none)
        (transaction driver none increment seven)
    × ((transaction driver (some tt) increment seven).world ≡ record seven { working = 1 })
    × ((transaction driver (some tt) increment seven).logged ≡ [])
unfolding begin
transaction_atomic_example =
    transaction_atomic driver shown working_of is_busy driver-IsTransactional tt tt increment seven
      (record seven { working = 7; busy = true }) (λ v. refl) refl

-- A connection on which one row can be changed, no row can be read, and every insert is a duplicate.
abbrev single_row : Executor ℕ
single_row = record {
  named_query = λ query w. (failed (plain "duplicate key"), w);
  named_exec = λ query w. (inr (record { rows_affected = inr 1 }), w + 1);
  exec = λ query w. (inr (record { rows_affected = inr 1 }), w + 1);
  select = λ query w. (none, w);
  get = λ query w. (some (plain "no rows"), w);
}

abbrev sql : Sql ℕ (Unit {0})
sql = record {
  connection = single_row;
  within = λ tx. single_row;
  pg_code = λ err. some "23505";
  is_no_rows = λ err. true;
}

abbrev spare : ℕ → ℕ
spare n = n

modified_reports_example :
    ReportsIn sql spare "Save" "save.go:3" fresh 1
      (inr (record { rows_affected = inr 1 }))
      (update sql spare "Save" "save.go:3" none "UPDATE" nil 0 fresh)
    × ReportsIn sql spare "Save" "save.go:3" fresh 1
        (inr (record { rows_affected = inr 1 }))
        (delete sql spare "Save" "save.go:3" none "UPDATE" nil 0 fresh)
unfolding executor
modified_reports_example =
    modified_reports sql spare "Save" "save.go:3" fresh none "UPDATE" nil 0 1
      (inr (record { rows_affected = inr 1 })) refl
      (λ e failed. elim failed [
        | inl not_run ↦ absurd (cc not_run)
        | inr (done, ran, uncounted) ↦
            let same : done ≡ record { rows_affected = inr 1 } = cc ran in
            absurd (cc (sym (ap (λ (d : Executed). d.rows_affected) same) ∙ uncounted))
      ])
