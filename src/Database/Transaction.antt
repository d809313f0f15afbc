-- ===== src/Database/Transaction.antt =====
-- database/transaction.go and `Storer.Transaction` of database/storer.go. The database driver is an
-- argument; what it and the functions that run in a transaction see and change is a world `W`. The
-- context is the transaction that it carries, if any. A failure is the call that builds the error.
pub mod Laws
use garlic.Common.{String, Option, none, some, List, [], ◌∷◌, ◌++◌, ◌⊎◌, inl, inr}
use garlic.Errors.Kind.{Kind}
use garlic.Errors.Catalog.{kind_database_transaction_error}
use garlic.Errors.ErrorT.{Err}

pub data Failure : Type 0 where
  caused : Err → Failure
  propagate_as : Kind → Failure → String → Failure
  propagate : Failure → String → Failure

-- `sqlx`: each operation fails or not, and changes the world.
pub record Driver (W Tx : Type 0) : Type 0 where
  pub begin : W → (Err ⊎ Tx) × W
  pub commit : Tx → W → Option Err × W
  pub rollback : Tx → W → Option Err × W

-- How a function ends: it returns an error or nil, or panics with a value.
pub data Exit : Type 0 where
  returned : Option Failure → Exit
  panicked : String → Exit

abbrev pub Action : Type 0 → Type 0
Action W = W → Option Failure × W

-- What `BeginContext` returns.
pub record Begun (W Tx : Type 0) : Type 0 where
  pub context : Option Tx
  pub commit : Action W
  pub rollback : Action W
  pub err : Option Failure

-- `Nop`
unfoldable pub nop : {W : Type 0} → Action W
nop w = (none, w)

-- The log of a run: the messages, each with its error.
pub record Run (W : Type 0) : Type 0 where
  pub exit : Exit
  pub world : W
  pub logged : List (String × Failure)

unfoldable pub failing : {W : Type 0} → String → Option Err × W → Option Failure × W
failing message (none, w) = (none, w)
failing message (some err, w) =
    (some (propagate_as kind_database_transaction_error (caused err) message), w)

module _ {W Tx : Type 0} (db : Driver W Tx) where
  unfoldable pub commit_tx : Tx → Action W
  commit_tx tx w = failing "failed to commit transaction" (db.commit tx w)

  unfoldable pub rollback_tx : Tx → Action W
  rollback_tx tx w = failing "failed to rollback transaction" (db.rollback tx w)

  unfoldable pub begun : Option Tx → (Err ⊎ Tx) × W → Begun W Tx × W
  begun context (inl err, w) = (
    record {
      context = context;
      commit = nop;
      rollback = nop;
      err =
          some (
            propagate_as kind_database_transaction_error (caused err)
              "failed to begin transaction");
    },
    w,
  )
  begun context (inr tx, w) = (
    record { context = some tx; commit = commit_tx tx; rollback = rollback_tx tx; err = none },
    w,
  )

  unfoldable pub begin_context : Option Tx → W → Begun W Tx × W
  begin_context (some tx) w =
      (record { context = some tx; commit = nop; rollback = nop; err = none }, w)
  begin_context none w = begun none (db.begin w)

abbrev logged_failure : String → Option Failure → List (String × Failure)
logged_failure message none = []
logged_failure message (some f) = (message, f) ∷ []

module _ {W Tx : Type 0} (b : Begun W Tx) where
  -- The deferred calls after a panic of the function: the rollback, and the panic again.
  unfoldable pub recovered : String → W → Run W
  recovered value w =
      let (err, w') = b.rollback w in
      record {
        exit = panicked value;
        world = w';
        logged = logged_failure "Failed to rollback transaction during panic handling" err;
      }

  -- The deferred rollback after an error.
  unfoldable pub failed : Failure → W → Run W
  failed f w =
      let (err, w') = b.rollback w in
      record {
        exit = returned (some f);
        world = w';
        logged = logged_failure "Failed to rollback transaction during error handling" err;
      }

  unfoldable pub committed : Option Failure × W → Run W
  committed (none, w) = record { exit = returned none; world = w; logged = [] }
  committed (some f, w) = failed (propagate f "storer failed to commit database transaction") w

  -- The rest of `Transaction` after `fn` has ended.
  unfoldable pub conclude : Exit × W → Run W
  conclude (panicked value, w) = recovered value w
  conclude (returned (some f), w) =
      failed (propagate f "failed to execute transactional function") w
  conclude (returned none, w) = committed (b.commit w)

-- `Storer.Transaction`
module _ {W Tx : Type 0} (db : Driver W Tx) where
  unfoldable pub started : (Option Tx → W → Exit × W) → Begun W Tx × W → Run W
  started fn (b, w) = elim b.err [
    | some f ↦ record {
      exit = returned (some (propagate f "storer failed to begin database transaction"));
      world = w;
      logged = [];
    }
    | none ↦ conclude b (fn b.context w)
  ]

  unfoldable pub transaction : Option Tx → (Option Tx → W → Exit × W) → W → Run W
  transaction context fn w = started fn (begin_context db context w)
