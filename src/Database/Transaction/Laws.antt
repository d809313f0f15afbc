-- ===== src/Database/Transaction/Laws.antt =====
-- What `Storer.Transaction` of database/storer.go promises: all of the function's work or none of it,
-- and no end of a transaction that is not its own.
use garlic.Common.{Bool, false, ◌⊎◌, String, ◌≡◌, refl, ◌∙◌, ap, Option, none, some, [], inl, inr}
use garlic.Errors.ErrorT.{Err}
use garlic.Database.Transaction.{
  Driver, Exit, returned, panicked, Failure, Begun, nop, commit_tx, rollback_tx, begin_context,
  recovered, failed as end_failed, committed as end_committed, begun, started, conclude,
  transaction, failing, propagate, Run,
}

-- The documented behaviour of a driver. A world shows the committed data, to a transaction its own data,
-- and whether a transaction still holds its connection: a begin starts from the committed data, a
-- successful commit makes the transaction's data the committed data, a commit that fails is atomic all
-- the same, and a rollback leaves the committed data alone. A transaction is over after a successful
-- commit and after a rollback.
pub record IsTransactional {W Tx : Type 0} (D : Type 0) (db : Driver W Tx) (shown : W → D)
    (working : Tx → W → D) (is_open : Tx → W → Bool) : Type 0 where
  pub begins :
      (w w' : W) (tx : Tx)
      → db.begin w ≡ (inr tx, w')
      → (shown w' ≡ shown w) × (working tx w' ≡ shown w)
  pub commits :
      (w w' : W) (tx : Tx)
      → db.commit tx w ≡ (none, w')
      → (shown w' ≡ working tx w) × (is_open tx w' ≡ false)
  pub commit_fails :
      (w w' : W) (tx : Tx) (err : Err)
      → db.commit tx w ≡ (some err, w')
      → (shown w' ≡ shown w) ⊎ (shown w' ≡ working tx w)
  pub rolls_back :
      (w : W) (tx : Tx)
      → (shown (db.rollback tx w).1 ≡ shown w) × (is_open tx (db.rollback tx w).1 ≡ false)

-- How a transaction leaves the data and ends, by how its function ended: `done` is the
-- transaction's data after the function.
pub data Atomic {D : Type 0} (before after done : D) : Exit → Exit → Type 0 where
  committed : after ≡ done → Atomic before after done (returned none) (returned none)
  in_doubt :
      {f : Failure}
      → (after ≡ before) ⊎ (after ≡ done)
      → Atomic before after done (returned none) (returned (some f))
  failed :
      {f : Failure} {message : String}
      → after ≡ before
      → Atomic before after done (returned (some f)) (returned (some (propagate f message)))
  unwound :
      {value : String} → after ≡ before → Atomic before after done (panicked value) (panicked value)

-- The context and the ends of a transaction that `BeginContext` found in the context.
abbrev nested : {W Tx : Type 0} → Tx → Begun W Tx
nested tx = record { context = some tx; commit = nop; rollback = nop; err = none }

conclude-nested :
    {W Tx : Type 0} (tx : Tx) (p : Exit × W)
    → ((conclude {Tx = Tx} (nested tx) p).world ≡ p.1) × ((conclude (nested tx) p).logged ≡ [])
unfolding conclude nop recovered end_failed end_committed
conclude-nested tx (panicked value, w) = (refl, refl)
conclude-nested tx (returned (some f), w) = (refl, refl)
conclude-nested tx (returned none, w) = (refl, refl)

failing_world : {W : Type 0} (message : String) (p : Option Err × W) → (failing message p).1 ≡ p.1
unfolding failing
failing_world message (none, w) = refl
failing_world message (some err, w) = refl

module _ {W Tx : Type 0} (db : Driver W Tx) where
  -- Within a transaction, `Transaction` runs the function in it and ends nothing: the world is as the
  -- function left it, and nothing is logged.
  transaction_nested :
      (tx : Tx) (fn : Option Tx → W → Exit × W) (w : W)
      → ((transaction db (some tx) fn w).world ≡ (fn (some tx) w).1)
        × ((transaction db (some tx) fn w).logged ≡ [])
  unfolding transaction begin_context started
  transaction_nested tx fn w = conclude-nested tx (fn (some tx) w)

  module _ {D : Type 0} (shown : W → D) (working : Tx → W → D) (is_open : Tx → W → Bool)
      (laws : IsTransactional D db shown working is_open) where
    abbrev owned : Tx → Begun W Tx
    owned tx = record {
      context = some tx;
      commit = commit_tx db tx;
      rollback = rollback_tx db tx;
      err = none;
    }

    -- A run that is atomic and leaves no transaction open.
    abbrev pub Ends : Tx → D → D → Exit → Run W → Type 0
    Ends tx before done exit run =
        Atomic before (shown run.world) done exit run.exit × (is_open tx run.world ≡ false)

    rollback_tx_shown :
        (tx : Tx) (w : W)
        → (shown (rollback_tx db tx w).1 ≡ shown w) × (is_open tx (rollback_tx db tx w).1 ≡ false)
    unfolding rollback_tx
    rollback_tx_shown tx w =
        let world = failing_world "failed to rollback transaction" (db.rollback tx w) in
        let (kept, over) = laws.rolls_back w tx in
        (ap shown world ∙ kept, ap (is_open tx) world ∙ over)

    committed-Ends :
        (tx : Tx) (before : D) (w : W) (p : Option Err × W)
        → db.commit tx w ≡ p
        → shown w ≡ before
        → Ends tx before
            (working tx w)
            (returned none)
            (end_committed (owned tx) (failing "failed to commit transaction" p))
    unfolding failing end_committed end_failed
    committed-Ends tx before w (none, w') e h =
        let (made, over) = laws.commits w w' tx e in (committed made, over)
    committed-Ends tx before w (some err, w') e h =
        let (kept, over) = rollback_tx_shown tx w' in
        (
          in_doubt (elim (laws.commit_fails w w' tx err e) [
            | inl undone ↦ inl (kept ∙ undone ∙ h)
            | inr done ↦ inr (kept ∙ done)
          ]),
          over,
        )

    conclude-Ends :
        (tx : Tx) (before : D) (p : Exit × W)
        → shown p.1 ≡ before
        → Ends tx before (working tx p.1) p.0 (conclude (owned tx) p)
    unfolding conclude recovered end_failed commit_tx
    conclude-Ends tx before (panicked value, w) h =
        let (kept, over) = rollback_tx_shown tx w in (unwound (kept ∙ h), over)
    conclude-Ends tx before (returned (some f), w) h =
        let (kept, over) = rollback_tx_shown tx w in (failed (kept ∙ h), over)
    conclude-Ends tx before (returned none, w) h =
        committed-Ends tx before w (db.commit tx w) refl h

    -- Over a transactional driver that begins a transaction, and for a function that changes only the
    -- transaction's data, a call outside a transaction starts the function from the committed data. It
    -- returns nil and the data is as the function left it, or it returns an error or panics and the
    -- data is what it was; only where the commit itself fails is it either. The call panics exactly if
    -- the function does, fails if the function does, and leaves no transaction open. A call within a
    -- transaction ends nothing: the world is as the function left it, and nothing is logged.
    pub transaction_atomic :
        (tx outer : Tx) (fn : Option Tx → W → Exit × W) (w w₁ : W)
        → ((v : W) → shown (fn (some tx) v).1 ≡ shown v)
        → db.begin w ≡ (inr tx, w₁)
        → (working tx w₁ ≡ shown w)
          × Ends tx
              (shown w)
              (working tx (fn (some tx) w₁).1)
              (fn (some tx) w₁).0
              (transaction db none fn w)
          × ((transaction db (some outer) fn w).world ≡ (fn (some outer) w).1)
          × ((transaction db (some outer) fn w).logged ≡ [])
    unfolding transaction begin_context started begun
    transaction_atomic tx outer fn w w₁ apart e =
        let (kept, from) = laws.begins w w₁ tx e in
        let (world, log) = transaction_nested outer fn w in
        (from, rw e (conclude-Ends tx (shown w) (fn (some tx) w₁) (apart w₁ ∙ kept)), world, log)
