-- ===== src/Indexer/Messenger/Workers/Stored.antt =====
-- What the two writes of a worker, `index_block_metadatas` and `index_transaction` of
-- indexer/src/db.rs, add to the rows of the database.
use mathlib.Core.List.{append-nil}
use itihas.Dao.{Block, TokenTransfer}
use itihas.Indexer.Db.{
  Driver, Statement, block_model, index_block_metadatas, index_transaction, transfer_model,
}
use itihas.Indexer.Db.Batches.{index_block_metadatas-writes, index_transaction-writes}
use itihas.Indexer.Db.Rows.{
  block_rows, block_rows-append, rows_of, transfer_rows, transfer_rows-append,
}
use itihas.Indexer.Types.{BlockMetadata, Transaction}
use itihas.Prelude.{
  List, [], arith, concat, map, ok, refl, total, total-append, total-map, ℕ, ℤ, ◌+◌, ◌++◌, ◌≡◌, ◌∷◌,
}

-- What one more transaction adds to the rows of the history.
block_rows-committed :
    (weight : Block → ℕ) (history : List (List Statement)) (statements : List Statement)
    → total weight (block_rows (concat (history ++ statements ∷ [])))
      ≡ total weight (block_rows (concat history)) + total weight (block_rows statements)
unfolding block_rows
block_rows-committed weight [] statements = rw (append-nil statements) (omega arith)
block_rows-committed weight (first ∷ history) statements =
    let rest = concat history in
    rw (block_rows-append first (concat (history ++ statements ∷ [])), block_rows-append first rest)
      (omega (
        arith,
        total-append weight (block_rows first) (block_rows (concat (history ++ statements ∷ []))),
        total-append weight (block_rows first) (block_rows rest),
        block_rows-committed weight history statements,
      ))

transfer_rows-committed :
    (weight : TokenTransfer → ℕ) (history : List (List Statement)) (statements : List Statement)
    → total weight (transfer_rows (concat (history ++ statements ∷ [])))
      ≡ total weight (transfer_rows (concat history)) + total weight (transfer_rows statements)
unfolding transfer_rows
transfer_rows-committed weight [] statements = rw (append-nil statements) (omega arith)
transfer_rows-committed weight (first ∷ history) statements =
    let rest = concat history in
    rw
      (
        transfer_rows-append first (concat (history ++ statements ∷ [])),
        transfer_rows-append first rest,
      )
      (omega (
        arith,
        total-append weight (transfer_rows first)
            (transfer_rows (concat (history ++ statements ∷ []))),
        total-append weight (transfer_rows first) (transfer_rows rest),
        transfer_rows-committed weight history statements,
      ))

abbrev pub stored_transfers : (TokenTransfer → ℕ) → List (List Statement) → ℕ
stored_transfers weight history = total weight (transfer_rows (concat history))

module _ (weight : Block → ℕ) where
  abbrev pub block_weight : BlockMetadata → ℕ
  block_weight block = weight (block_model block)

  abbrev pub stored_blocks : List (List Statement) → ℕ
  stored_blocks history = total weight (block_rows (concat history))

  pub index_block_metadatas-stores :
      (driver : Driver) (history : List (List Statement)) (blocks : List BlockMetadata)
      (after : List (List Statement))
      → index_block_metadatas driver history blocks ≡ ok after
      → stored_blocks after ≡ stored_blocks history + total block_weight blocks
  index_block_metadatas-stores driver history blocks after h =
      let (statements, e, b, t) = index_block_metadatas-writes driver history after blocks h in
      rw (e, block_rows-committed weight history statements, b, total-map weight block_model blocks)

  pub index_transaction-keeps :
      (driver : Driver) (history : List (List Statement)) (transactions : List Transaction)
      (after : List (List Statement))
      → index_transaction driver history transactions ≡ ok after
      → stored_blocks after ≡ stored_blocks history
  index_transaction-keeps driver history transactions after h =
      let (statements, e, b, t) = index_transaction-writes driver history after transactions h in
      rw (e, block_rows-committed weight history statements, b) (omega arith)

-- Weights of rows that do not see when a row was written: those of a transaction's rows add up to the
-- weight of the transaction, at whatever time they are written.
module _ (weight : TokenTransfer → ℕ) (transaction_weight : Transaction → ℕ)
    (timeless : (now : ℤ) (t : Transaction)
      → total weight (map (transfer_model now t) t.instruction_groups) ≡ transaction_weight t) where
  rows_of-weight :
      (now : ℤ) (ts : List Transaction)
      → total weight (rows_of now ts) ≡ total transaction_weight ts
  unfolding rows_of
  rows_of-weight now [] = refl
  rows_of-weight now (t ∷ ts) =
      let first = map (transfer_model now t) t.instruction_groups in
      omega
        (arith, total-append weight first (rows_of now ts), timeless now t, rows_of-weight now ts)

  pub index_transaction-stores :
      (driver : Driver) (history : List (List Statement)) (transactions : List Transaction)
      (after : List (List Statement))
      → index_transaction driver history transactions ≡ ok after
      → stored_transfers weight after
        ≡ stored_transfers weight history + total transaction_weight transactions
  index_transaction-stores driver history transactions after h =
      let (statements, e, b, t) = index_transaction-writes driver history after transactions h in
      rw (e, transfer_rows-committed weight history statements, t)
        (omega (arith, rows_of-weight driver.now transactions))

  pub index_block_metadatas-keeps :
      (driver : Driver) (history : List (List Statement)) (blocks : List BlockMetadata)
      (after : List (List Statement))
      → index_block_metadatas driver history blocks ≡ ok after
      → stored_transfers weight after ≡ stored_transfers weight history
  index_block_metadatas-keeps driver history blocks after h =
      let (statements, e, b, t) = index_block_metadatas-writes driver history after blocks h in
      rw (e, transfer_rows-committed weight history statements, t) (omega arith)
