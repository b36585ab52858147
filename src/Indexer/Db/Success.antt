-- ===== src/Indexer/Db/Success.antt =====
-- A database that answers every call without an error: a write of indexer/src/db.rs succeeds, where the
-- times of its transactions are ones that chrono can represent.
use itihas.Dao.{TokenTransfer}
use itihas.Indexer.Db.{
  Driver, Statement, execute, index_block_metadatas, index_block_metadatas_without_commit,
  index_transaction, index_transactions_without_commit, insert_blocks, block_model, transfer_model,
  insert_chunks, insert_rows, transaction_rows, transfer_row,
}
use itihas.Indexer.Types.{BlockMetadata, IndexerError, Transaction, max_sql_inserts}
use itihas.Prelude.{
  All, All-intro, List, Result, [], chunks, concat, map, none, ok, refl, traverse, true, ◌++◌, ◌≡◌,
  ◌∷◌,
}

pub record IsAnswering (driver : Driver) : Type 0 where
  pub begins : driver.begin ≡ none
  pub executes : (txn : List Statement) (s : Statement) → driver.execute txn s ≡ none
  pub commits : (txn : List Statement) → driver.commit txn ≡ none

-- `from_timestamp` takes the time of the transaction, which panics out of its range.
abbrev pub IsTimed : Driver → Transaction → Type 0
IsTimed driver transaction = driver.timestamp_in_range transaction.block_time ≡ true

-- A `collect` of successes is one.
traverse-succeeds :
    {A B : Type 0} (P : A → Type 0) (f : A → Result IndexerError B)
    → ((x : A) → P x → (y : B) × (f x ≡ ok y))
    → (xs : List A) → All P xs
    → (ys : List B) × (traverse f xs ≡ ok ys)
traverse-succeeds P f h [] k = ([], refl)
traverse-succeeds P f h (x ∷ xs) k =
    let (y, e) = h x k.0 in let (ys, es) = traverse-succeeds P f h xs k.1 in (y ∷ ys, rw (e, es))

module _ (driver : Driver) (answers : IsAnswering driver) where
  execute-succeeds :
      (txn : List Statement) (s : Statement) → execute driver txn s ≡ ok (txn ++ s ∷ [])
  execute-succeeds txn s = rw (execute, answers.executes txn s)

  insert_chunks-succeeds :
      (txn : List Statement) (parts : List (List BlockMetadata))
      → (next : List Statement) × (insert_chunks driver txn parts ≡ ok next)
  insert_chunks-succeeds txn [] = (txn, refl)
  insert_chunks-succeeds txn (part ∷ parts) =
      let statement = insert_blocks (map block_model part) in
      let (next, e) = insert_chunks-succeeds (txn ++ statement ∷ []) parts in
      (next, rw (insert_chunks, execute-succeeds txn statement) e)

  rows-succeed :
      (transaction : Transaction)
      → IsTimed driver transaction
      → (rows : List TokenTransfer) × (transaction_rows driver transaction ≡ ok rows)
  rows-succeed transaction timed =
      traverse-succeeds (λ group. Unit {0}) (transfer_row driver transaction)
        (λ group _. (transfer_model driver.now transaction group, rw (transfer_row, timed)))
        transaction.instruction_groups (All-intro (λ group. tt) transaction.instruction_groups)

  insert_rows-succeeds :
      (txn : List Statement) (rows : List TokenTransfer)
      → (next : List Statement) × (insert_rows driver txn rows ≡ ok next)
  insert_rows-succeeds txn [] = (txn, refl)
  insert_rows-succeeds txn (row ∷ rows) = (_, execute-succeeds txn _)

  pub index_block_metadatas-succeeds :
      (history : List (List Statement)) (blocks : List BlockMetadata)
      → (after : List (List Statement)) × (index_block_metadatas driver history blocks ≡ ok after)
  unfolding index_block_metadatas index_block_metadatas_without_commit
  index_block_metadatas-succeeds history blocks =
      let (statements, e) = insert_chunks-succeeds [] (chunks max_sql_inserts blocks) in
      (history ++ statements ∷ [], rw (answers.begins, e, answers.commits statements))

  pub index_transaction-succeeds :
      (history : List (List Statement)) (transactions : List Transaction)
      → All (IsTimed driver) transactions
      → (after : List (List Statement)) × (index_transaction driver history transactions ≡ ok after)
  unfolding index_transaction index_transactions_without_commit
  index_transaction-succeeds history transactions timed =
      let (rows, e) =
        traverse-succeeds (IsTimed driver) (transaction_rows driver) rows-succeed transactions
          timed in
      let (statements, inserted) = insert_rows-succeeds [] (concat rows) in
      (history ++ statements ∷ [], rw (answers.begins, e, inserted, answers.commits statements))
