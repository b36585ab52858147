-- ===== src/Indexer/Db/Batches.antt =====
-- What a batch writes, and how it is tried again.
use itihas.Indexer.Db.Rows.{
  block_rows, transfer_rows, rows_of, insert_chunks-writes, index_chunks-writes,
  index_transactions-writes,
}
use mathlib.Core.List.{append-nil}
use itihas.Indexer.Db.{
  Driver, Statement, block_model, fails, index_block_batch, index_block_batches,
  index_block_metadatas, index_block_metadatas_without_commit, index_transaction,
  index_transaction_update, index_transactions_without_commit,
}
use itihas.Indexer.StateUpdate.{StateUpdate, batch_state_update}
use itihas.Indexer.Types.{BlockInfo, BlockMetadata, IndexerError, Transaction, max_sql_inserts}
use itihas.Prelude.{
  All, chunks, chunks-concat, >>=-eq-ok, List, [], ap, err, map, ok, ok-injective, refl, some, sym,
  ◌++◌, ◌≡◌, ◌∙◌, ◌∷◌,
}

module _ (driver : Driver) where
  index_transaction_update-writes :
      (txn : List Statement) (ts : List Transaction) {next : List Statement}
      → driver.walk [] ≡ []
      → index_transaction_update driver txn ts ≡ ok next
      → (block_rows next ≡ block_rows txn)
        × (transfer_rows next ≡ transfer_rows txn ++ rows_of driver.now (driver.walk ts))
  unfolding index_transaction_update rows_of
  index_transaction_update-writes txn [] w h =
      rw (← ok-injective h, w) (refl, sym (append-nil (transfer_rows txn)))
  index_transaction_update-writes txn (t ∷ ts) w h =
      let (bs, rows) =
        index_chunks-writes driver txn (chunks max_sql_inserts (driver.walk (t ∷ ts))) h in
      (bs, rw (chunks-concat max_sql_inserts (driver.walk (t ∷ ts))) at rows)

  -- A batch that is indexed adds one transaction to the history, whose statements insert the rows of
  -- all the batch's blocks, and one row for each group of every transaction of the batch's update, in
  -- the order in which its set is walked, and no others, whatever the sizes of the chunks.
  pub index_block_batch-writes :
      (history after : List (List Statement)) (block_batch : List BlockInfo)
      → driver.walk [] ≡ []
      → index_block_batch driver history block_batch ≡ ok after
      → (statements : List Statement) × (update : StateUpdate) × (after
          ≡ history ++ statements ∷ [])
        × (batch_state_update block_batch ≡ ok update)
        × (block_rows statements ≡ map block_model (map (λ b. b.metadata) block_batch))
        × (transfer_rows statements ≡ rows_of driver.now (driver.walk update.transactions))
  unfolding index_block_batch index_block_metadatas_without_commit block_rows transfer_rows
  index_block_batch-writes history after block_batch w h =
      let metadatas = map (λ b. b.metadata) block_batch in
      let (_, _, h1) = >>=-eq-ok (fails driver.begin) _ h in
      let (first, e1, h2) =
        >>=-eq-ok (index_block_metadatas_without_commit driver [] metadatas) _ h1 in
      let (update, e2, h3) = >>=-eq-ok (batch_state_update block_batch) _ h2 in
      let (statements, e3, h4) =
        >>=-eq-ok (index_transaction_update driver first update.transactions) _ h3 in
      let (_, _, h5) = >>=-eq-ok (fails (driver.commit statements)) _ h4 in
      let (b1, t1) = insert_chunks-writes driver [] (chunks max_sql_inserts metadatas) e1 in
      let (b2, t2) = index_transaction_update-writes first update.transactions w e3 in
      (
        statements,
        update,
        sym (ok-injective h5),
        e2,
        b2 ∙ b1 ∙ ap (map block_model) (chunks-concat max_sql_inserts metadatas),
        rw t1 at t2,
      )

-- Metadatas that are indexed add one transaction, which inserts the row of each of them.
pub index_block_metadatas-writes :
    (driver : Driver) (history after : List (List Statement)) (blocks : List BlockMetadata)
    → index_block_metadatas driver history blocks ≡ ok after
    → (statements : List Statement) × (after ≡ history ++ statements ∷ [])
      × (block_rows statements ≡ map block_model blocks)
      × (transfer_rows statements ≡ [])
unfolding index_block_metadatas index_block_metadatas_without_commit block_rows transfer_rows
index_block_metadatas-writes driver history after blocks h =
    let (_, _, h1) = >>=-eq-ok (fails driver.begin) _ h in
    let (statements, e, h2) =
      >>=-eq-ok (index_block_metadatas_without_commit driver [] blocks) _ h1 in
    let (_, _, h3) = >>=-eq-ok (fails (driver.commit statements)) _ h2 in
    let (b, t) = insert_chunks-writes driver [] (chunks max_sql_inserts blocks) e in
    (
      statements,
      sym (ok-injective h3),
      b ∙ ap (map block_model) (chunks-concat max_sql_inserts blocks),
      t,
    )

-- Transactions that are indexed add one transaction, which inserts a row for each of their groups.
pub index_transaction-writes :
    (driver : Driver) (history after : List (List Statement)) (transactions : List Transaction)
    → index_transaction driver history transactions ≡ ok after
    → (statements : List Statement) × (after ≡ history ++ statements ∷ [])
      × (block_rows statements ≡ [])
      × (transfer_rows statements ≡ rows_of driver.now transactions)
unfolding index_transaction block_rows transfer_rows
index_transaction-writes driver history after transactions h =
    let (_, _, h1) = >>=-eq-ok (fails driver.begin) _ h in
    let (statements, e, h2) =
      >>=-eq-ok (index_transactions_without_commit driver [] transactions) _ h1 in
    let (_, _, h3) = >>=-eq-ok (fails (driver.commit statements)) _ h2 in
    let (b, t) = index_transactions-writes driver [] transactions e in
    (statements, sym (ok-injective h3), b, t)

-- The attempts that fail with an error leave no trace: after any number of them, the first attempt
-- that succeeds indexes the batch, once.
index_block_batches-retries :
    (failing : List Driver) (driver : Driver) (rest : List Driver)
    (history after : List (List Statement)) (b : BlockInfo) (bs : List BlockInfo)
    → All (λ d. (e : IndexerError) × (index_block_batch d history (b ∷ bs) ≡ err e)) failing
    → index_block_batch driver history (b ∷ bs) ≡ ok after
    → index_block_batches (failing ++ driver ∷ rest) history (b ∷ bs) ≡ some (ok after)
unfolding index_block_batches
index_block_batches-retries [] driver rest history after b bs f h = rw (index_block_batches, h)
index_block_batches-retries (d ∷ failing) driver rest history after b bs f h =
    rw (index_block_batches, f.0.1)
      (index_block_batches-retries failing driver rest history after b bs f.1 h)
