-- ===== src/Indexer/Db/Parameters.antt =====
-- How many parameters a statement of indexer/src/db.rs takes: one for each column of each row.
use itihas.Dao.{TokenTransfer}
use itihas.Indexer.Db.{
  Driver, Statement, fails, index_transaction, index_transactions_without_commit, insert_blocks,
  insert_rows, insert_transfers, transaction_rows, transfer_model,
}
use itihas.Indexer.Db.Rows.{all_rows-eq-ok, execute-eq-ok, rows_of}
use itihas.Indexer.Types.{Transaction}
use itihas.Prelude.{
  List, [], arith, concat, length, length-append, length-map, map, ok, ok-injective, refl, sym,
  total, traverse, >>=-eq-ok, ℕ, ℤ, ◌*◌, ◌+◌, ◌++◌, ◌≡◌, ◌≤◌, ◌∷◌,
}

abbrev pub parameters : Statement → ℕ
parameters (insert_blocks rows) = 4 * length rows
parameters (insert_transfers rows) = 12 * length rows

-- The groups of some transactions, counted.
abbrev pub group_count : List Transaction → ℕ
group_count [] = 0
group_count (t ∷ ts) = length t.instruction_groups + group_count ts

rows_of-length : (now : ℤ) (ts : List Transaction) → length (rows_of now ts) ≡ group_count ts
unfolding rows_of
rows_of-length now [] = refl
rows_of-length now (t ∷ ts) =
    let first = map (transfer_model now t) t.instruction_groups in
    omega (
      arith,
      length-append first (rows_of now ts),
      length-map (transfer_model now t) t.instruction_groups,
      rows_of-length now ts,
    )

module _ (driver : Driver) where
  insert_rows-parameters :
      (rows : List TokenTransfer) {next : List Statement}
      → insert_rows driver [] rows ≡ ok next
      → (total parameters next ≡ 12 * length rows) × (length next ≤ 1)
  insert_rows-parameters [] h = rw (← ok-injective h) (refl, omega arith)
  insert_rows-parameters (row ∷ rows) h =
      rw (execute-eq-ok driver [] (insert_transfers (row ∷ rows)) h) (omega arith, omega arith)

  -- The transaction that a chunk of transactions adds has at most one statement, which takes 12
  -- parameters for each group of each of the chunk's transactions.
  pub index_transaction-parameters :
      (history after : List (List Statement)) (ts : List Transaction)
      → index_transaction driver history ts ≡ ok after
      → (statements : List Statement) × (after ≡ history ++ statements ∷ [])
        × (length statements ≤ 1)
        × (total parameters statements ≡ 12 * group_count ts)
  unfolding index_transaction index_transactions_without_commit
  index_transaction-parameters history after ts h =
      let (_, _, h1) = >>=-eq-ok (fails driver.begin) _ h in
      let (statements, e, h2) = >>=-eq-ok (index_transactions_without_commit driver [] ts) _ h1 in
      let (_, _, h3) = >>=-eq-ok (fails (driver.commit statements)) _ h2 in
      let (rows, e1, e2) = >>=-eq-ok (traverse (transaction_rows driver) ts) _ e in
      let (sum, few) = insert_rows-parameters (concat rows) e2 in
      let count = rows_of-length driver.now ts in
      (statements, sym (ok-injective h3), few, rw (all_rows-eq-ok driver ts e1, count) at sum)
