-- ===== src/Indexer/Db.antt =====
-- indexer/src/db.rs: the writing of blocks and transfers.
-- The database is given by what `begin`, `execute` and `commit` answer. A transaction is the list of
-- the statements executed in it, and the database's history that of the transactions committed.
-- Statements are `insert_many` with `on_conflict(..).do_nothing()`, by their rows.
pub mod Rows
pub mod Batches
pub mod Keys
pub mod Success
pub mod Parameters
pub mod Tests
use mathlib.Core.Option
use itihas.Dao.{
  Block, BlockColumn, Column, TokenTransfer, block_time, destination_address, signature, slot,
  source_address,
}
use itihas.Indexer.StateUpdate.{
  StateUpdate, new, parse_block_state_update, merge_updates, batch_state_update,
}
use itihas.Indexer.Types.{
  BlockInfo, BlockMetadata, IndexerError, InstructionGroup, Transaction, database_error,
  max_sql_inserts,
}
use itihas.Prelude.{
  remove_nul, as_i64, chunks, concat, Option, none, some, String, text_append, ok, err, panic, inl,
  inr, unwrap, Result, List, [], map, Bool, if◌then◌else◌, traverse, ℤ, ◌∷◌, ◌++◌, ◌>>=◌, ◌>>◌, ◌⊎◌,
}

pub data Statement : Type 0 where
  insert_blocks : List Block → Statement
  insert_transfers : List TokenTransfer → Statement

-- The columns of `OnConflict::columns`, of both statements.
abbrev pub block_conflict : List BlockColumn
block_conflict = slot ∷ block_time ∷ []

abbrev pub transfer_conflict : List Column
transfer_conflict = signature ∷ block_time ∷ source_address ∷ destination_address ∷ []

-- What the driver answers: an error's text, if the call fails. `execute` also depends on what the
-- transaction has executed. `walk` is the order in which a set is iterated. The rows of one attempt
-- carry one time, `now`: the moments between the calls of `Utc::now` are not told apart.
pub record Driver : Type 0 where
  pub begin : Option String
  pub execute : List Statement → Statement → Option String
  pub commit : List Statement → Option String
  pub timestamp_in_range : ℤ → Bool
  pub now : ℤ
  pub walk : List Transaction → List Transaction

-- `From<DbErr>`
abbrev pub from_db_err : String → IndexerError
from_db_err text = database_error (text_append "DatabaseError: " text)

-- `?` on a call of the driver.
abbrev pub fails : Option String → Result IndexerError (Unit {0})
fails none = ok tt
fails (some text) = err (from_db_err text)

-- The `blocks::ActiveModel` of a block.
abbrev pub block_model : BlockMetadata → Block
block_model block = record {
  slot = as_i64 block.slot;
  parent_slot = as_i64 block.parent_slot;
  block_height = as_i64 block.block_height;
  block_time = block.block_time;
}

-- The `token_transfers::ActiveModel` of an instruction group.
abbrev pub transfer_model : ℤ → Transaction → InstructionGroup → TokenTransfer
transfer_model now transaction group = record {
  signature = transaction.signature;
  source_address = group.outer_instruction.source_address;
  program_id = group.outer_instruction.program_id;
  destination_address = group.outer_instruction.destination_address;
  source_ata = group.outer_instruction.source_ata;
  destination_ata = group.outer_instruction.destination_ata;
  mint_address = group.outer_instruction.mint;
  slot = as_i64 transaction.slot;
  amount = as_i64 group.outer_instruction.amount;
  error = Option.map remove_nul transaction.error;
  block_time = transaction.block_time;
  created_at = now;
}

module _ (driver : Driver) where
  -- `txn.execute(query)`
  abbrev pub execute : List Statement → Statement → Result IndexerError (List Statement)
  execute txn statement = fails (driver.execute txn statement) >> ok (txn ++ statement ∷ [])

  abbrev pub insert_chunks :
      List Statement → List (List BlockMetadata) → Result IndexerError (List Statement)
  insert_chunks txn [] = ok txn
  insert_chunks txn (block_chunk ∷ rest) =
      execute txn (insert_blocks (map block_model block_chunk)) >>= λ next. insert_chunks next rest

  unfoldable pub index_block_metadatas_without_commit :
      List Statement → List BlockMetadata → Result IndexerError (List Statement)
  index_block_metadatas_without_commit txn blocks =
      insert_chunks txn (chunks max_sql_inserts blocks)

  -- The row of a group; `NaiveDateTime::from_timestamp` panics out of its range.
  abbrev pub transfer_row : Transaction → InstructionGroup → Result IndexerError TokenTransfer
  transfer_row transaction group =
      if driver.timestamp_in_range transaction.block_time
      then ok (transfer_model driver.now transaction group)
      else panic

  abbrev pub transaction_rows : Transaction → Result IndexerError (List TokenTransfer)
  transaction_rows transaction = traverse (transfer_row transaction) transaction.instruction_groups

  abbrev pub insert_rows :
      List Statement → List TokenTransfer → Result IndexerError (List Statement)
  insert_rows txn [] = ok txn
  insert_rows txn (row ∷ rows) = execute txn (insert_transfers (row ∷ rows))

  unfoldable pub index_transactions_without_commit :
      List Statement → List Transaction → Result IndexerError (List Statement)
  index_transactions_without_commit txn transactions = do
    rows ← traverse transaction_rows transactions
    insert_rows txn (concat rows)

  unfoldable pub index_chunks :
      List Statement → List (List Transaction) → Result IndexerError (List Statement)
  unfolding index_transactions_without_commit
  index_chunks txn [] = ok txn
  index_chunks txn (chunk ∷ rest) =
      index_transactions_without_commit txn chunk >>= λ next. index_chunks next rest

  -- `state_update == StateUpdate::default()` returns at once.
  unfoldable pub index_transaction_update :
      List Statement → List Transaction → Result IndexerError (List Statement)
  unfolding index_chunks
  index_transaction_update txn [] = ok txn
  index_transaction_update txn (t ∷ ts) =
      index_chunks txn (chunks max_sql_inserts (driver.walk (t ∷ ts)))

  -- The new history, which a batch extends by its one transaction.
  unfoldable pub index_block_batch :
      List (List Statement) → List BlockInfo → Result IndexerError (List (List Statement))
  unfolding index_block_metadatas_without_commit index_transaction_update batch_state_update
  index_block_batch history block_batch = do
    fails driver.begin
    metadatas ← index_block_metadatas_without_commit [] (map (λ b. b.metadata) block_batch)
    update ← batch_state_update block_batch
    statements ← index_transaction_update metadatas update.transactions
    fails (driver.commit statements)
    ok (history ++ statements ∷ [])

  unfoldable pub index_block_metadatas :
      List (List Statement) → List BlockMetadata → Result IndexerError (List (List Statement))
  unfolding index_block_metadatas_without_commit
  index_block_metadatas history blocks = do
    fails driver.begin
    statements ← index_block_metadatas_without_commit [] blocks
    fails (driver.commit statements)
    ok (history ++ statements ∷ [])

  unfoldable pub index_transaction :
      List (List Statement) → List Transaction → Result IndexerError (List (List Statement))
  unfolding index_transactions_without_commit
  index_transaction history transactions = do
    fails driver.begin
    statements ← index_transactions_without_commit [] transactions
    fails (driver.commit statements)
    ok (history ++ statements ∷ [])

  unfoldable pub index_block :
      List (List Statement) → BlockInfo → Result IndexerError (List (List Statement))
  unfolding index_block_metadatas_without_commit index_transaction_update parse_block_state_update
  index_block history block = do
    fails driver.begin
    metadatas ← index_block_metadatas_without_commit [] (block.metadata ∷ [])
    update ← parse_block_state_update block
    statements ← index_transaction_update metadatas update.transactions
    fails (driver.commit statements)
    ok (history ++ statements ∷ [])

-- `index_block_batches`: the same batch again after each failure, over the driver's answers to the
-- attempts; `none` while they do not suffice. An empty batch panics in its error's message.
unfoldable pub index_block_batches :
    List Driver
    → List (List Statement)
    → List BlockInfo
    → Option (Result IndexerError (List (List Statement)))
unfolding index_block_batch
index_block_batches [] history block_batch = none
index_block_batches (driver ∷ drivers) history block_batch =
    let again = index_block_batches drivers history block_batch in
    elim (index_block_batch driver history block_batch) [
      | ok committed ↦ some (ok committed)
      | err e ↦ elim block_batch [ [] ↦ some panic | _ ∷ _ ↦ again ]
      | panic ↦ some panic
    ]

-- The loop of `fetch_last_indexed_slot` over the answers of the database: an error's text, or the row
-- of the query's result, which has the greatest slot or NULL. Without a row it panics.
unfoldable pub fetch_last_indexed_slot :
    List (String ⊎ Option (Option ℤ)) → Option (Result IndexerError (Option ℤ))
fetch_last_indexed_slot [] = none
fetch_last_indexed_slot (inl error ∷ answers) = fetch_last_indexed_slot answers
fetch_last_indexed_slot (inr row ∷ answers) = some (unwrap row)
