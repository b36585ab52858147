-- ===== src/Indexer/Messenger/Tests.antt =====
-- A batch of one block, sent by a new messenger and written by one worker of each kind.
use mathlib.Core.List.Permᴰ
use mathlib.Core.WellFounded.{Acc}
use itihas.Indexer.Db.{
  Statement, block_model, from_db_err, index_block_metadatas, index_transaction, insert_blocks,
  insert_transfers,
}
use itihas.Indexer.Db.Rows.{block_rows, rows_of}
use itihas.Indexer.Db.Tests.{block, broken, driver}
use itihas.Indexer.Messenger.{
  Messenger, Walk, new, send_block_batch, send_block_batches, send_block_metadatas,
  send_transaction_update,
}
use itihas.Indexer.Messenger.Sending.{IsOpen, send_block_batches-sends}
use itihas.Indexer.Messenger.Workers.{
  Reach, System, block_works, fails, indexes, receives, run, sends, starts, steps,
  transaction_works,
}
use itihas.Indexer.Messenger.Workers.Blocks.{blocks_accounted}
use itihas.Indexer.Messenger.Workers.Rest.{WorkStep, WorkStep-terminates}
use itihas.Indexer.StateUpdate.{batch_state_update}
use itihas.Indexer.StateUpdate.Membership.{IsSetOf, batch_transactions}
use itihas.Indexer.Types.{BlockMetadata, Transaction}
use itihas.Prelude.{
  All, IsChunk, List, [], concat, err, none, ok, pos, refl, some, total, ℕ, ◌+◌, ◌≡◌, ◌∷◌, chunks,
}

abbrev walk : Walk
walk = record { order = λ set. set; keeps = λ set. Permᴰ.refl set }

abbrev queued : Messenger
queued = record {
  block_channel = record { queue = (block.metadata ∷ []) ∷ []; closed = none };
  transaction_channel = record { queue = block.transactions ∷ []; closed = none };
}

batch_sent : send_block_batches (walk ∷ []) new (block ∷ []) ≡ some (queued, ok tt)
unfolding send_block_batches send_block_batch send_block_metadatas send_transaction_update
    batch_state_update chunks
batch_sent = refl

IsOpen-new : IsOpen new
IsOpen-new = record { blocks = refl; transactions = refl }

send_block_batches-sends_example :
    (sent : Messenger) × (metadatas : List (List BlockMetadata)) × (parts : List (List Transaction))
    × (send_block_batches (walk ∷ []) new (block ∷ []) ≡ some (sent, ok tt))
    × IsOpen sent
    × (sent.block_channel.queue ≡ metadatas)
    × (concat metadatas ≡ block.metadata ∷ [])
    × All (IsChunk 5000) metadatas
    × (sent.transaction_channel.queue ≡ parts)
    × IsSetOf (concat parts) (batch_transactions (block ∷ []))
    × All (IsChunk 5000) parts
send_block_batches-sends_example = send_block_batches-sends walk [] new (block ∷ []) IsOpen-new

abbrev block_rows_of : List Statement
block_rows_of = insert_blocks (block_model block.metadata ∷ []) ∷ []

abbrev transfer_rows_of : List Statement
transfer_rows_of = insert_transfers (rows_of (pos 200) block.transactions) ∷ []

abbrev after_sending : System
after_sending = record (run 1 []) { messenger = queued; sent = (block ∷ []) ∷ [] }

is_sent : Reach 1 [] after_sending
is_sent = steps starts (sends (walk ∷ []) (block ∷ []) batch_sent)

-- The block's row is written, the transaction waits.
abbrev block_written : System
block_written = record after_sending {
  messenger = record queued { block_channel = record { queue = []; closed = none } };
  history = block_rows_of ∷ [];
}

block_indexed : index_block_metadatas driver [] (block.metadata ∷ []) ≡ ok (block_rows_of ∷ [])
unfolding index_block_metadatas chunks
block_indexed = refl

is_block_written : Reach 1 [] block_written
is_block_written =
    steps (steps is_sent (block_works [] [] refl receives))
      (block_works [] [] refl (indexes driver block_indexed))

abbrev drained : System
drained = record block_written { messenger = new; history = block_rows_of ∷ transfer_rows_of ∷ [] }

transaction_indexed :
    index_transaction driver (block_rows_of ∷ []) block.transactions
    ≡ ok (block_rows_of ∷ transfer_rows_of ∷ [])
unfolding index_transaction rows_of
transaction_indexed = refl

is_drained : Reach 1 [] drained
is_drained =
    steps (steps is_block_written (transaction_works [] [] refl receives))
      (transaction_works [] [] refl (indexes driver transaction_indexed))

-- The block's row is not written: the call of the database failed.
abbrev block_lost : System
block_lost = record block_written { history = []; lost_blocks = (block.metadata ∷ []) ∷ [] }

block_fails :
    index_block_metadatas broken [] (block.metadata ∷ []) ≡ err (from_db_err "connection closed")
unfolding index_block_metadatas chunks
block_fails = refl

is_block_lost : Reach 1 [] block_lost
is_block_lost =
    steps (steps is_sent (block_works [] [] refl receives))
      (block_works [] [] refl (fails broken block_fails))

abbrev one : {A : Type 0} → A → ℕ
one _ = 1

blocks_accounted_example : total one (block_rows []) + 1 + 0 + 0 ≡ total one (block_rows []) + 1
blocks_accounted_example = blocks_accounted one is_block_lost

WorkStep-terminates_example : Acc (λ t u. WorkStep u t) after_sending
WorkStep-terminates_example = WorkStep-terminates after_sending
