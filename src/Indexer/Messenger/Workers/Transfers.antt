-- ===== src/Indexer/Messenger/Workers/Transfers.antt =====
-- Which transfer rows the workers of indexer/src/messenger.rs bring into the database, in whatever
-- order the steps of the system come.
use itihas.Dao.{TokenTransfer}
use itihas.Indexer.Db.{Statement, transfer_model}
use itihas.Indexer.Db.Rows.{transfer_rows}
use itihas.Indexer.Messenger.Sending.{IsOpen, send_block_batches-leaves, total-sent}
use itihas.Indexer.Messenger.Workers.{
  Reach, Step, System, block_works, sends, starts, steps, transaction_works,
}
use itihas.Indexer.Messenger.Workers.Accounts.{Work-accounts, Work-keeps, held, held-spawn_workers}
use itihas.Indexer.Messenger.Workers.Stored.{
  index_block_metadatas-keeps, index_transaction-stores, stored_transfers,
}
use itihas.Indexer.StateUpdate.{batch_state_update}
use itihas.Indexer.Types.{BlockInfo, Transaction}
use itihas.Prelude.{
  List, [], ap, arith, concat, err, map, ok, panic, refl, total, total-Permᴰ, total-append,
  total-concat, ℕ, ℤ, ◌+◌, ◌++◌, ◌≡◌, ◌∷◌,
}

-- The set of transactions of a batch, as `batch_state_update` gives it.
abbrev pub update_transactions : List BlockInfo → List Transaction
update_transactions block_batch = elim (batch_state_update block_batch) [
  | ok update ↦ update.transactions
  | err e ↦ []
  | panic ↦ []
]

abbrev pub sent_transactions : List (List BlockInfo) → List Transaction
sent_transactions [] = []
sent_transactions (block_batch ∷ batches) =
    update_transactions block_batch ++ sent_transactions batches

sent_transactions-append :
    (weight : Transaction → ℕ) (batches : List (List BlockInfo)) (block_batch : List BlockInfo)
    → total weight (sent_transactions (batches ++ block_batch ∷ []))
      ≡ total weight (sent_transactions batches) + total weight (update_transactions block_batch)
sent_transactions-append weight [] block_batch =
    omega (arith, total-append weight (update_transactions block_batch) [])
sent_transactions-append weight (first ∷ batches) block_batch =
    let transactions = update_transactions first in
    omega (
      arith,
      total-append weight transactions (sent_transactions (batches ++ block_batch ∷ [])),
      total-append weight transactions (sent_transactions batches),
      sent_transactions-append weight batches block_batch,
    )

module _ (weight : TokenTransfer → ℕ) (transaction_weight : Transaction → ℕ)
    (timeless : (now : ℤ) (t : Transaction)
      → total weight (map (transfer_model now t) t.instruction_groups) ≡ transaction_weight t) where
  module _ (before : List (List Statement)) where
    abbrev chunk_weight : List Transaction → ℕ
    chunk_weight = total transaction_weight

    record Balance (s : System) : Type 0 where
      channels : IsOpen s.messenger
      transfers :
          stored_transfers weight s.history
            + total chunk_weight s.lost_transactions
            + total chunk_weight (held s.transaction_workers)
            + total chunk_weight s.messenger.transaction_channel.queue
          ≡ stored_transfers weight before + total transaction_weight (sent_transactions s.sent)

    Step-Balance : {s t : System} → Step s t → Balance s → Balance t
    Step-Balance {s} (sends walks block_batch e) inv =
        let (walk, update, parsed, left) =
          send_block_batches-leaves walks s.messenger block_batch inv.channels e in
        let transactions = update.transactions in
        let queue = s.messenger.transaction_channel.queue in
        let queued = total-sent transaction_weight queue (walk.order transactions) in
        let walked = total-Permᴰ transaction_weight (walk.keeps transactions) in
        let set : update_transactions block_batch ≡ transactions =
          rw (update_transactions, parsed) in
        let grown = sent_transactions-append transaction_weight s.sent block_batch in
        rw left (record {
          channels = record { blocks = refl; transactions = refl };
          transfers =
              omega
                (arith, queued, walked, inv.transfers, grown, ap (total transaction_weight) set);
        })
    Step-Balance {s} (transaction_works left right e work) inv =
        let moved =
          Work-accounts _ _ chunk_weight (stored_transfers weight) left right
            (index_transaction-stores weight transaction_weight timeless) work in
        let workers = ap (λ ws. total chunk_weight (held ws)) e in
        record {
          channels = record {
            blocks = inv.channels.blocks;
            transactions = inv.channels.transactions;
          };
          transfers = omega (arith, moved, workers, inv.transfers);
        }
    Step-Balance {s} (block_works left right e work) inv =
        let same =
          Work-keeps _ _ (stored_transfers weight)
            (index_block_metadatas-keeps weight transaction_weight timeless) work in
        record {
          channels = record {
            blocks = inv.channels.blocks;
            transactions = inv.channels.transactions;
          };
          transfers = omega (arith, same, inv.transfers);
        }

    Reach-Balance : {workers : ℕ} {s : System} → Reach workers before s → Balance s
    Reach-Balance {workers} starts = record {
      channels = record { blocks = refl; transactions = refl };
      transfers = rw (held-spawn_workers {A = List Transaction} workers) (omega arith);
    }
    Reach-Balance (steps r step) = Step-Balance step (Reach-Balance r)

  -- Whatever the order of the steps, and for every weight of rows that does not see when a row is
  -- written, so that the rows of a transaction have one weight: the transfer rows that the workers have
  -- added to the database, those of the transactions that a worker indexes, of those that wait in the
  -- channel and of those whose indexing failed weigh together what the rows of the sets of
  -- transactions of all the batches sent weigh.
  pub transfers_accounted :
      {workers : ℕ} {before : List (List Statement)} {s : System}
      → Reach workers before s
      → total weight (transfer_rows (concat s.history))
          + total transaction_weight (concat s.lost_transactions)
          + total transaction_weight (concat (held s.transaction_workers))
          + total transaction_weight (concat s.messenger.transaction_channel.queue)
        ≡ total weight (transfer_rows (concat before))
          + total transaction_weight (sent_transactions s.sent)
  transfers_accounted {before} {s} r = omega (
    arith,
    (Reach-Balance before r).transfers,
    total-concat transaction_weight s.lost_transactions,
    total-concat transaction_weight (held s.transaction_workers),
    total-concat transaction_weight s.messenger.transaction_channel.queue,
  )
