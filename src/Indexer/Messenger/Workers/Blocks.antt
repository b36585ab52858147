-- ===== src/Indexer/Messenger/Workers/Blocks.antt =====
-- Which block rows the workers of indexer/src/messenger.rs bring into the database, in whatever order
-- the steps of the system come.
use itihas.Dao.{Block}
use itihas.Indexer.Db.{Statement}
use itihas.Indexer.Db.Rows.{block_rows}
use itihas.Indexer.Messenger.Sending.{IsOpen, send_block_batches-leaves, total-sent}
use itihas.Indexer.Messenger.Workers.{
  Reach, Step, System, block_works, sends, starts, steps, transaction_works,
}
use itihas.Indexer.Messenger.Workers.Accounts.{Work-accounts, Work-keeps, held, held-spawn_workers}
use itihas.Indexer.Messenger.Workers.Stored.{
  block_weight, index_block_metadatas-stores, index_transaction-keeps, stored_blocks,
}
use itihas.Indexer.Types.{BlockInfo, BlockMetadata}
use itihas.Prelude.{
  List, [], ap, arith, concat, map, refl, total, total-append, total-concat, ℕ, ◌+◌, ◌++◌, ◌≡◌, ◌∷◌,
}

-- The metadatas of the blocks of batches.
abbrev pub sent_metadatas : List (List BlockInfo) → List BlockMetadata
sent_metadatas [] = []
sent_metadatas (block_batch ∷ batches) = map (λ b. b.metadata) block_batch ++ sent_metadatas batches

sent_metadatas-append :
    (weight : BlockMetadata → ℕ) (batches : List (List BlockInfo)) (block_batch : List BlockInfo)
    → total weight (sent_metadatas (batches ++ block_batch ∷ []))
      ≡ total weight (sent_metadatas batches) + total weight (map (λ b. b.metadata) block_batch)
sent_metadatas-append weight [] block_batch =
    let metadatas = map (λ b. b.metadata) block_batch in
    omega (arith, total-append weight metadatas [])
sent_metadatas-append weight (first ∷ batches) block_batch =
    let metadatas = map (λ b. b.metadata) first in
    omega (
      arith,
      total-append weight metadatas (sent_metadatas (batches ++ block_batch ∷ [])),
      total-append weight metadatas (sent_metadatas batches),
      sent_metadatas-append weight batches block_batch,
    )

module _ (weight : Block → ℕ) (before : List (List Statement)) where
  abbrev chunk_weight : List BlockMetadata → ℕ
  chunk_weight = total (block_weight weight)

  record Balance (s : System) : Type 0 where
    channels : IsOpen s.messenger
    blocks :
        stored_blocks weight s.history
          + total chunk_weight s.lost_blocks
          + total chunk_weight (held s.block_workers)
          + total chunk_weight s.messenger.block_channel.queue
        ≡ stored_blocks weight before + total (block_weight weight) (sent_metadatas s.sent)

  Step-Balance : {s t : System} → Step s t → Balance s → Balance t
  Step-Balance {s} (sends walks block_batch e) inv =
      let (walk, update, _, left) =
        send_block_batches-leaves walks s.messenger block_batch inv.channels e in
      let metadatas = map (λ b. b.metadata) block_batch in
      let queued = total-sent (block_weight weight) s.messenger.block_channel.queue metadatas in
      rw left (record {
        channels = record { blocks = refl; transactions = refl };
        blocks = omega (
          arith,
          queued,
          inv.blocks,
          sent_metadatas-append (block_weight weight) s.sent block_batch,
        );
      })
  Step-Balance {s} (block_works left right e work) inv =
      let moved =
        Work-accounts _ _ chunk_weight (stored_blocks weight) left right
          (index_block_metadatas-stores weight) work in
      let workers = ap (λ ws. total chunk_weight (held ws)) e in
      record {
        channels = record {
          blocks = inv.channels.blocks;
          transactions = inv.channels.transactions;
        };
        blocks = omega (arith, moved, workers, inv.blocks);
      }
  Step-Balance {s} (transaction_works left right e work) inv =
      let same = Work-keeps _ _ (stored_blocks weight) (index_transaction-keeps weight) work in
      record {
        channels = record {
          blocks = inv.channels.blocks;
          transactions = inv.channels.transactions;
        };
        blocks = omega (arith, same, inv.blocks);
      }

  Reach-Balance : {workers : ℕ} {s : System} → Reach workers before s → Balance s
  Reach-Balance {workers} starts = record {
    channels = record { blocks = refl; transactions = refl };
    blocks = rw (held-spawn_workers {A = List BlockMetadata} workers) (omega arith);
  }
  Reach-Balance (steps r step) = Step-Balance step (Reach-Balance r)

-- Whatever the order of the steps, and for every weight of rows: the block rows that the workers have
-- added to the database, those of the blocks that a worker indexes, of those that wait in the channel
-- and of those whose indexing failed weigh together what the rows of all the blocks sent weigh. So no
-- block is written twice, and only a failed call of the database loses one.
pub blocks_accounted :
    (weight : Block → ℕ) {workers : ℕ} {before : List (List Statement)} {s : System}
    → Reach workers before s
    → total weight (block_rows (concat s.history))
        + total (block_weight weight) (concat s.lost_blocks)
        + total (block_weight weight) (concat (held s.block_workers))
        + total (block_weight weight) (concat s.messenger.block_channel.queue)
      ≡ total weight (block_rows (concat before))
        + total (block_weight weight) (sent_metadatas s.sent)
blocks_accounted weight {before} {s} r =
    let f = block_weight weight in
    omega (
      arith,
      (Reach-Balance weight before r).blocks,
      total-concat f s.lost_blocks,
      total-concat f (held s.block_workers),
      total-concat f s.messenger.block_channel.queue,
    )
