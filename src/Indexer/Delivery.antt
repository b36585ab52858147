-- ===== src/Indexer/Delivery.antt =====
-- The way of a block from the stream to the database: `continously_index_new_blocks` of
-- indexer/src/streamer.rs over the messenger and the workers of indexer/src/messenger.rs.
pub mod Tests
use mathlib.Core.List.{Perm}
use itihas.Indexer.Db.{Driver, Statement, block_model}
use itihas.Indexer.Db.Rows.{block_rows, rows_of, transfer_rows}
use itihas.Indexer.Db.Success.{IsAnswering, IsTimed}
use itihas.Indexer.Messenger.{Walk}
use itihas.Indexer.Messenger.Workers.{Reach, System}
use itihas.Indexer.Messenger.Workers.Accounts.{held, held-spawn_workers}
use itihas.Indexer.Messenger.Workers.Arrival.{blocks_arrive, transfers_arrive, untimed}
use itihas.Indexer.Messenger.Workers.Blocks.{sent_metadatas}
use itihas.Indexer.Messenger.Workers.Progress.{batches_drained, waiting}
use itihas.Indexer.Messenger.Workers.Transfers.{sent_transactions}
use itihas.Indexer.Poller.{Standing}
use itihas.Indexer.Streamer.{continously_index_new_blocks}
use itihas.Indexer.Streamer.Sending.{continously_index_new_blocks-sends}
use itihas.Indexer.Types.{BlockInfo, BlockMetadata, Transaction}
use itihas.Indexer.StateUpdate.Membership.{batch_transactions}
use itihas.Prelude.{
  All, Bool, List, [], ap, concat, map, pos, refl, suc, ℕ, ◌++◌, ◌<◌, ◌≡◌, ◌≤◌, ◌∙◌, ◌∷◌,
}

-- Nothing waits, nothing is being indexed, and no call of the database has failed.
pub record IsDrained (s : System) : Type 0 where
  pub blocks : s.messenger.block_channel.queue ≡ []
  pub transactions : s.messenger.transaction_channel.queue ≡ []
  pub block_workers : held s.block_workers ≡ []
  pub transaction_workers : held s.transaction_workers ≡ []
  pub lost_blocks : s.lost_blocks ≡ []
  pub lost_transactions : s.lost_transactions ≡ []

-- The rows of the INSERT statements that are committed are those of the statements that were, the rows
-- of blocks, and those of the set of transactions of each of them, in some order and but for the time
-- at which they were written. What a table keeps of such rows is up to ON CONFLICT.
pub record Holds (before after : List (List Statement)) (blocks : List BlockInfo) : Type 0 where
  pub block_rows_of :
      Perm
        (block_rows (concat after))
        (block_rows (concat before) ++ map block_model (map (λ b. b.metadata) blocks))
  pub transfer_rows_of : Perm (map untimed (transfer_rows (concat after))) (
      map untimed (transfer_rows (concat before))
      ++ rows_of (pos 0) (sent_transactions (map (λ b. b ∷ []) blocks)))

singletons :
    (blocks : List BlockInfo)
    → sent_metadatas (map (λ b. b ∷ []) blocks) ≡ map (λ b. b.metadata) blocks
singletons [] = refl
singletons (b ∷ bs) = ap (λ rest. b.metadata ∷ rest) (singletons bs)

drained-Holds :
    {workers : ℕ} {before : List (List Statement)} {s : System} (blocks : List BlockInfo)
    → Reach workers before s
    → s.sent ≡ map (λ b. b ∷ []) blocks
    → IsDrained s
    → Holds before s.history blocks
drained-Holds {workers} {before} {s} blocks r sent d =
    let arrived = blocks_arrive {s = s} r d.blocks d.block_workers d.lost_blocks in
    let transferred =
      transfers_arrive {s = s} r d.transactions d.transaction_workers d.lost_transactions in
    record {
      block_rows_of = rw (sent, singletons blocks) at arrived;
      transfer_rows_of = rw sent at transferred;
    }

waiting-IsDrained :
    (workers : ℕ) (history : List (List Statement)) (sent : List (List BlockInfo))
    → IsDrained (waiting workers [] [] history sent)
waiting-IsDrained workers history sent = record {
  blocks = refl;
  transactions = refl;
  block_workers = held-spawn_workers {A = List BlockMetadata} workers;
  transaction_workers = held-spawn_workers {A = List Transaction} workers;
  lost_blocks = refl;
  lost_transactions = refl;
}

module _ (checks : Bool) (stream : ℕ → List BlockInfo × Standing) (current_slot start : ℕ) where
  -- The batches that the task sends over the stream.
  abbrev pub task_batches : List (List BlockInfo)
  task_batches = (continously_index_new_blocks checks stream current_slot start).0

  -- If the start slot is neither 0 nor past the current slot, and no block of the stream lies before
  -- it: after every run of the messenger's system, with whatever order of steps, in which the batches
  -- sent are those of the task and that is drained without a failure, the rows of the INSERT statements
  -- committed since are those of the stream's blocks and of the set of transactions of each, and no
  -- others, in some order and but for the time of writing.
  pub drained_run-Holds :
      {workers : ℕ} {before : List (List Statement)} {s : System}
      → 0 < start
      → start ≤ current_slot
      → All (λ b. start ≤ b.metadata.slot) (stream start).0
      → Reach workers before s
      → s.sent ≡ task_batches
      → IsDrained s
      → Holds before s.history (stream start).0
  drained_run-Holds positive h later r sent d =
      let sends =
        continously_index_new_blocks-sends checks stream current_slot start positive h later in
      drained-Holds (stream start).0 r (sent ∙ ap (λ outcome. outcome.0) sends) d

  -- With at least one worker of each kind, a database that answers every call, and transactions in the
  -- batches of the task whose times are in the range of a timestamp, there is a run that sends these
  -- batches and is drained without a failure.
  pub drained_run :
      (workers : ℕ) (before : List (List Statement)) (driver : Driver) (walk : Walk)
      → IsAnswering driver
      → All (λ batch. All (IsTimed driver) (batch_transactions batch)) task_batches
      → (s : System) × Reach (suc workers) before s × (s.sent ≡ task_batches) × IsDrained s
  drained_run workers before driver walk answers timed =
      let (after, r) = batches_drained driver answers workers before walk task_batches timed in
      (
        waiting (suc workers) [] [] after task_batches,
        r,
        refl,
        waiting-IsDrained (suc workers) after task_batches,
      )
