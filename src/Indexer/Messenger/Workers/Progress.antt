-- ===== src/Indexer/Messenger/Workers/Progress.antt =====
-- With a database that answers, the workers of indexer/src/messenger.rs can bring everything that is
-- sent into the database.
use mathlib.Core.List.Permᴰ
use mathlib.Core.List.{append-nil, append_assoc}
use itihas.Indexer.Db.{Driver, Statement}
use itihas.Indexer.Db.Success.{
  IsAnswering, IsTimed, index_block_metadatas-succeeds, index_transaction-succeeds,
}
use itihas.Indexer.Messenger.{Walk, new}
use itihas.Indexer.Messenger.Sending.{send_block_batches-open}
use itihas.Indexer.Messenger.Workers.{
  Reach, System, block_works, indexes, receives, sends, spawn_workers, starts, steps,
  transaction_works,
}
use itihas.Indexer.Types.{BlockInfo, BlockMetadata, Transaction, max_sql_inserts}
use itihas.Indexer.StateUpdate.Membership.{batch_transactions}
use itihas.Prelude.{
  All, All-Mem, All-of_Mem, All-of_concat, chunks-concat, List, [], chunks, map, none, refl, suc, ℕ,
  ◌++◌, ◌∷◌,
}

-- A system whose workers all await a chunk, and that has lost nothing.
abbrev pub waiting :
    ℕ
    → List (List BlockMetadata)
    → List (List Transaction)
    → List (List Statement)
    → List (List BlockInfo)
    → System
waiting workers blocks transactions history sent = record {
  messenger = record {
    block_channel = record { queue = blocks; closed = none };
    transaction_channel = record { queue = transactions; closed = none };
  };
  block_workers = spawn_workers workers;
  transaction_workers = spawn_workers workers;
  history = history;
  sent = sent;
  lost_blocks = [];
  lost_transactions = [];
}

module _ (driver : Driver) (answers : IsAnswering driver) (workers : ℕ)
    (before : List (List Statement)) where
  IsTimed-prop : (transaction : Transaction) → IsProp (IsTimed driver transaction)
  IsTimed-prop transaction = hlevel

  chunks-IsTimed :
      (transactions : List Transaction)
      → All (IsTimed driver) transactions
      → All (All (IsTimed driver)) (chunks max_sql_inserts transactions)
  chunks-IsTimed transactions timed =
      All-of_concat (IsTimed driver) (chunks max_sql_inserts transactions)
        (rw (chunks-concat max_sql_inserts transactions) timed)

  -- The first worker takes one chunk after the other.
  drain_blocks :
      (blocks : List (List BlockMetadata)) (transactions : List (List Transaction))
      (history : List (List Statement)) (sent : List (List BlockInfo))
      → Reach (suc workers) before (waiting (suc workers) blocks transactions history sent)
      → (after : List (List Statement)) × Reach
          (suc workers)
          before
          (waiting (suc workers) [] transactions after sent)
  drain_blocks [] transactions history sent r = (history, r)
  drain_blocks (chunk ∷ blocks) transactions history sent r =
      let (after, e) = index_block_metadatas-succeeds driver answers history chunk in
      let taken = steps r (block_works [] (spawn_workers workers) refl receives) in
      let written = steps taken (block_works [] (spawn_workers workers) refl (indexes driver e)) in
      drain_blocks blocks transactions after sent written

  drain_transactions :
      (transactions : List (List Transaction)) (history : List (List Statement))
      (sent : List (List BlockInfo))
      → All (All (IsTimed driver)) transactions
      → Reach (suc workers) before (waiting (suc workers) [] transactions history sent)
      → (after : List (List Statement)) × Reach
          (suc workers)
          before
          (waiting (suc workers) [] [] after sent)
  drain_transactions [] history sent timed r = (history, r)
  drain_transactions (chunk ∷ transactions) history sent timed r =
      let (after, e) = index_transaction-succeeds driver answers history chunk timed.0 in
      let taken = steps r (transaction_works [] (spawn_workers workers) refl receives) in
      let written =
        steps taken (transaction_works [] (spawn_workers workers) refl (indexes driver e)) in
      drain_transactions transactions after sent timed.1 written

  send_and_drain :
      (walk : Walk) (block_batch : List BlockInfo) (history : List (List Statement))
      (sent : List (List BlockInfo))
      → All (IsTimed driver) (batch_transactions block_batch)
      → Reach (suc workers) before (waiting (suc workers) [] [] history sent)
      → (after : List (List Statement)) × Reach
          (suc workers)
          before
          (waiting (suc workers) [] [] after (sent ++ block_batch ∷ []))
  send_and_drain walk block_batch history sent timed r =
      let (update, _, set, e) =
        send_block_batches-open walk [] new block_batch
          (record { blocks = refl; transactions = refl }) in
      let blocks = chunks max_sql_inserts (map (λ b. b.metadata) block_batch) in
      let transactions = chunks max_sql_inserts (walk.order update.transactions) in
      let queued = steps r (sends (walk ∷ []) block_batch e) in
      let (middle, written) =
        drain_blocks blocks transactions history (sent ++ block_batch ∷ []) queued in
      drain_transactions transactions middle (sent ++ block_batch ∷ [])
        (chunks-IsTimed (walk.order update.transactions) (
          All-of_Mem (IsTimed driver) (walk.order update.transactions) λ t m.
            All-Mem (IsTimed driver) IsTimed-prop (batch_transactions block_batch) timed t
              (set.sound t (Permᴰ.mem (walk.keeps update.transactions) m))))
        written

  send_all_from :
      (walk : Walk) (batches : List (List BlockInfo)) (history : List (List Statement))
      (sent : List (List BlockInfo))
      → All (λ block_batch. All (IsTimed driver) (batch_transactions block_batch)) batches
      → Reach (suc workers) before (waiting (suc workers) [] [] history sent)
      → (after : List (List Statement)) × Reach
          (suc workers)
          before
          (waiting (suc workers) [] [] after (sent ++ batches))
  send_all_from walk [] history sent timed r = (history, rw (append-nil sent) r)
  send_all_from walk (block_batch ∷ batches) history sent timed r =
      let (middle, written) = send_and_drain walk block_batch history sent timed.0 r in
      let (after, all) =
        send_all_from walk batches middle (sent ++ block_batch ∷ []) timed.1 written in
      (after, rw (append_assoc sent (block_batch ∷ []) batches) at all)

  -- From the start on, with at least one worker of each kind, every sequence of batches whose
  -- transactions have times in range can be sent and
  -- indexed until all channels are empty, all workers wait and nothing is lost.
  pub batches_drained :
      (walk : Walk) (batches : List (List BlockInfo))
      → All (λ block_batch. All (IsTimed driver) (batch_transactions block_batch)) batches
      → (after : List (List Statement)) × Reach
          (suc workers)
          before
          (waiting (suc workers) [] [] after batches)
  batches_drained walk batches timed = send_all_from walk batches before [] timed starts
