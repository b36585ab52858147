-- ===== src/Indexer/Messenger/Workers/Arrival.antt =====
-- What the database holds when the workers of indexer/src/messenger.rs have drained their channels.
use mathlib.Core.List.{Perm}
use itihas.Dao.{Block-discrete, TokenTransfer, TokenTransfer-discrete}
use itihas.Indexer.Db.{Statement, block_model, transfer_model}
use itihas.Indexer.Db.Rows.{block_rows, rows_of, transfer_rows}
use itihas.Indexer.Messenger.Workers.{Reach, System}
use itihas.Indexer.Messenger.Workers.Accounts.{held}
use itihas.Indexer.Messenger.Workers.Blocks.{blocks_accounted, sent_metadatas}
use itihas.Indexer.Messenger.Workers.Stored.{block_weight}
use itihas.Indexer.Messenger.Workers.Transfers.{sent_transactions, transfers_accounted}
use itihas.Indexer.Types.{InstructionGroup, Transaction}
use itihas.Prelude.{
  List, Perm-of_totals, [], ap, arith, concat, map, pos, refl, total, total-append, total-map, ℕ, ℤ,
  ◌+◌, ◌++◌, ◌≡◌, ◌∷◌,
}

-- When nothing waits, nothing is being indexed and no call of the database has failed, the rows of
-- blocks in the committed statements are those that were there before and one for each block sent, in some order.
pub blocks_arrive :
    {workers : ℕ} {before : List (List Statement)} {s : System}
    → Reach workers before s
    → s.messenger.block_channel.queue ≡ []
    → held s.block_workers ≡ []
    → s.lost_blocks ≡ []
    → Perm
        (block_rows (concat s.history))
        (block_rows (concat before) ++ map block_model (sent_metadatas s.sent))
blocks_arrive {before} {s} r waiting working failed = Perm-of_totals Block-discrete _ _ λ weight.
    let f = block_weight weight in
    omega (
      arith,
      blocks_accounted weight r,
      ap (λ q. total f (concat q)) waiting,
      ap (λ q. total f (concat q)) working,
      ap (λ q. total f (concat q)) failed,
      total-append weight (block_rows (concat before)) (map block_model (sent_metadatas s.sent)),
      total-map weight block_model (sent_metadatas s.sent),
    )

-- A row without the time at which it was written.
abbrev pub untimed : TokenTransfer → TokenTransfer
untimed row = record row { created_at = pos 0 }

module _ (weight : TokenTransfer → ℕ) where
  abbrev untimed_weight : TokenTransfer → ℕ
  untimed_weight row = weight (untimed row)

  abbrev transaction_weight : Transaction → ℕ
  transaction_weight t = total weight (map (transfer_model (pos 0) t) t.instruction_groups)

  groups-timeless :
      (now : ℤ) (t : Transaction) (groups : List InstructionGroup)
      → total untimed_weight (map (transfer_model now t) groups)
        ≡ total weight (map (transfer_model (pos 0) t) groups)
  groups-timeless now t [] = refl
  groups-timeless now t (g ∷ gs) =
      ap (λ rest. weight (transfer_model (pos 0) t g) + rest) (groups-timeless now t gs)

  rows_of-weight :
      (ts : List Transaction) → total weight (rows_of (pos 0) ts) ≡ total transaction_weight ts
  unfolding rows_of
  rows_of-weight [] = refl
  rows_of-weight (t ∷ ts) =
      let first = map (transfer_model (pos 0) t) t.instruction_groups in
      omega (arith, total-append weight first (rows_of (pos 0) ts), rows_of-weight ts)

-- When nothing waits, nothing is being indexed and no call of the database has failed, the rows of
-- transfers in the committed statements, but for the time at which they were written, are those that were there before and those of
-- the sets of transactions of all the batches sent, in some order.
pub transfers_arrive :
    {workers : ℕ} {before : List (List Statement)} {s : System}
    → Reach workers before s
    → s.messenger.transaction_channel.queue ≡ []
    → held s.transaction_workers ≡ []
    → s.lost_transactions ≡ []
    → Perm
        (map untimed (transfer_rows (concat s.history)))
        (map untimed (transfer_rows (concat before)) ++ rows_of (pos 0) (sent_transactions s.sent))
transfers_arrive {before} {s} r waiting working failed =
    Perm-of_totals TokenTransfer-discrete _ _ λ weight.
      let f = transaction_weight weight in
      let balance =
        transfers_accounted (untimed_weight weight) f
          (λ now t. groups-timeless weight now t t.instruction_groups) r in
      omega (
        arith,
        balance,
        ap (λ q. total f (concat q)) waiting,
        ap (λ q. total f (concat q)) working,
        ap (λ q. total f (concat q)) failed,
        total-append weight (map untimed (transfer_rows (concat before)))
            (rows_of (pos 0) (sent_transactions s.sent)),
        total-map weight untimed (transfer_rows (concat before)),
        total-map weight untimed (transfer_rows (concat s.history)),
        rows_of-weight weight (sent_transactions s.sent),
      )
