-- ===== src/Served/Origins.antt =====
-- Where the rows of the table of transfers come from, once the indexer has written some blocks.
use mathlib.Core.List.Perm
use mathlib.Core.List.{
  Mem, Mem-prop, Subset, mem-cons, mem-cons_of_mem, append-nil, mem-append, mem-map, not-mem-nil,
}
use mathlib.Core.Logic.Or
use itihas.Dao.{TokenTransfer}
use itihas.Indexer.Db.{Statement, transfer_model}
use itihas.Indexer.Db.Rows.{rows_of, transfer_rows}
use itihas.Indexer.Delivery.{Holds}
use itihas.Indexer.Messenger.Workers.Arrival.{untimed}
use itihas.Indexer.Messenger.Workers.Transfers.{sent_transactions, update_transactions}
use itihas.Indexer.StateUpdate.Membership.{batch_state_update-IsSetOf, batch_transactions}
use itihas.Indexer.Types.{BlockInfo, Transaction}
use itihas.Prelude.{List, [], concat, map, pos, refl, ◌++◌, ◌≡◌, ◌∷◌, ℤ}

-- A transaction of a list has its rows among those of the list.
rows_of-mem :
    (now : ℤ) (t : Transaction) (ts : List Transaction)
    → Mem t ts
    → Subset (map (transfer_model now t) t.instruction_groups) (rows_of now ts)
unfolding rows_of
rows_of-mem now t [] m row k = absurd (not-mem-nil m)
rows_of-mem now t (u ∷ us) m row k =
    Or.elim Mem-prop (mem-cons.0 m) (λ e. mem-append.1 (Or.inl (rw e at k)))
      (λ later. mem-append.1 (Or.inr (rows_of-mem now t us later row k)))

rows_of-Subset :
    (now : ℤ) (ts us : List Transaction) → Subset ts us → Subset (rows_of now ts) (rows_of now us)
unfolding rows_of
rows_of-Subset now [] us h row m = absurd (not-mem-nil m)
rows_of-Subset now (t ∷ ts) us h row m =
    Or.elim Mem-prop (mem-append.0 m)
      (λ first. rows_of-mem now t us (h t (mem-cons.1 (Or.inl refl))) row first)
      (λ later. rows_of-Subset now ts us (λ u k. h u (mem-cons_of_mem t k)) row later)

-- The sets of transactions that the task sends of blocks, each in a batch of its own, hold the
-- transactions of the blocks.
update_transactions-Subset :
    (b : BlockInfo)
    → Subset (update_transactions (b ∷ [])) b.transactions
      × Subset b.transactions (update_transactions (b ∷ []))
update_transactions-Subset b =
    let (u, e, s) = batch_state_update-IsSetOf (b ∷ []) in
    rw (update_transactions, e)
      (λ t m. rw append-nil at (s.sound t m), λ t m. s.complete t (rw append-nil m))

append-mono :
    {A : Type 0} (xs ys us vs : List A) → Subset xs us → Subset ys vs → Subset (xs ++ ys) (us ++ vs)
append-mono xs ys us vs h k x m =
    Or.elim Mem-prop (mem-append.0 m) (λ l. mem-append.1 (Or.inl (h x l)))
      (λ r. mem-append.1 (Or.inr (k x r)))

sent_transactions-Subset :
    (blocks : List BlockInfo)
    → Subset (sent_transactions (map (λ b. b ∷ []) blocks)) (batch_transactions blocks)
      × Subset (batch_transactions blocks) (sent_transactions (map (λ b. b ∷ []) blocks))
sent_transactions-Subset [] = (λ t m. m, λ t m. m)
sent_transactions-Subset (b ∷ bs) =
    let (sound, complete) = update_transactions-Subset b in
    let (rest_sound, rest_complete) = sent_transactions-Subset bs in
    (append-mono _ _ _ _ sound rest_sound, append-mono _ _ _ _ complete rest_complete)

-- The rows that the blocks of a list stand for.
abbrev pub block_transfers : List BlockInfo → List TokenTransfer
block_transfers blocks = rows_of (pos 0) (batch_transactions blocks)

module _ {before after : List (List Statement)} {blocks : List BlockInfo}
    (holds : Holds before after blocks) where
  -- Every row of the blocks was written, but for the time.
  pub Holds-written :
      (row : TokenTransfer)
      → Mem row (block_transfers blocks)
      → ∥ ((r : TokenTransfer) × Mem r (transfer_rows (concat after)) × (untimed r ≡ row)) ∥₁
  Holds-written row m = mem-map.0 (
      Perm.subset (Perm.symm holds.transfer_rows_of) row (
        mem-append.1
          (Or.inr (rows_of-Subset (pos 0) _ _ (sent_transactions-Subset blocks).1 row m))))
