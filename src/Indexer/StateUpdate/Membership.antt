-- ===== src/Indexer/StateUpdate/Membership.antt =====
-- What the sets of a `StateUpdate` of indexer/src/types.rs hold.
use mathlib.Core.List.Perm
use mathlib.Core.Logic.Or
use mathlib.Core.List.{
  Mem, Mem-prop, Nodup, Nodup-cons, Nodup-nil, append-nil, append_assoc, dec_mem, mem-append,
  mem-cons, mem-cons_of_mem, perm_middle,
}
use itihas.Indexer.StateUpdate.{
  StateUpdate, Transaction-discrete, batch_state_update, merge_from, merge_updates, new,
  parse_block_state_update, parse_transaction, set_extend, set_insert,
}
use itihas.Indexer.Types.{BlockInfo, Transaction}
use itihas.Prelude.{List, [], ap, map, ok, refl, traverse, ◌++◌, ◌↔◌, ◌∷◌, ◌≡◌}

-- A list without repetition that holds the elements of another list.
pub record IsSetOf (s ts : List Transaction) : Type 0 where
  pub distinct : Nodup s
  pub sound : (x : Transaction) → Mem x s → Mem x ts
  pub complete : (x : Transaction) → Mem x ts → Mem x s

abbrev gathered : List StateUpdate → List Transaction
gathered [] = []
gathered (u ∷ us) = u.transactions ++ gathered us

set_insert-IsSetOf :
    (t : Transaction) (s : List Transaction) → Nodup s → IsSetOf (set_insert t s) (t ∷ s)
unfolding set_insert
set_insert-IsSetOf t s n =
    elim (dec_mem Transaction-discrete t s)
      as (λ d. IsSetOf (elim d [ yes _ ↦ s | no _ ↦ t ∷ s ]) (t ∷ s)) [
        | yes m ↦ record {
          distinct = n;
          sound = λ x. mem-cons_of_mem t;
          complete = λ x h. Or.elim Mem-prop (mem-cons.0 h) (λ e. rw e m) (λ k. k);
        }
        | no h ↦ record { distinct = Nodup-cons.1 (h, n); sound = λ x k. k; complete = λ x k. k }
      ]

append-Subset :
    (x : Transaction) (s t us : List Transaction)
    → (Mem x s → Mem x t)
    → Mem x (s ++ us)
    → Mem x (t ++ us)
append-Subset x s t us f h =
    Or.elim Mem-prop (mem-append.0 h) (λ k. mem-append.1 (Or.inl (f k)))
      (λ k. mem-append.1 (Or.inr k))

set_extend-IsSetOf : (s ts : List Transaction) → Nodup s → IsSetOf (set_extend s ts) (s ++ ts)
unfolding set_extend
set_extend-IsSetOf s [] n =
    rw append-nil (record { distinct = n; sound = λ x k. k; complete = λ x k. k })
set_extend-IsSetOf s (t ∷ ts) n =
    let one = set_insert-IsSetOf t s n in
    let rest = set_extend-IsSetOf (set_insert t s) ts one.distinct in
    record {
      distinct = rest.distinct;
      sound = λ x h.
          Perm.subset (Perm.symm (perm_middle s ts)) x
            (append-Subset x (set_insert t s) (t ∷ s) ts (one.sound x) (rest.sound x h));
      complete = λ x h. rest.complete x (
          append-Subset x (t ∷ s) (set_insert t s) ts (one.complete x)
            (Perm.subset (perm_middle s ts) x h));
    }

merge_from-IsSetOf :
    (m : StateUpdate) (us : List StateUpdate)
    → Nodup m.transactions
    → IsSetOf (merge_from m us).transactions (m.transactions ++ gathered us)
unfolding merge_from
merge_from-IsSetOf m [] n =
    rw append-nil (record { distinct = n; sound = λ x k. k; complete = λ x k. k })
merge_from-IsSetOf m (u ∷ us) n =
    let one = set_extend-IsSetOf m.transactions u.transactions n in
    let rest =
      merge_from-IsSetOf (record { transactions = set_extend m.transactions u.transactions }) us
        one.distinct in
    record {
      distinct = rest.distinct;
      sound = λ x h. rw (← append_assoc) (
          append-Subset x (set_extend m.transactions u.transactions)
            (m.transactions ++ u.transactions) (gathered us) (one.sound x) (rest.sound x h));
      complete = λ x h. rest.complete x (
          append-Subset x (m.transactions ++ u.transactions)
            (set_extend m.transactions u.transactions) (gathered us) (one.complete x)
            (rw append_assoc h));
    }

merge_updates-IsSetOf :
    (us : List StateUpdate) → IsSetOf (merge_updates us).transactions (gathered us)
unfolding merge_updates
merge_updates-IsSetOf us = merge_from-IsSetOf new us Nodup-nil

abbrev single : Transaction → StateUpdate
single t = record { transactions = t ∷ [] }

gathered-map-single : (ts : List Transaction) → gathered (map single ts) ≡ ts
gathered-map-single [] = refl
gathered-map-single (t ∷ ts) = ap (◌∷◌ t) (gathered-map-single ts)

parse_transaction-single : (t : Transaction) → parse_transaction t ≡ ok (single t)
unfolding parse_transaction
parse_transaction-single t = refl

traverse-parse_transaction :
    (ts : List Transaction) → traverse parse_transaction ts ≡ ok (map single ts)
traverse-parse_transaction [] = refl
traverse-parse_transaction (t ∷ ts) = rw (parse_transaction-single t, traverse-parse_transaction ts)

-- The state update of a block never fails, and its set holds exactly the block's transactions, each
-- of them once.
parse_block_state_update-IsSetOf :
    (block : BlockInfo)
    → (u : StateUpdate) × (parse_block_state_update block ≡ ok u)
      × IsSetOf u.transactions block.transactions
unfolding parse_block_state_update
parse_block_state_update-IsSetOf block =
    let us = map single block.transactions in
    (
      merge_updates us,
      rw (traverse-parse_transaction block.transactions),
      rw (gathered-map-single block.transactions) at (merge_updates-IsSetOf us),
    )

-- The transactions of a batch, block after block.
abbrev pub batch_transactions : List BlockInfo → List Transaction
batch_transactions [] = []
batch_transactions (b ∷ bs) = b.transactions ++ batch_transactions bs

-- The updates of a batch's blocks, and what they hold together.
batch_updates :
    (bs : List BlockInfo)
    → (us : List StateUpdate) × (traverse parse_block_state_update bs ≡ ok us)
      × ((x : Transaction) → Mem x (gathered us) ↔ Mem x (batch_transactions bs))
batch_updates [] = ([], refl, λ x. (λ h. h, λ h. h))
batch_updates (b ∷ bs) =
    let (u, e, s) = parse_block_state_update-IsSetOf b in
    let (us, es, k) = batch_updates bs in
    (
      u ∷ us,
      rw (e, es),
      λ x. (
        λ h.
            Or.elim Mem-prop (mem-append.0 h) (λ l. mem-append.1 (Or.inl (s.sound x l)))
              (λ r. mem-append.1 (Or.inr ((k x).0 r))),
        λ h.
            Or.elim Mem-prop (mem-append.0 h) (λ l. mem-append.1 (Or.inl (s.complete x l)))
              (λ r. mem-append.1 (Or.inr ((k x).1 r))),
      ),
    )

-- The state update of a batch of blocks never fails, and its set holds exactly the transactions of
-- the blocks, each of them once, also one that several blocks hold.
pub batch_state_update-IsSetOf :
    (bs : List BlockInfo)
    → (u : StateUpdate) × (batch_state_update bs ≡ ok u)
      × IsSetOf u.transactions (batch_transactions bs)
unfolding batch_state_update
batch_state_update-IsSetOf bs =
    let (us, es, k) = batch_updates bs in
    let s = merge_updates-IsSetOf us in
    (
      merge_updates us,
      rw es,
      record {
        distinct = s.distinct;
        sound = λ x h. (k x).0 (s.sound x h);
        complete = λ x h. s.complete x ((k x).1 h);
      },
    )
