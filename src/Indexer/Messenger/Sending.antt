-- ===== src/Indexer/Messenger/Sending.antt =====
-- What `send_block_batches` of indexer/src/messenger.rs puts into the channels.
use mathlib.Core.List.Perm
use mathlib.Core.List.{Perm, append-nil, append_assoc}
use itihas.Indexer.Messenger.{
  Channel, Messenger, Walk, send_block_batch, send_block_batches, send_block_metadatas, send_chunks,
  send_transaction_update,
}
use itihas.Indexer.StateUpdate.{StateUpdate, batch_state_update}
use itihas.Indexer.StateUpdate.Membership.{IsSetOf, batch_state_update-IsSetOf, batch_transactions}
use itihas.Indexer.Types.{BlockInfo, BlockMetadata, IndexerError, Transaction, max_sql_inserts}
use itihas.Prelude.{
  All, IsChunk, List, [], arith, chunks, chunks-IsChunk, chunks-concat, concat, map, none, ok, refl,
  some, Result, ap, total, total-Permᴰ, total-append, total-concat, ℕ, ◌+◌, ◌++◌, ◌≡◌, ◌∷◌,
}

-- A messenger whose channels are open: it holds their receivers itself, and closes neither.
pub record IsOpen (messenger : Messenger) : Type 0 where
  pub blocks : messenger.block_channel.closed ≡ none
  pub transactions : messenger.transaction_channel.closed ≡ none

send_chunks-open :
    {A : Type 0} (channel : Channel A) (parts : List A)
    → channel.closed ≡ none
    → send_chunks channel parts ≡ (record { queue = channel.queue ++ parts; closed = none }, ok tt)
unfolding send_chunks
send_chunks-open channel [] o = rw (append-nil channel.queue, ← o)
send_chunks-open channel (part ∷ parts) o = rw (
  send_chunks,
  o,
  send_chunks-open (record channel { queue = channel.queue ++ part ∷ [] }) parts o,
  append_assoc channel.queue (part ∷ []) parts,
)

no_units-nil : {A : Type 0} (xs : List A) → total (λ _. 1) xs ≡ 0 → xs ≡ []
no_units-nil [] h = refl
no_units-nil (x ∷ xs) h = absurd (omega arith)

order-nil : (walk : Walk) → walk.order [] ≡ []
order-nil walk = no_units-nil (walk.order []) (total-Permᴰ (λ _. 1) (walk.keeps []))

-- The channels after the metadatas and the transactions of a batch.
abbrev pub after_sending : Messenger → List BlockInfo → List Transaction → Messenger
after_sending messenger block_batch transactions = record {
  block_channel = record {
    queue =
        messenger.block_channel.queue ++ chunks max_sql_inserts (map (λ b. b.metadata) block_batch);
    closed = none;
  };
  transaction_channel = record {
    queue = messenger.transaction_channel.queue ++ chunks max_sql_inserts transactions;
    closed = none;
  };
}

send_block_metadatas-open :
    (messenger : Messenger) (blocks : List BlockMetadata)
    → IsOpen messenger
    → send_block_metadatas messenger blocks ≡ (
      record messenger {
        block_channel = record {
          queue = messenger.block_channel.queue ++ chunks max_sql_inserts blocks;
          closed = none;
        };
      },
      ok tt,
    )
unfolding send_block_metadatas
send_block_metadatas-open messenger blocks o = rw (
  send_block_metadatas,
  send_chunks-open messenger.block_channel (chunks max_sql_inserts blocks) o.blocks,
)

send_transaction_update-open :
    (walk : Walk) (messenger : Messenger) (transactions : List Transaction)
    → IsOpen messenger
    → send_transaction_update walk messenger transactions ≡ (
      record messenger {
        transaction_channel = record {
          queue =
              messenger.transaction_channel.queue
              ++ chunks max_sql_inserts (walk.order transactions);
          closed = none;
        };
      },
      ok tt,
    )
unfolding send_transaction_update chunks
send_transaction_update-open walk messenger [] o =
    rw (order-nil walk, append-nil messenger.transaction_channel.queue, ← o.transactions)
send_transaction_update-open walk messenger (t ∷ ts) o =
    let parts = chunks max_sql_inserts (walk.order (t ∷ ts)) in
    rw
      (send_transaction_update, send_chunks-open messenger.transaction_channel parts o.transactions)

send_block_batch-updates :
    (walk : Walk) (messenger : Messenger) (block_batch : List BlockInfo) (update : StateUpdate)
    → IsOpen messenger
    → batch_state_update block_batch ≡ ok update
    → send_block_batch walk messenger block_batch
      ≡ (after_sending messenger block_batch (walk.order update.transactions), ok tt)
unfolding send_block_batch
send_block_batch-updates walk messenger block_batch update o e =
    let metadatas = map (λ b. b.metadata) block_batch in
    let first = send_block_metadatas-open messenger metadatas o in
    rw (send_block_batch, first, e, first)
      (send_transaction_update-open walk _ update.transactions
        (record { blocks = refl; transactions = o.transactions }))

send_block_batch-open :
    (walk : Walk) (messenger : Messenger) (block_batch : List BlockInfo)
    → IsOpen messenger
    → (update : StateUpdate) × (batch_state_update block_batch ≡ ok update)
      × IsSetOf update.transactions (batch_transactions block_batch)
      × (send_block_batch walk messenger block_batch
          ≡ (after_sending messenger block_batch (walk.order update.transactions), ok tt))
send_block_batch-open walk messenger block_batch o =
    let (update, e, set) = batch_state_update-IsSetOf block_batch in
    (update, e, set, send_block_batch-updates walk messenger block_batch update o e)

pub send_block_batches-open :
    (walk : Walk) (walks : List Walk) (messenger : Messenger) (block_batch : List BlockInfo)
    → IsOpen messenger
    → (update : StateUpdate) × (batch_state_update block_batch ≡ ok update)
      × IsSetOf update.transactions (batch_transactions block_batch)
      × (send_block_batches (walk ∷ walks) messenger block_batch
          ≡ some (after_sending messenger block_batch (walk.order update.transactions), ok tt))
unfolding send_block_batches
send_block_batches-open walk walks messenger block_batch o =
    let (update, e, set, first) = send_block_batch-open walk messenger block_batch o in
    (update, e, set, rw (send_block_batches, first, first) refl)

-- What `send_block_batches` leaves, if it has come to an end.
pub send_block_batches-leaves :
    (walks : List Walk) (messenger : Messenger) (block_batch : List BlockInfo) {sent : Messenger}
    {result : Result IndexerError (Unit {0})}
    → IsOpen messenger
    → send_block_batches walks messenger block_batch ≡ some (sent, result)
    → (walk : Walk) × (update : StateUpdate) × (batch_state_update block_batch ≡ ok update)
      × (sent ≡ after_sending messenger block_batch (walk.order update.transactions))
unfolding send_block_batches
send_block_batches-leaves [] messenger block_batch o h = cc
send_block_batches-leaves (walk ∷ walks) messenger block_batch o h =
    let (update, e, set, all) = send_block_batches-open walk walks messenger block_batch o in
    (walk, update, e, cc)

pub total-sent :
    {A : Type 0} (weight : A → ℕ) (queue : List (List A)) (xs : List A)
    → total (total weight) (queue ++ chunks max_sql_inserts xs)
      ≡ total (total weight) queue + total weight xs
total-sent weight queue xs =
    let parts = chunks max_sql_inserts xs in
    let whole = ap (total weight) (chunks-concat max_sql_inserts xs) in
    omega (arith, total-append (total weight) queue parts, total-concat weight parts, whole)

order-IsSetOf :
    (walk : Walk) {set ts : List Transaction} → IsSetOf set ts → IsSetOf (walk.order set) ts
order-IsSetOf walk {set} h =
    let p : Perm (walk.order set) set = ∣ walk.keeps set ∣₁ in
    record {
      distinct = Perm.nodup (Perm.symm p) h.distinct;
      sound = λ x m. h.sound x ((Perm.mem_iff p).0 m);
      complete = λ x m. (Perm.mem_iff p).1 (h.complete x m);
    }

-- While the channels are open, the first attempt of `send_block_batches` succeeds, in whatever order
-- its set is iterated, and the channels stay open. It appends to the channel of blocks the metadatas
-- of the batch, and to that of transactions the set of the batch's transactions, each cut into chunks
-- that are not empty and hold at most 5000.
pub send_block_batches-sends :
    (walk : Walk) (walks : List Walk) (messenger : Messenger) (block_batch : List BlockInfo)
    → IsOpen messenger
    → (sent : Messenger) × (metadatas : List (List BlockMetadata)) × (parts : List
        (List Transaction))
      × (send_block_batches (walk ∷ walks) messenger block_batch ≡ some (sent, ok tt))
      × IsOpen sent
      × (sent.block_channel.queue ≡ messenger.block_channel.queue ++ metadatas)
      × (concat metadatas ≡ map (λ b. b.metadata) block_batch)
      × All (IsChunk 5000) metadatas
      × (sent.transaction_channel.queue ≡ messenger.transaction_channel.queue ++ parts)
      × IsSetOf (concat parts) (batch_transactions block_batch)
      × All (IsChunk 5000) parts
send_block_batches-sends walk walks messenger block_batch o =
    let (update, e, set, first) = send_block_batches-open walk walks messenger block_batch o in
    let metadatas = map (λ b. b.metadata) block_batch in
    let transactions = walk.order update.transactions in
    (
      after_sending messenger block_batch transactions,
      chunks max_sql_inserts metadatas,
      chunks max_sql_inserts transactions,
      first,
      record { blocks = refl; transactions = refl },
      refl,
      chunks-concat max_sql_inserts metadatas,
      chunks-IsChunk max_sql_inserts metadatas (omega arith),
      refl,
      rw (chunks-concat max_sql_inserts transactions) (order-IsSetOf walk set),
      chunks-IsChunk max_sql_inserts transactions (omega arith),
    )
