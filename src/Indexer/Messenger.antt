-- ===== src/Indexer/Messenger.antt =====
-- indexer/src/messenger.rs: the two unbounded channels between the streamer and the database.
-- An operation gives the messenger that it leaves, also when it fails, and its result.
pub mod Sending
pub mod Workers
mod Tests
use mathlib.Core.List.{Permᴰ}
use itihas.Indexer.StateUpdate.{batch_state_update}
use itihas.Indexer.Types.{
  BlockInfo, BlockMetadata, IndexerError, Transaction, max_sql_inserts, messenger_error,
}
use itihas.Prelude.{
  List, Option, Result, String, [], chunks, err, map, none, ok, panic, some, ◌++◌, ◌∷◌,
}

-- An unbounded channel: what was sent and not yet received, and the text of the error that `send`
-- gives if the channel is closed.
pub record Channel (A : Type 0) : Type 0 where
  pub queue : List A
  pub closed : Option String

pub record Messenger : Type 0 where
  pub block_channel : Channel (List BlockMetadata)
  pub transaction_channel : Channel (List Transaction)

-- The order in which a `HashSet` is iterated.
pub record Walk : Type 0 where
  pub order : List Transaction → List Transaction
  pub keeps : (set : List Transaction) → Permᴰ (order set) set

abbrev pub unbounded_channel : {A : Type 0} → Channel A
unbounded_channel = record { queue = []; closed = none }

abbrev pub new : Messenger
new = record { block_channel = unbounded_channel; transaction_channel = unbounded_channel }

-- The loop over chunks of both senders, which stops at the first `send` that fails.
unfoldable pub send_chunks :
    {A : Type 0} → Channel A → List A → Channel A × Result IndexerError (Unit {0})
send_chunks channel [] = (channel, ok tt)
send_chunks channel (chunk ∷ rest) = elim channel.closed [
  | none ↦ send_chunks (record channel { queue = channel.queue ++ chunk ∷ [] }) rest
  | some text ↦ (channel, err (messenger_error text))
]

unfoldable pub send_block_metadatas :
    Messenger → List BlockMetadata → Messenger × Result IndexerError (Unit {0})
unfolding send_chunks
send_block_metadatas messenger blocks =
    let (channel, result) = send_chunks messenger.block_channel (chunks max_sql_inserts blocks) in
    (record messenger { block_channel = channel }, result)

-- An empty update, `StateUpdate::default()`, returns at once.
unfoldable pub send_transaction_update :
    Walk → Messenger → List Transaction → Messenger × Result IndexerError (Unit {0})
unfolding send_chunks
send_transaction_update walk messenger [] = (messenger, ok tt)
send_transaction_update walk messenger (t ∷ ts) =
    let transactions_vec = walk.order (t ∷ ts) in
    let (channel, result) =
      send_chunks messenger.transaction_channel (chunks max_sql_inserts transactions_vec) in
    (record messenger { transaction_channel = channel }, result)

unfoldable pub send_block_batch :
    Walk → Messenger → List BlockInfo → Messenger × Result IndexerError (Unit {0})
send_block_batch walk messenger block_batch =
    let (sent, result) = send_block_metadatas messenger (map (λ b. b.metadata) block_batch) in
    elim result [
      | ok _ ↦ elim (batch_state_update block_batch) [
        | ok update ↦ send_transaction_update walk sent update.transactions
        | err e ↦ (sent, err e)
        | panic ↦ (sent, panic)
      ]
      | err e ↦ (sent, err e)
      | panic ↦ (sent, panic)
    ]

-- The loop of `send_block_batches`, over the orders in which its attempts iterate the set; `none`
-- while they do not suffice. The error's message panics on an empty batch.
unfoldable pub send_block_batches :
    List Walk → Messenger → List BlockInfo → Option (Messenger × Result IndexerError (Unit {0}))
send_block_batches [] messenger block_batch = none
send_block_batches (walk ∷ walks) messenger block_batch =
    let (sent, result) = send_block_batch walk messenger block_batch in
    let again = send_block_batches walks sent block_batch in
    elim result [
      | ok _ ↦ some (sent, ok tt)
      | err e ↦ elim block_batch [ [] ↦ some (sent, panic) | _ ∷ _ ↦ again ]
      | panic ↦ some (sent, panic)
    ]
