-- ===== src/Indexer/Messenger/Workers.antt =====
-- indexer/src/messenger.rs: `run` and its workers, as the steps of a system. Each step is one
-- worker's or the streamer's, in any order.
-- The lock on a receiver lets one idle worker after the other await the channel; any may be the one.
-- A batch is sent in one step: a worker that receives between two sends may as well receive after
-- them. `sent` and the two lists `lost` are no part of the program's state: they record the batches
-- sent, and the chunks whose indexing failed, of which the program keeps a line of its log.
pub mod Accounts
pub mod Stored
pub mod Blocks
pub mod Transfers
pub mod Arrival
pub mod Progress
pub mod Rest
use itihas.Indexer.Db.{Driver, Statement, index_block_metadatas, index_transaction}
use itihas.Indexer.Messenger.{Messenger, Walk, new, send_block_batches}
use itihas.Indexer.Types.{BlockInfo, BlockMetadata, IndexerError, Transaction}
use itihas.Prelude.{
  List, Option, Result, String, [], err, ok, panic, some, suc, zero, ℕ, ◌++◌, ◌≡◌, ◌∷◌,
}

-- Where a worker is: it awaits a chunk, indexes one, or its loop is left.
pub data Worker (A : Type 0) : Type 0 where
  idle : Worker A
  indexing : A → Worker A
  stopped : Worker A

-- The steps of a worker, on itself, its channel's queue, the database's history, and the chunks lost.
-- `index` is the method of the database that the worker calls. `None` is received from a channel that
-- is closed and empty. A panic of `index` ends the task.
pub data Work {A : Type 0}
    (index : Driver → List (List Statement) → A → Result IndexerError (List (List Statement)))
    (closed : Option String)
    : Worker A
      → List A
      → List (List Statement)
      → List A
      → Worker A
      → List A
      → List (List Statement)
      → List A
      → Type 0 where
  receives :
      {chunk : A} {queue : List A} {history : List (List Statement)} {lost : List A}
      → Work index closed idle (chunk ∷ queue) history lost (indexing chunk) queue history lost
  finds_closed :
      {text : String} {history : List (List Statement)} {lost : List A}
      → closed ≡ some text
      → Work index closed idle [] history lost stopped [] history lost
  shuts_down :
      {queue : List A} {history : List (List Statement)} {lost : List A}
      → Work index closed idle queue history lost stopped queue history lost
  indexes :
      {chunk : A} {queue : List A} {history after : List (List Statement)} {lost : List A}
      (driver : Driver)
      → index driver history chunk ≡ ok after
      → Work index closed (indexing chunk) queue history lost idle queue after lost
  fails :
      {chunk : A} {queue : List A} {history : List (List Statement)} {lost : List A}
      {e : IndexerError} (driver : Driver)
      → index driver history chunk ≡ err e
      → Work index closed
          (indexing chunk)
          queue
          history
          lost
          idle
          queue
          history
          (lost ++ chunk ∷ [])
  panics :
      {chunk : A} {queue : List A} {history : List (List Statement)} {lost : List A}
      (driver : Driver)
      → index driver history chunk ≡ panic
      → Work index closed
          (indexing chunk)
          queue
          history
          lost
          stopped
          queue
          history
          (lost ++ chunk ∷ [])

abbrev pub BlockWork :
    Option String
    → Worker (List BlockMetadata)
    → List (List BlockMetadata)
    → List (List Statement)
    → List (List BlockMetadata)
    → Worker (List BlockMetadata)
    → List (List BlockMetadata)
    → List (List Statement)
    → List (List BlockMetadata)
    → Type 0
BlockWork = Work index_block_metadatas

abbrev pub TransactionWork :
    Option String
    → Worker (List Transaction)
    → List (List Transaction)
    → List (List Statement)
    → List (List Transaction)
    → Worker (List Transaction)
    → List (List Transaction)
    → List (List Statement)
    → List (List Transaction)
    → Type 0
TransactionWork = Work index_transaction

pub record System : Type 0 where
  pub messenger : Messenger
  pub block_workers : List (Worker (List BlockMetadata))
  pub transaction_workers : List (Worker (List Transaction))
  pub history : List (List Statement)
  pub sent : List (List BlockInfo)
  pub lost_blocks : List (List BlockMetadata)
  pub lost_transactions : List (List Transaction)

-- `(0..workers).map(|_| tokio::spawn(..))`
abbrev pub spawn_workers : {A : Type 0} → ℕ → List (Worker A)
spawn_workers zero = []
spawn_workers (suc workers) = idle ∷ spawn_workers workers

-- `run` on a new messenger.
abbrev pub run : ℕ → List (List Statement) → System
run workers history = record {
  messenger = new;
  block_workers = spawn_workers workers;
  transaction_workers = spawn_workers workers;
  history = history;
  sent = [];
  lost_blocks = [];
  lost_transactions = [];
}

pub data Step (s : System) : System → Type 0 where
  sends :
      (walks : List Walk) (block_batch : List BlockInfo) {messenger : Messenger}
      {result : Result IndexerError (Unit {0})}
      → send_block_batches walks s.messenger block_batch ≡ some (messenger, result)
      → Step s (record s { messenger = messenger; sent = s.sent ++ block_batch ∷ [] })
  block_works :
      (before after : List (Worker (List BlockMetadata))) {w v : Worker (List BlockMetadata)}
      {queue : List (List BlockMetadata)} {history : List (List Statement)}
      {lost : List (List BlockMetadata)}
      → s.block_workers ≡ before ++ w ∷ after
      → BlockWork s.messenger.block_channel.closed w s.messenger.block_channel.queue s.history
          s.lost_blocks v queue history lost
      → Step s (record s {
        messenger = record s.messenger {
          block_channel = record s.messenger.block_channel { queue = queue };
        };
        block_workers = before ++ v ∷ after;
        history = history;
        lost_blocks = lost;
      })
  transaction_works :
      (before after : List (Worker (List Transaction))) {w v : Worker (List Transaction)}
      {queue : List (List Transaction)} {history : List (List Statement)}
      {lost : List (List Transaction)}
      → s.transaction_workers ≡ before ++ w ∷ after
      → TransactionWork s.messenger.transaction_channel.closed w
          s.messenger.transaction_channel.queue s.history s.lost_transactions v queue history lost
      → Step s (record s {
        messenger = record s.messenger {
          transaction_channel = record s.messenger.transaction_channel { queue = queue };
        };
        transaction_workers = before ++ v ∷ after;
        history = history;
        lost_transactions = lost;
      })

-- The systems that a run with this many workers over a database with this history can reach.
pub data Reach (workers : ℕ) (history : List (List Statement)) : System → Type 0 where
  starts : Reach workers history (run workers history)
  steps : {s t : System} → Reach workers history s → Step s t → Reach workers history t
