-- ===== src/Indexer/Delivery/Tests.antt =====
-- The task that starts at slot 5 over a stream of two blocks, with one worker of each kind.
use mathlib.Core.List.Permᴰ
use itihas.Indexer.Db.Success.{IsAnswering, IsTimed}
use itihas.Indexer.Db.Tests.{driver}
use itihas.Indexer.Delivery.{Holds, IsDrained, drained_run, drained_run-Holds, task_batches}
use itihas.Indexer.Messenger.{Walk}
use itihas.Indexer.Messenger.Workers.{Reach, System}
use itihas.Indexer.Streamer.Tests.{block_at, two_blocks}
use itihas.Indexer.StateUpdate.Membership.{batch_transactions}
use itihas.Indexer.Streamer.{continously_index_new_blocks}
use itihas.Prelude.{All, [], arith, refl, true, ◌≡◌, ◌∷◌}

abbrev pub walk : Walk
walk = record { order = λ set. set; keeps = λ set. Permᴰ.refl set }

pub driver-IsAnswering : IsAnswering driver
driver-IsAnswering = record { begins = refl; executes = λ txn s. refl; commits = λ txn. refl }

task_batches-IsTimed :
    All
      (λ batch. All (IsTimed driver) (batch_transactions batch))
      (task_batches true two_blocks 8 5)
unfolding continously_index_new_blocks
task_batches-IsTimed = (tt, (tt, tt))

a_run : (s : System) × Reach 1 [] s × (s.sent ≡ task_batches true two_blocks 8 5) × IsDrained s
a_run = drained_run true two_blocks 8 5 0 [] driver walk driver-IsAnswering task_batches-IsTimed

drained_run-Holds_example : Holds [] a_run.0.history (block_at 6 ∷ block_at 9 ∷ [])
drained_run-Holds_example =
    drained_run-Holds true two_blocks 8 5 {workers = 1} {s = a_run.0} (omega arith) (omega arith)
      (omega arith, (omega arith, tt)) a_run.1 a_run.2 a_run.3

drained_run_example :
    (s : System) × Reach 100 [] s × (s.sent ≡ task_batches true two_blocks 8 5) × IsDrained s
drained_run_example =
    drained_run true two_blocks 8 5 99 [] driver walk driver-IsAnswering task_batches-IsTimed
