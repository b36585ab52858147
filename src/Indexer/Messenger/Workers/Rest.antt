-- ===== src/Indexer/Messenger/Workers/Rest.antt =====
-- The workers of indexer/src/messenger.rs come to rest when no batch is sent.
use mathlib.Core.WellFounded.{Acc}
use itihas.Indexer.Messenger.Workers.{Step, System, block_works, sends, transaction_works}
use itihas.Indexer.Messenger.Workers.Accounts.{Work-decreases, steps_left}
use itihas.Prelude.{
  [], ap, arith, length, length-append, suc, total, zero, ℕ, ◌*◌, ◌+◌, ◌<◌, ◌≡◌, ◌≤◌, ◌∷◌,
}

-- How many steps the workers can take at most, if nothing more is sent.
abbrev pub worker_steps : System → ℕ
worker_steps s =
    total steps_left s.block_workers
    + 3 * length s.messenger.block_channel.queue
    + (total steps_left s.transaction_workers + 3 * length s.messenger.transaction_channel.queue)

-- A step in which nothing is sent.
abbrev pub WorkStep : System → System → Type 0
WorkStep s t = Step s t × (t.sent ≡ s.sent)

WorkStep-decreases : {s t : System} → WorkStep s t → worker_steps t < worker_steps s
WorkStep-decreases {s} (sends walks block_batch e, same) =
    let longer = ap length same in
    absurd (omega (arith, longer, length-append s.sent (block_batch ∷ [])))
WorkStep-decreases {s} (block_works before after e work, same) =
    omega (arith, Work-decreases _ _ before after work, ap (total steps_left) e)
WorkStep-decreases {s} (transaction_works before after e work, same) =
    omega (arith, Work-decreases _ _ before after work, ap (total steps_left) e)

below : (n : ℕ) (s : System) → worker_steps s ≤ n → Acc (λ t u. WorkStep u t) s
below zero s h = Acc.intro s (λ t step. absurd (omega (arith, WorkStep-decreases step)))
below (suc n) s h = Acc.intro s (λ t step. below n t (omega (arith, WorkStep-decreases step, h)))

-- From no system can the workers go on for ever without a batch being sent: the relation of the steps
-- that send nothing is well founded.
pub WorkStep-terminates : (s : System) → Acc (λ t u. WorkStep u t) s
WorkStep-terminates s = below (worker_steps s) s (omega arith)
