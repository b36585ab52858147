-- ===== src/Indexer/StateUpdate.antt =====
-- `StateUpdate` of indexer/src/types.rs, and the two functions of indexer/src/parser.rs that build
-- one. A `HashSet` is the list of its elements, which holds none twice; `insert` of an element that
-- is there changes nothing. The order in which a set is walked is left to its users.
pub mod Membership
mod Tests
use mathlib.Core.List.{dec_mem}
use itihas.Indexer.Types.{BlockInfo, IndexerError, Transaction}
use itihas.Prelude.{List, Result, String-discrete, [], ok, traverse, ℕ_discrete, ◌>>=◌, ◌>>◌, ◌∷◌}

pub Transaction-discrete : Discrete Transaction
Transaction-discrete = hlevel (ℕ_discrete, String-discrete)

-- `HashSet::insert`
unfoldable pub set_insert : Transaction → List Transaction → List Transaction
set_insert t s = elim (dec_mem Transaction-discrete t s) [ yes _ ↦ s | no _ ↦ t ∷ s ]

-- `HashSet::extend`
unfoldable pub set_extend : List Transaction → List Transaction → List Transaction
unfolding set_insert
set_extend s [] = s
set_extend s (t ∷ ts) = set_extend (set_insert t s) ts

pub record StateUpdate : Type 0 where
  pub transactions : List Transaction

-- `StateUpdate::new` and `StateUpdate::default`
abbrev pub new : StateUpdate
new = record { transactions = [] }

-- The loop of `merge_updates`, from the updates merged so far.
unfoldable pub merge_from : StateUpdate → List StateUpdate → StateUpdate
unfolding set_extend
merge_from merged [] = merged
merge_from merged (update ∷ updates) =
    merge_from (record { transactions = set_extend merged.transactions update.transactions })
      updates

unfoldable pub merge_updates : List StateUpdate → StateUpdate
unfolding merge_from
merge_updates updates = merge_from new updates

unfoldable pub parse_transaction : Transaction → Result IndexerError StateUpdate
unfolding merge_updates set_insert
parse_transaction tx =
    let state_update = merge_updates [] in
    ok (record { transactions = set_insert tx state_update.transactions })

unfoldable pub parse_block_state_update : BlockInfo → Result IndexerError StateUpdate
unfolding parse_transaction merge_updates
parse_block_state_update block = do
  state_updates ← traverse parse_transaction block.transactions
  ok (merge_updates state_updates)

-- The lines that `index_block_batch` and `send_block_batch` share: one update for a batch.
unfoldable pub batch_state_update : List BlockInfo → Result IndexerError StateUpdate
unfolding parse_block_state_update merge_updates
batch_state_update blocks = do
  state_updates ← traverse parse_block_state_update blocks
  ok (merge_updates state_updates)
