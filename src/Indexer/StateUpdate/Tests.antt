-- ===== src/Indexer/StateUpdate/Tests.antt =====
-- Two blocks that hold one transaction.
use itihas.Indexer.StateUpdate.{StateUpdate, batch_state_update}
use itihas.Indexer.StateUpdate.Membership.{IsSetOf, batch_state_update-IsSetOf, batch_transactions}
use itihas.Indexer.Types.{BlockInfo, Transaction}
use itihas.Prelude.{[], none, ok, pos, ◌∷◌, ◌≡◌}

abbrev tx : Transaction
tx = record {
  instruction_groups = [];
  signature = 5 ∷ [];
  block_time = pos 100;
  error = none;
  slot = 7;
}

abbrev block : BlockInfo
block = record {
  metadata = record {
    slot = 7;
    parent_slot = 6;
    block_time = pos 100;
    blockhash = "b";
    parent_blockhash = "a";
    block_height = 5;
  };
  transactions = tx ∷ tx ∷ [];
}

batch_state_update-IsSetOf_example :
    (u : StateUpdate) × (batch_state_update (block ∷ block ∷ []) ≡ ok u)
    × IsSetOf u.transactions (batch_transactions (block ∷ block ∷ []))
batch_state_update-IsSetOf_example = batch_state_update-IsSetOf (block ∷ block ∷ [])
