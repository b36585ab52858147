-- ===== src/Indexer/Db/Tests.antt =====
-- A batch of one block, written through a driver that answers, after one that does not.
use mathlib.Core.List.{Mem, Mem-prop, filter, mem-cons, mem-cons_of_mem, mem-filter, not-mem-nil}
use mathlib.Core.HLevel.{hedberg}
use mathlib.Core.Logic.Or
use itihas.Dao.{TokenTransfer, TokenTransfer-discrete, transfer_key}
use itihas.Indexer.Db.Keys.{TransferTable, same_accounts-collide}
use itihas.Indexer.Db.{
  Driver, Statement, block_model, index_block_batch, insert_blocks, index_transaction,
  insert_transfers, transfer_model,
}
use itihas.Indexer.Db.Batches.{index_block_batch-writes}
use itihas.Indexer.Db.Parameters.{index_transaction-parameters, parameters}
use itihas.Indexer.Db.Rows.{block_rows, rows_of, transfer_rows}
use itihas.Indexer.StateUpdate.{StateUpdate, batch_state_update}
use itihas.Indexer.Types.{BlockInfo, InstructionGroup, Transaction}
use itihas.Prelude.{
  ap, arith, as_i64, chunks, length, total, ◌≤◌, List, [], none, ok, pos, refl, some, sym, true, ℕ,
  ℕ_discrete, ℤ, ◌∙◌, ◌≡◌, ◌∷◌,
}

abbrev pub driver : Driver
driver = record {
  begin = none;
  execute = λ txn statement. none;
  commit = λ txn. none;
  timestamp_in_range = λ time. true;
  now = pos 200;
  walk = λ ts. ts;
}

-- A driver that cannot commit.
abbrev pub broken : Driver
broken = record {
  begin = none;
  execute = λ txn statement. none;
  commit = λ txn. some "connection closed";
  timestamp_in_range = λ time. true;
  now = pos 200;
  walk = λ ts. ts;
}

abbrev pub block : BlockInfo
block = record {
  metadata = record {
    slot = 7;
    parent_slot = 6;
    block_time = pos 100;
    blockhash = "b";
    parent_blockhash = "a";
    block_height = 5;
  };
  transactions =
      record {
        instruction_groups =
            record {
              outer_instruction = record {
                program_id = 1 ∷ [];
                payload = [];
                accounts = [];
                source_address = 10 ∷ [];
                destination_address = 11 ∷ [];
                mint = none;
                source_ata = none;
                destination_ata = none;
                amount = 7;
              };
              inner_instructions = [];
            }
            ∷ [];
        signature = 5 ∷ [];
        block_time = pos 100;
        error = none;
        slot = 7;
      }
      ∷ [];
}

abbrev history_after : List (List Statement)
history_after =
    (insert_blocks (block_model block.metadata ∷ [])
      ∷ Statement.insert_transfers (rows_of (pos 200) block.transactions)
      ∷ [])
    ∷ []

batch_written : index_block_batch driver [] (block ∷ []) ≡ ok history_after
unfolding index_block_batch rows_of chunks
batch_written = refl

index_block_batch-writes_example :
    (statements : List Statement) × (update : StateUpdate) × (history_after ≡ statements ∷ [])
    × (batch_state_update (block ∷ []) ≡ ok update)
    × (block_rows statements ≡ block_model block.metadata ∷ [])
    × (transfer_rows statements ≡ rows_of (pos 200) update.transactions)
index_block_batch-writes_example =
    index_block_batch-writes driver [] history_after (block ∷ []) refl batch_written

Key-discrete : (r s : TokenTransfer) → Dec (transfer_key r ≡ transfer_key s)
Key-discrete r s =
    let same : Discrete (List ℕ × List ℕ × List ℕ × ℤ) = hlevel ℕ_discrete in
    same (transfer_key r) (transfer_key s)

other_key : (r s : TokenTransfer) → Dec (¬ (transfer_key r ≡ transfer_key s))
other_key r s = elim (Key-discrete r s) [ yes e ↦ no (λ n. n e) | no n ↦ yes n ]

-- The rows of which none before has the key.
pub first_rows : List TokenTransfer → List TokenTransfer
first_rows [] = []
first_rows (r ∷ rows) = r ∷ filter (other_key r) (first_rows rows)

length-filter :
    {P : TokenTransfer → Type 0} (test : (r : TokenTransfer) → Dec (P r))
    (rows : List TokenTransfer)
    → length (filter test rows) ≤ length rows
length-filter test [] = omega arith
length-filter test (r ∷ rows) = let rest = length-filter test rows in ground arith

pub length-first_rows : (rows : List TokenTransfer) → length (first_rows rows) ≤ length rows
unfolding first_rows
length-first_rows [] = omega arith
length-first_rows (r ∷ rows) =
    omega (arith, length-filter (other_key r) (first_rows rows), length-first_rows rows)

pub first_rows_sound :
    (rows : List TokenTransfer) (r : TokenTransfer) → Mem r (first_rows rows) → Mem r rows
unfolding first_rows
first_rows_sound [] r m = m
first_rows_sound (x ∷ rows) r m =
    Or.elim Mem-prop (mem-cons.0 m) (λ e. mem-cons.1 (Or.inl e))
      (λ k. mem-cons_of_mem x (first_rows_sound rows r ((mem-filter (other_key x)).0 k).0))

TokenTransfer-set : IsSet TokenTransfer
TokenTransfer-set = hedberg TokenTransfer-discrete

-- A row with the key of the first one is the first one.
first_rows-head :
    (x : TokenTransfer) (rows : List TokenTransfer) (r : TokenTransfer)
    → transfer_key x ≡ transfer_key r
    → Mem r (first_rows (x ∷ rows))
    → r ≡ x
unfolding first_rows
first_rows-head x rows r e m =
    Or.resolve_right (TokenTransfer-set r x) (mem-cons.0 m)
      (λ k. ((mem-filter (other_key x)).0 k).1 e)

-- A row with another key is one of the rest.
first_rows-tail :
    (x : TokenTransfer) (rows : List TokenTransfer) (r : TokenTransfer)
    → ¬ (transfer_key x ≡ transfer_key r)
    → Mem r (first_rows (x ∷ rows))
    → Mem r (first_rows rows)
unfolding first_rows
first_rows-tail x rows r n m =
    Or.elim Mem-prop (mem-cons.0 m) (λ e. absurd (n (ap transfer_key (sym e))))
      (λ k. ((mem-filter (other_key x)).0 k).0)

pub first_rows_unique :
    (rows : List TokenTransfer) (r s : TokenTransfer)
    → Mem r (first_rows rows)
    → Mem s (first_rows rows)
    → transfer_key r ≡ transfer_key s
    → r ≡ s
unfolding first_rows
first_rows_unique [] r s m k e = absurd (not-mem-nil m)
first_rows_unique (x ∷ rows) r s m k e = elim (Key-discrete x r) [
  | yes same ↦ first_rows-head x rows r same m ∙ sym (first_rows-head x rows s (same ∙ e) k)
  | no other ↦
      first_rows_unique rows r s (first_rows-tail x rows r other m)
        (first_rows-tail x rows s (λ same. other (same ∙ sym e)) k) e
]

pub first_rows_complete :
    (rows : List TokenTransfer) (r : TokenTransfer)
    → Mem r rows
    → (s : TokenTransfer) × (transfer_key s ≡ transfer_key r) × Mem s (first_rows rows)
unfolding first_rows
first_rows_complete [] r m = absurd (not-mem-nil m)
first_rows_complete (x ∷ rows) r m = elim (Key-discrete x r) [
  | yes same ↦ (x, same, mem-cons.1 (Or.inl refl))
  | no other ↦
      let later =
        Or.elim Mem-prop (mem-cons.0 m) (λ e. absurd (other (ap transfer_key (sym e)))) (λ k. k) in
      let (s, e, k) = first_rows_complete rows r later in
      let kept = (mem-filter (other_key x)).1 (k, λ same. other (same ∙ e)) in
      (s, e, mem-cons_of_mem x kept)
]

abbrev pub table : TransferTable
table = record {
  kept = first_rows;
  sound = first_rows_sound;
  unique = first_rows_unique;
  complete = first_rows_complete;
}

abbrev pub group : ℕ → InstructionGroup
group amount = record {
  outer_instruction = record {
    program_id = 1 ∷ [];
    payload = [];
    accounts = [];
    source_address = 10 ∷ [];
    destination_address = 11 ∷ [];
    mint = none;
    source_ata = none;
    destination_ata = none;
    amount = amount;
  };
  inner_instructions = [];
}

abbrev pub two_transfers : Transaction
two_transfers = record {
  instruction_groups = group 7 ∷ group 8 ∷ [];
  signature = 5 ∷ [];
  block_time = pos 100;
  error = none;
  slot = 7;
}

same_accounts-collide_example : ¬ (
    Mem
      (transfer_model (pos 200) two_transfers (group 7))
      (first_rows (rows_of (pos 200) (two_transfers ∷ [])))
    × Mem
        (transfer_model (pos 200) two_transfers (group 8))
        (first_rows (rows_of (pos 200) (two_transfers ∷ []))))
unfolding as_i64
same_accounts-collide_example =
    same_accounts-collide table (rows_of (pos 200) (two_transfers ∷ [])) (pos 200) (pos 200)
      two_transfers (group 7) (group 8) refl refl (λ e. cc)

two_indexed :
    index_transaction driver [] (two_transfers ∷ [])
    ≡ ok ((insert_transfers (rows_of (pos 200) (two_transfers ∷ [])) ∷ []) ∷ [])
unfolding index_transaction rows_of
two_indexed = refl

index_transaction-parameters_example :
    (statements : List Statement) × ((insert_transfers (rows_of (pos 200) (two_transfers ∷ []))
          ∷ [])
        ∷ []
      ≡ statements ∷ [])
    × (length statements ≤ 1)
    × (total parameters statements ≡ 24)
index_transaction-parameters_example =
    index_transaction-parameters driver [] _ (two_transfers ∷ []) two_indexed
