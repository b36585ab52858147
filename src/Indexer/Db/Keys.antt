-- ===== src/Indexer/Db/Keys.antt =====
-- Which of the rows that indexer/src/db.rs inserts the table of transfers keeps: each statement ends in
-- `ON CONFLICT (the key) DO NOTHING`.
use mathlib.Core.List.{Mem}
use itihas.Dao.{TokenTransfer, transfer_key}
use itihas.Indexer.Db.{transfer_model}
use itihas.Indexer.Types.{InstructionGroup, Transaction}
use itihas.Prelude.{List, ap, as_i64, refl, ℤ, ◌≡◌, ◌≢◌}

-- The table after rows were inserted, one after the other: it holds rows that were inserted, one for
-- each key of them.
pub record TransferTable : Type 0 where
  pub kept : List TokenTransfer → List TokenTransfer
  pub sound : (rows : List TokenTransfer) (r : TokenTransfer) → Mem r (kept rows) → Mem r rows
  pub unique :
      (rows : List TokenTransfer) (r s : TokenTransfer)
      → Mem r (kept rows)
      → Mem s (kept rows)
      → transfer_key r ≡ transfer_key s
      → r ≡ s
  pub complete :
      (rows : List TokenTransfer) (r : TokenTransfer)
      → Mem r rows
      → (s : TokenTransfer) × (transfer_key s ≡ transfer_key r) × Mem s (kept rows)

-- Two transfers of one transaction from one account to another have one key: of their rows the table
-- keeps at most one if their amounts differ as signed integers, whatever else was inserted.
pub same_accounts-collide :
    (table : TransferTable) (rows : List TokenTransfer) (now later : ℤ) (t : Transaction)
    (g h : InstructionGroup)
    → g.outer_instruction.source_address ≡ h.outer_instruction.source_address
    → g.outer_instruction.destination_address ≡ h.outer_instruction.destination_address
    → as_i64 g.outer_instruction.amount ≢ as_i64 h.outer_instruction.amount
    → ¬ (
        Mem (transfer_model now t g) (table.kept rows)
        × Mem (transfer_model later t h) (table.kept rows))
same_accounts-collide table rows now later t g h sources destinations amounts (one, other) =
    let keys : transfer_key (transfer_model now t g) ≡ transfer_key (transfer_model later t h) =
      rw (sources, destinations) refl in
    amounts (ap (λ r. r.amount) (table.unique rows _ _ one other keys))
