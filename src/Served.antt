-- ===== src/Served.antt =====
-- From the blocks of a stream to the answers of the API: the rows that the indexer has written, the
-- table of transfers that holds them, and the query of api/src/spec/api_impl.rs over it.
pub mod Origins
pub mod Found
mod Tests
use mathlib.Core.List.{Mem}
use mathlib.Core.Logic.{∥∥₁_map}
use itihas.Api.{Crates}
use itihas.Api.Handler.{GetTransactionsByAddress, TransactionList, from_model, get_transactions}
use itihas.Api.Handler.Steps.{get_transactions-items}
use itihas.Api.Query.{Select}
use itihas.Dao.{TokenTransfer, transfer_key}
use itihas.Indexer.Db.{Statement}
use itihas.Indexer.Db.Keys.{TransferTable}
use itihas.Indexer.Db.Rows.{transfer_rows}
use itihas.Indexer.Delivery.{Holds}
use itihas.Indexer.Types.{BlockInfo}
use itihas.Prelude.{
  All, All-map, All-of_map, Bool, List, String, ap, concat, inr, map, ok, refl, sym, ◌++◌, ◌∙◌, ◌≡◌,
  ◌⊎◌,
}
use itihas.Served.Origins.{Holds-written, block_transfers}

module _ (table : TransferTable) (before after : List (List Statement)) (blocks : List BlockInfo)
    (holds : Holds before after blocks) where
  -- Where the rows of blocks were written, the table of transfers has a row for each transfer of the
  -- blocks' transactions: its own, or one with the same key.
  pub Holds-kept :
      (row : TokenTransfer)
      → Mem row (block_transfers blocks)
      → ∥ (
          (r : TokenTransfer) × (transfer_key r ≡ transfer_key row)
          × Mem r (table.kept (transfer_rows (concat after)))) ∥₁
  Holds-kept row m = ∥∥₁_map (Holds-written holds row m) λ written.
      let (s, key, kept) = table.complete (transfer_rows (concat after)) written.0 written.1 in
      (s, key ∙ ap transfer_key written.2, kept)
