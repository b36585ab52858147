-- ===== src/Served/Tests.antt =====
-- A block with two transfers, written by one worker of each kind, and a request over what is kept.
use mathlib.Core.List.Perm
use mathlib.Core.Logic.Or
use itihas.Api.Handler.{Transaction, TransactionList}
use itihas.Api.Query.{Select}
use itihas.Dao.{TokenTransfer}
use itihas.Indexer.Db.{Statement, block_model, insert_blocks, insert_transfers, transfer_model}
use itihas.Indexer.Db.Rows.{rows_of, transfer_rows}
use itihas.Indexer.Db.Tests.{group, table, two_transfers}
use itihas.Indexer.Streamer.Tests.{block_at}
use itihas.Indexer.Types.{BlockInfo}
use itihas.Prelude.{List, String, [], concat, inr, map, pos, ℕ, ◌∷◌, ◌⊎◌}
use itihas.Api.Handler.Pages.{limited, skipped}

abbrev paid : BlockInfo
paid = record (block_at 7) { transactions = two_transfers ∷ [] }

-- The statements of the two workers.
abbrev written : List (List Statement)
written =
    (insert_blocks (block_model paid.metadata ∷ []) ∷ [])
    ∷ (insert_transfers (rows_of (pos 200) (two_transfers ∷ [])) ∷ [])
    ∷ []

abbrev kept_rows : List TokenTransfer
kept_rows = table.kept (transfer_rows (concat written))

abbrev row_of : ℕ → TokenTransfer
row_of amount = transfer_model (pos 0) two_transfers (group amount)

-- A database whose statements are about the rows that are kept, in one order.
abbrev sliced : Select → String ⊎ List TokenTransfer
sliced stmt = inr (limited stmt.limit (skipped stmt.offset kept_rows))

abbrev one_page : List TransactionList → List Transaction
one_page answers = concat (map (λ answer. answer.items) answers)
