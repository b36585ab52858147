-- ===== src/Indexer/Parser/Rpc/Block.antt =====
-- indexer/src/parser.rs, `PollerParser::parse_encoded_transaction`, `parse_ui_confirmed_block` and
-- `TryFrom<EncodedConfirmedTransactionWithStatusMeta> for Transaction`.
use itihas.Indexer.Parser.{flatten, or_empty, unless_empty}
use itihas.Indexer.Parser.Rpc.{parse_instruction_groups}
use itihas.Indexer.Sdk.{EncodedTransactionWithStatusMeta, Sdk, UiConfirmedBlock}
use itihas.Indexer.Types.{BlockInfo, IndexerError, Transaction, parser_error}
use itihas.Prelude.{Option, Result, index, ok, ok_or, pos, traverse, ℕ, ℤ, ◌>>=◌}

module _ {E : Type 0} (sdk : Sdk E) where
  unfoldable pub parse_encoded_transaction :
      ℕ → ℤ → EncodedTransactionWithStatusMeta E → Result IndexerError (Option Transaction)
  unfolding parse_instruction_groups
  parse_encoded_transaction slot block_time encoded = do
    tx ← ok_or (sdk.decode encoded.transaction) (parser_error "Transaction cannot be decoded")
    meta ← ok_or encoded.meta (parser_error "Missing metadata")
    signature ← index tx.signatures 0
    groups ← parse_instruction_groups sdk tx meta
    ok (
        unless_empty groups (record {
          instruction_groups = groups;
          signature = signature;
          block_time = block_time;
          error = meta.err;
          slot = slot;
        }))

  -- `Transaction::try_from`, which leaves the slot and the time at 0.
  unfoldable pub try_from : EncodedTransactionWithStatusMeta E → Result IndexerError Transaction
  unfolding parse_instruction_groups
  try_from encoded = do
    tx ← ok_or (sdk.decode encoded.transaction) (parser_error "Transaction cannot be decoded")
    signature ← index tx.signatures 0
    meta ← ok_or encoded.meta (parser_error "Missing metadata")
    groups ← parse_instruction_groups sdk tx meta
    ok (record {
      instruction_groups = groups;
      signature = signature;
      block_time = pos 0;
      error = meta.err;
      slot = 0;
    })

  unfoldable pub parse_ui_confirmed_block : UiConfirmedBlock E → ℕ → Result IndexerError BlockInfo
  unfolding parse_encoded_transaction
  parse_ui_confirmed_block block slot = do
    block_time ← ok_or block.block_time (parser_error "Missing block_time")
    transactions ←
        traverse (parse_encoded_transaction slot block_time) (or_empty block.transactions)
    block_height ← ok_or block.block_height (parser_error "Missing block_height")
    ok (record {
      metadata = record {
        slot = slot;
        parent_slot = block.parent_slot;
        block_time = block_time;
        blockhash = block.blockhash;
        parent_blockhash = block.previous_blockhash;
        block_height = block_height;
      };
      transactions = flatten transactions;
    })
