-- ===== src/Indexer/Streamer/Tests.antt =====
-- A task that starts at slot 5, over a stream of two blocks and over a poller without blocks.
use mathlib.Core.List.Permᴰ
use itihas.Indexer.Poller.{Standing, load_block_stream, open_ended}
use itihas.Indexer.Streamer.{continously_index_new_blocks, panicked}
use itihas.Indexer.Streamer.Sending.{continously_index_new_blocks-restarted}
use itihas.Indexer.Types.{BlockInfo, IndexerError, parser_error}
use itihas.Prelude.{List, Result, [], arith, err, pos, true, ℕ, ◌-◌, ◌≡◌, ◌∷◌}

abbrev pub block_at : ℕ → BlockInfo
block_at slot = record {
  metadata = record {
    slot = slot;
    parent_slot = slot - 1;
    block_time = pos 100;
    blockhash = "b";
    parent_blockhash = "a";
    block_height = 5;
  };
  transactions = [];
}

abbrev pub two_blocks : ℕ → List BlockInfo × Standing
two_blocks slot = (block_at 6 ∷ block_at 9 ∷ [], open_ended)

abbrev no_blocks : ℕ → Result IndexerError BlockInfo
no_blocks slot = err (parser_error "skipped")

abbrev in_order : List ℕ → List ℕ
in_order slots = slots

continously_index_new_blocks-restarted_example :
    continously_index_new_blocks true
      (λ slot. load_block_stream no_blocks in_order 2 9 5 slot 20 [])
      8
      5
    ≡ ([], panicked)
continously_index_new_blocks-restarted_example =
    continously_index_new_blocks-restarted no_blocks (λ slot b e. cc) in_order
      (λ slots. Permᴰ.refl slots) true 2 9 8 5 20 [] (omega arith) (omega arith) (omega arith)
      (omega arith)
