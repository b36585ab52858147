-- ===== src/Indexer/Main/Tests.antt =====
-- An indexer that starts at slot 0 on a node at slot 2, of which slot 1 was skipped, and one that
-- subscribes and starts at slot 5.
use mathlib.Core.List.Permᴰ
use itihas.Indexer.Delivery.{Holds, IsDrained, drained_run}
use itihas.Indexer.Delivery.Tests.{driver-IsAnswering, walk}
use itihas.Indexer.Db.Tests.{driver}
use itihas.Indexer.Fallback.{
  Session, block, connect_error, failure, get_grpc_block_stream, subscribed, Event, grpc_block,
  grpc_load_block_stream, rpc_block, rpc_end,
}
use itihas.Indexer.Fallback.Chain.{Chains}
use itihas.Indexer.Fallback.Tests.{no_sdk, update}
use itihas.Indexer.Parser.Grpc.{parse_block}
use itihas.Indexer.Main.{
  BlockStreamConfig, IndexerConfig, default_start_slot, default_workers, grpc_streamer,
  index_by_grpc, index_by_polling, poller_streamer, start_indexer,
}
use itihas.Common.{Provider}
use itihas.Common.Tests.{postgres, surroundings}
use itihas.Indexer.Main.Running.{main-Holds}
use itihas.Indexer.Main.Setup.{Running, main}
use itihas.Indexer.Main.Reconnected.{index_by_grpc-sends_default, reconnect}
use itihas.Indexer.Main.Subscribed.{subscribed_config}
use itihas.Indexer.Messenger.Workers.{Reach, System, run}
use itihas.Indexer.Main.Genesis.{start_indexer-from_genesis}
use itihas.Indexer.Streamer.{panicked, waiting}
use itihas.Indexer.Streamer.Tests.{block_at}
use itihas.Indexer.Types.{BlockInfo, IndexerError, default_block, parser_error}
use itihas.Prelude.{
  consecutive, panic, ◌≢◌, Bool, List, Option, Result, String, [], arith, err, false, none, ok,
  ok-injective, refl, some, suc, sym, true, ap, zero, ℕ, ◌-◌, ◌≡◌, ◌∷◌,
}

abbrev config : IndexerConfig String
config = record {
  database_config = λ key. some "postgres://localhost/itihas";
  env = none;
  rpc_config = λ key. some "http://127.0.0.1:8899";
  max_connections = none;
  account_stream_worker_count = none;
  max_concurrent_block_fetches = some 2;
  grpc_url = none;
  start_slot = default_start_slot;
  workers = default_workers;
  index_recent = none;
  grpc_x_token = "";
}

abbrev into_string : String → Option String
into_string value = some value

abbrev contains : String → String → Bool
contains text part = true

abbrev no_reply : ℕ → Option ℕ
no_reply slot = none

abbrev node : ℕ → Result IndexerError BlockInfo
node (suc zero) = err (parser_error "skipped")
node slot = ok (block_at slot)

node-slot : (slot : ℕ) (b : BlockInfo) → node slot ≡ ok b → b.metadata.slot ≡ slot
node-slot zero b h = ap (λ block. block.metadata.slot) (sym (ok-injective h))
node-slot (suc zero) b h = cc
node-slot (suc (suc slot)) b h = ap (λ block. block.metadata.slot) (sym (ok-injective h))

node_calm : (slot : ℕ) → node slot ≢ panic
node_calm zero = λ p. cc
node_calm (suc zero) = λ p. cc
node_calm (suc (suc slot)) = λ p. cc

abbrev in_order : List ℕ → List ℕ
in_order slots = slots

start_indexer-from_genesis_example :
    (streaming : BlockStreamConfig) × (start_indexer into_string contains no_reply config
      ≡ ok (poller_streamer streaming, 0))
    × (index_by_polling node in_order true 9 2 [] 2 streaming 0
        ≡ ((block_at 0 ∷ []) ∷ [], panicked))
    × (index_by_polling node in_order false 9 2 [] 2 streaming 0
        ≡ ((block_at 0 ∷ []) ∷ (block_at 2 ∷ []) ∷ [], panicked))
unfolding consecutive
start_indexer-from_genesis_example =
    start_indexer-from_genesis into_string contains no_reply config node node-slot in_order
      (λ slots. Permᴰ.refl slots) 9 2 [] 2 "postgres://localhost/itihas" "http://127.0.0.1:8899"
      refl refl refl refl (omega arith) (omega arith) (λ slot low high. node_calm slot)

abbrev subscribing : IndexerConfig String
subscribing = record config {
  grpc_url = some "http://127.0.0.1:10000";
  start_slot = 5;
  workers = 1;
  index_recent = some false;
}

abbrev parent_reply : ℕ → Option ℕ
parent_reply slot = some (slot - 1)

-- Attempts to connect, a block that is not the next one, and the blocks before it by RPC.
abbrev events : List Event
events =
    grpc_block default_block
    ∷ grpc_block (block_at 6)
    ∷ rpc_block (block_at 5)
    ∷ grpc_block default_block
    ∷ rpc_block (block_at 6)
    ∷ rpc_end
    ∷ []

abbrev streaming : BlockStreamConfig
streaming =
    subscribed_config into_string contains parent_reply subscribing "http://127.0.0.1:10000"
      "http://127.0.0.1:8899" 4

a_run :
    (s : System) × Reach 1 [] s
    × (s.sent ≡ (index_by_grpc true events 6 streaming 4).0)
    × IsDrained s
unfolding index_by_grpc
a_run =
    drained_run true (grpc_load_block_stream false 4 events) 6 4 0 [] driver walk driver-IsAnswering
      (tt, (tt, tt))

-- The same blocks from the messages on, with an error between two attempts to connect.
abbrev sessions : List Session
sessions = subscribed (block (update 6) ∷ failure ∷ []) ∷ connect_error ∷ []

abbrev extract : List Provider → Option (IndexerConfig String)
extract providers = some subscribing

abbrev running : Running into_string surroundings extract postgres contains parent_reply
running = record {
  config = subscribing;
  dao = "postgres://localhost/itihas";
  system = run 1 [];
  streamer = grpc_streamer streaming;
  last_indexed_slot = 4;
}

main-Holds_example :
    (running.system ≡ run 1 [])
    × ((rpc_url : String) × (running.streamer
          ≡ grpc_streamer (
              subscribed_config into_string contains parent_reply subscribing
                "http://127.0.0.1:10000" rpc_url 4)))
    × Chains 4 (block_at 5 ∷ block_at 6 ∷ [])
    × Holds [] a_run.0.history (block_at 5 ∷ block_at 6 ∷ [])
unfolding grpc_load_block_stream get_grpc_block_stream parse_block main
main-Holds_example =
    main-Holds into_string surroundings extract postgres contains parent_reply no_sdk sessions true
      events [] 6 4 "http://127.0.0.1:10000" [] {running = running} {s = a_run.0} refl
      (λ e. omega arith) refl refl refl (omega arith) (omega arith)
      ((omega arith, (tt, tt)), (tt, tt)) refl (omega arith, (omega arith, tt)) a_run.1 a_run.2
      a_run.3

abbrev from_first_slot : IndexerConfig String
from_first_slot = record subscribing { start_slot = 0 }

index_by_grpc-sends_default_example :
    (start_indexer into_string contains parent_reply from_first_slot
      ≡ ok (grpc_streamer (record streaming { last_indexed_slot = 0 }), 0))
    × (index_by_grpc true (reconnect (block_at 8)) 8 (record streaming { last_indexed_slot = 0 }) 0
        ≡ ((default_block ∷ []) ∷ [], panicked))
    × (index_by_grpc false (reconnect (block_at 8)) 8 (record streaming { last_indexed_slot = 0 }) 0
        ≡ ((default_block ∷ []) ∷ [], waiting))
index_by_grpc-sends_default_example =
    index_by_grpc-sends_default into_string contains parent_reply from_first_slot
      "http://127.0.0.1:10000" "http://127.0.0.1:8899" (block_at 8) 8 refl refl refl refl refl
      (omega arith) (λ e. omega arith) (λ e. omega arith)
