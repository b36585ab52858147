-- ===== src/Indexer/Main.antt =====
-- indexer/src/config.rs and the start-up of indexer/src/main.rs, up to the streamer that is built and
-- the task that indexes its blocks. The values of the configuration's dictionaries and the search in a
-- text are those of other crates.
pub mod Genesis
pub mod Subscribed
pub mod Reconnected
pub mod Setup
pub mod Running
mod Tests
use itihas.Indexer.Fallback.{Event, grpc_load_block_stream}
use itihas.Indexer.Poller.{Standing, load_block_stream}
use itihas.Indexer.Streamer.{Outcome, continously_index_new_blocks}
use itihas.Indexer.Types.{BlockInfo, IndexerError}
use itihas.Prelude.{
  Bool, List, Option, Result, String, if◌then◌else◌, is_some, none, ok, some, true, unwrap,
  unwrap_or, ℕ, ◌==◌, ◌>>=◌,
}

-- `figment::value::Dict`, by its keys.
abbrev pub Dict : Type 0 → Type 0
Dict Value = String → Option Value

pub record IndexerConfig (Value : Type 0) : Type 0 where
  pub database_config : Dict Value
  pub env : Option String
  pub rpc_config : Dict Value
  pub max_connections : Option ℕ
  pub account_stream_worker_count : Option ℕ
  pub max_concurrent_block_fetches : Option ℕ
  pub grpc_url : Option String
  pub start_slot : ℕ
  pub workers : ℕ
  pub index_recent : Option Bool
  pub grpc_x_token : String

abbrev pub default_workers : ℕ
default_workers = 100

abbrev pub default_start_slot : ℕ
default_start_slot = 0

abbrev pub unwrap_or_bool : Option Bool → Bool → Bool
unwrap_or_bool none d = d
unwrap_or_bool (some b) d = b

-- `BlockStreamConfig` of indexer/src/types.rs, less the RPC client.
pub record BlockStreamConfig : Type 0 where
  pub grpc_url : Option String
  pub grpc_x_token : String
  pub max_concurrent_block_fetches : ℕ
  pub last_indexed_slot : ℕ
  pub index_recent : Bool

pub data Streamer : Type 0 where
  grpc_streamer : BlockStreamConfig → Streamer
  poller_streamer : BlockStreamConfig → Streamer

abbrev pub streamer_config : Streamer → BlockStreamConfig
streamer_config (grpc_streamer config) = config
streamer_config (poller_streamer config) = config

-- `into_string` of a value, `contains` of a text, and the parent slot in the node's reply for a slot.
module _ {Value : Type 0} (into_string : Value → Option String) where
  -- `.get(key).and_then(|u| u.clone().into_string())`
  abbrev string_of : Dict Value → String → Option String
  string_of dict key = elim (dict key) [ none ↦ none | some u ↦ into_string u ]

  -- A missing text is an error that is unwrapped.
  abbrev pub get_database_url : IndexerConfig Value → Result IndexerError String
  get_database_url config = unwrap (string_of config.database_config "url")

  abbrev pub get_rpc_url : IndexerConfig Value → Result IndexerError String
  get_rpc_url config = unwrap (string_of config.rpc_config "url")

  abbrev pub get_account_stream_worker_count : IndexerConfig Value → ℕ
  get_account_stream_worker_count config = unwrap_or config.account_stream_worker_count 2

  module _ (contains : String → String → Bool) (parent_slot : ℕ → Option ℕ) where
    abbrev pub max_fetches : IndexerConfig Value → String → ℕ
    max_fetches config rpc_url =
        unwrap_or config.max_concurrent_block_fetches
          (if contains rpc_url "127.0.0.1" then 200 else 20)

    -- `streamer::fetch_block_parent_slot`, which unwraps the reply.
    abbrev pub fetch_block_parent_slot : ℕ → Result IndexerError ℕ
    fetch_block_parent_slot slot = unwrap (parent_slot slot)

    abbrev pub start_after : IndexerConfig Value → Result IndexerError ℕ
    start_after config =
        if config.start_slot == 0 then ok 0 else fetch_block_parent_slot config.start_slot

    abbrev pub choose_streamer : BlockStreamConfig → Streamer
    choose_streamer config =
        if is_some config.grpc_url then grpc_streamer config else poller_streamer config

    -- `main` up to the task: the streamer, and the slot at which the task starts.
    unfoldable pub start_indexer : IndexerConfig Value → Result IndexerError (Streamer × ℕ)
    start_indexer config = do
      database_url ← get_database_url config
      rpc_url ← get_rpc_url config
      last_indexed_slot ← start_after config
      ok (
        choose_streamer (record {
          grpc_url = config.grpc_url;
          grpc_x_token = config.grpc_x_token;
          max_concurrent_block_fetches = max_fetches config rpc_url;
          last_indexed_slot = last_indexed_slot;
          index_recent = unwrap_or_bool config.index_recent true;
        }),
        last_indexed_slot,
      )

-- The task over a streamer that polls, in a node whose current slot is given.
unfoldable pub index_by_polling :
    (ℕ → Result IndexerError BlockInfo)
    → (List ℕ → List ℕ)
    → Bool
    → ℕ
    → ℕ
    → List ℕ
    → ℕ
    → BlockStreamConfig
    → ℕ
    → List (List BlockInfo) × Outcome
unfolding continously_index_new_blocks load_block_stream
index_by_polling fetch arrive checks fuel height heights current_slot config last_indexed_slot =
    continously_index_new_blocks checks
      (λ slot.
        load_block_stream fetch arrive config.max_concurrent_block_fetches fuel
          config.last_indexed_slot slot height heights)
      current_slot last_indexed_slot

-- The task over a streamer that subscribes, and the items that its two streams bring.
unfoldable pub index_by_grpc :
    Bool → List Event → ℕ → BlockStreamConfig → ℕ → List (List BlockInfo) × Outcome
unfolding continously_index_new_blocks grpc_load_block_stream
index_by_grpc checks events current_slot config last_indexed_slot =
    continously_index_new_blocks checks
      (grpc_load_block_stream config.index_recent config.last_indexed_slot events) current_slot
      last_indexed_slot
