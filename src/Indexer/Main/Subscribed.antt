-- ===== src/Indexer/Main/Subscribed.antt =====
-- What the indexer of indexer/src/main.rs does with a gRPC URL, from a later slot on and without
-- `index_recent`: from the configuration to the rows of the INSERT statements.
use itihas.Indexer.Db.{Statement}
use itihas.Indexer.Delivery.{Holds, IsDrained, drained_run-Holds}
use itihas.Indexer.Fallback.{Event, Session, get_grpc_block_stream, grpc_load_block_stream}
use itihas.Indexer.Fallback.Chain.{Chains}
use itihas.Indexer.Fallback.Rising.{BringsNumbered, fallback_blocks-rises}
use itihas.Indexer.Fallback.Service.{
  SendsAfterParents, grpc_items, rpc_items, service-BringsNumbered,
}
use itihas.Indexer.Main.{
  BlockStreamConfig, IndexerConfig, get_database_url, get_rpc_url, grpc_streamer, index_by_grpc,
  max_fetches, start_indexer,
}
use itihas.Indexer.Messenger.Workers.{Reach, System}
use itihas.Indexer.Sdk.{Sdk}
use itihas.Indexer.Types.{BlockInfo}
use itihas.Prelude.{
  All, All-map, Bool, List, Option, String, arith, false, none, ok, some, ℕ, ◌++◌, ◌<◌, ◌==◌, ◌≡◌,
  ◌≢◌, ◌≤◌,
}

module _ {Value : Type 0} (into_string : Value → Option String) (contains : String → String → Bool)
    (parent_slot : ℕ → Option ℕ) (config : IndexerConfig Value) (url rpc_url : String)
    (parent : ℕ) where
  -- The configuration of the streamer of an indexer that starts after a slot.
  abbrev pub subscribed_config : BlockStreamConfig
  subscribed_config = record {
    grpc_url = some url;
    grpc_x_token = config.grpc_x_token;
    max_concurrent_block_fetches = max_fetches into_string contains parent_slot config rpc_url;
    last_indexed_slot = parent;
    index_recent = false;
  }

  -- The blocks that its stream yields.
  abbrev pub subscribed_blocks : List Event → List BlockInfo
  subscribed_blocks events = (grpc_load_block_stream false parent events parent).0

  pub start_indexer-subscribed :
      {database_url : String}
      → get_database_url into_string config ≡ ok database_url
      → get_rpc_url into_string config ≡ ok rpc_url
      → config.start_slot ≢ 0
      → parent_slot config.start_slot ≡ some parent
      → config.grpc_url ≡ some url
      → config.index_recent ≡ some false
      → start_indexer into_string contains parent_slot config
        ≡ ok (grpc_streamer subscribed_config, parent)
  unfolding start_indexer
  start_indexer-subscribed d r start p grpc recent =
      let later : (config.start_slot == 0) ≡ false = ground arith in
      rw (start_indexer, d, r, later, p, grpc, recent)

  -- For whatever items of the two streams, where each of their blocks lies after its parent or is a
  -- default one.
  index_by_grpc-Holds :
      (checks : Bool) (events : List Event) (current : ℕ) {database_url : String} {workers : ℕ}
      {before : List (List Statement)} {s : System}
      → get_database_url into_string config ≡ ok database_url
      → get_rpc_url into_string config ≡ ok rpc_url
      → config.start_slot ≢ 0
      → parent_slot config.start_slot ≡ some parent
      → config.grpc_url ≡ some url
      → config.index_recent ≡ some false
      → 0 < parent
      → parent ≤ current
      → All BringsNumbered events
      → Reach workers before s
      → s.sent ≡ (index_by_grpc checks events current subscribed_config parent).0
      → IsDrained s
      → (start_indexer into_string contains parent_slot config
          ≡ ok (grpc_streamer subscribed_config, parent))
        × Chains parent (subscribed_blocks events)
        × Holds before s.history (subscribed_blocks events)
  unfolding index_by_grpc grpc_load_block_stream
  index_by_grpc-Holds checks events current d r start p grpc recent positive behind numbered run
        sent drained =
      let (chain, later) =
        fallback_blocks-rises (record { last_indexed_slot = parent; rpc_poll_stream = none }) events
          positive numbered in
      (
        start_indexer-subscribed d r start p grpc recent,
        chain,
        drained_run-Holds checks (grpc_load_block_stream false parent events) current parent
            positive behind
            (All-map (λ b after. omega (arith, after)) (subscribed_blocks events) later) run sent
            drained,
      )

  -- An indexer that is configured with a gRPC URL and both other URLs, with a start slot other than 0
  -- and `index_recent` false, where the parent of the start slot's block is neither 0 nor past the
  -- current slot: it subscribes. Over any sessions of the gRPC service, with failures to connect and
  -- errors between its messages, and any order in which the blocks of them and those that are polled
  -- come, where each block lies after its parent and none of the service makes the parser panic: the
  -- blocks that the task is given are a chain from that parent on. After every run of the messenger's
  -- system that sends the task's batches and is drained without a failure, the rows of the
  -- INSERT statements committed since are those of these blocks and of the set of transactions of
  -- each, and no others, in some order and but for the time of writing.
  pub subscription-Holds :
      {E : Type 0} (sdk : Sdk E) (sessions : List Session) (checks : Bool) (events : List Event)
      (rest : List BlockInfo) (current : ℕ) {database_url : String} {workers : ℕ}
      {before : List (List Statement)} {s : System}
      → get_database_url into_string config ≡ ok database_url
      → get_rpc_url into_string config ≡ ok rpc_url
      → config.start_slot ≢ 0
      → parent_slot config.start_slot ≡ some parent
      → config.grpc_url ≡ some url
      → config.index_recent ≡ some false
      → 0 < parent
      → parent ≤ current
      → All SendsAfterParents sessions
      → get_grpc_block_stream sdk sessions ≡ ok (grpc_items events ++ rest)
      → All (λ b. b.metadata.parent_slot < b.metadata.slot) (rpc_items events)
      → Reach workers before s
      → s.sent ≡ (index_by_grpc checks events current subscribed_config parent).0
      → IsDrained s
      → (start_indexer into_string contains parent_slot config
          ≡ ok (grpc_streamer subscribed_config, parent))
        × Chains parent (subscribed_blocks events)
        × Holds before s.history (subscribed_blocks events)
  subscription-Holds sdk sessions checks events rest current d r start p grpc recent positive behind
        after served polled run sent drained =
      index_by_grpc-Holds checks events current d r start p grpc recent positive behind
        (service-BringsNumbered sdk sessions events rest after served polled) run sent drained
