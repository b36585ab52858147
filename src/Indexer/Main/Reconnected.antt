-- ===== src/Indexer/Main/Reconnected.antt =====
-- What the indexer of indexer/src/main.rs does with a gRPC URL, from the first slot on and without
-- `index_recent`, when the subscription is made anew while it polls.
use itihas.Indexer.Fallback.{
  Event, Polling, State, fallback_blocks, grpc_block, grpc_load_block_stream, turn,
}
use itihas.Indexer.Main.{
  IndexerConfig, get_database_url, get_rpc_url, grpc_streamer, index_by_grpc, start_indexer,
}
use itihas.Indexer.Main.Subscribed.{subscribed_config}
use itihas.Indexer.Poller.{Standing, open_ended}
use itihas.Indexer.Streamer.{advance, continously_index_new_blocks, panicked, send_blocks, waiting}
use itihas.Indexer.Types.{BlockInfo, default_block}
use itihas.Prelude.{
  Bool, List, Option, String, [], arith, false, if◌then◌else◌, leb, none, refl, ◌++◌, ◌-◌, ◌∙◌, ok,
  some, true, ℕ, ◌<◌, ◌==◌, ◌≡◌, ◌≢◌, ◌∷◌,
}

-- A block that is not the child of slot 0, and the default block of the next attempt to connect.
abbrev pub reconnect : BlockInfo → List Event
reconnect b = grpc_block b ∷ grpc_block default_block ∷ []

orphan_turn :
    (b : BlockInfo)
    → b.metadata.slot ≢ 0
    → b.metadata.parent_slot ≢ 0
    → turn false 0 none (grpc_block b)
      ≡ ok (
        record {
          last_indexed_slot = 0;
          rpc_poll_stream = some (record { from = 0; end_block_slot = b.metadata.slot });
        },
        [],
      )
unfolding turn
orphan_turn b nonzero orphan =
    let not_zero : (b.metadata.slot == 0) ≡ false = ground arith in
    let not_child : (b.metadata.parent_slot == 0) ≡ false = ground arith in rw (not_zero, not_child)

fallback_blocks-two :
    (state : State) (first second : Event) {next final : State} {bs cs : List BlockInfo}
    → turn false state.last_indexed_slot state.rpc_poll_stream first ≡ ok (next, bs)
    → turn false next.last_indexed_slot next.rpc_poll_stream second ≡ ok (final, cs)
    → fallback_blocks false state (first ∷ second ∷ []) ≡ (bs ++ (cs ++ []), open_ended)
unfolding fallback_blocks
fallback_blocks-two state first second e k = rw (fallback_blocks, e, k)

default_turn :
    (polling : Polling)
    → turn false 0 (some polling) (grpc_block default_block)
      ≡ ok (record { last_indexed_slot = 0; rpc_poll_stream = none }, default_block ∷ [])
unfolding turn
default_turn polling = refl

-- While blocks are polled from slot 0 on, the default block has the parent that is waited for.
reconnected_blocks :
    (b : BlockInfo) (slot : ℕ)
    → b.metadata.slot ≢ 0
    → b.metadata.parent_slot ≢ 0
    → grpc_load_block_stream false 0 (reconnect b) slot ≡ (default_block ∷ [], open_ended)
unfolding grpc_load_block_stream
reconnected_blocks b slot nonzero orphan =
    fallback_blocks-two (record { last_indexed_slot = 0; rpc_poll_stream = none }) (grpc_block b)
      (grpc_block default_block) (orphan_turn b nonzero orphan)
      (default_turn (record { from = 0; end_block_slot = b.metadata.slot }))

continously_index_new_blocks-first_slot :
    (checks : Bool) (stream : ℕ → List BlockInfo × Standing) (current : ℕ) {bs : List BlockInfo}
    {standing : Standing}
    → stream current ≡ (bs, standing)
    → continously_index_new_blocks checks stream current 0
      ≡ send_blocks checks current 0 false bs standing
unfolding continously_index_new_blocks
continously_index_new_blocks-first_slot checks stream current e =
    let same : leb current current ≡ true = ground arith in
    let none_left : current - current ≡ 0 = omega arith in
    rw (continously_index_new_blocks, same, none_left, e) refl

-- The default block lies before every start, and the subtraction of the start panics or wraps around.
send_default :
    (checks : Bool) (start to_backfill : ℕ)
    → 0 < start
    → send_blocks checks start to_backfill false (default_block ∷ []) open_ended
      ≡ ((default_block ∷ []) ∷ [], if checks then panicked else waiting)
unfolding send_blocks
send_default true start to_backfill positive =
    let below : leb start 0 ≡ false = ground arith in rw (send_blocks, advance, below)
send_default false start to_backfill positive =
    let below : leb start 0 ≡ false = ground arith in rw (send_blocks, advance, below)

module _ {Value : Type 0} (into_string : Value → Option String) (contains : String → String → Bool)
    (parent_slot : ℕ → Option ℕ) (config : IndexerConfig Value) (url rpc_url : String) where
  start_indexer-first_slot :
      {database_url : String}
      → get_database_url into_string config ≡ ok database_url
      → get_rpc_url into_string config ≡ ok rpc_url
      → config.start_slot ≡ 0
      → config.grpc_url ≡ some url
      → config.index_recent ≡ some false
      → start_indexer into_string contains parent_slot config
        ≡ ok (
          grpc_streamer (subscribed_config into_string contains parent_slot config url rpc_url 0),
          0,
        )
  unfolding start_indexer
  start_indexer-first_slot d r start grpc recent = rw (start_indexer, d, r, start, grpc, recent)

  -- An indexer that is configured with a gRPC URL and both other URLs, with start slot 0 and
  -- `index_recent` false, on a node whose current slot is not 0: if the first block of the
  -- subscription is past slot 0 and not the child of slot 0, and the stream connects anew before a
  -- polled block has come, then the default block, with slot 0 and without a hash, is sent as a block
  -- to be indexed. In a build with overflow checks the task panics after it, in another it goes on.
  pub index_by_grpc-sends_default :
      {database_url : String} (b : BlockInfo) (current : ℕ)
      → get_database_url into_string config ≡ ok database_url
      → get_rpc_url into_string config ≡ ok rpc_url
      → config.start_slot ≡ 0
      → config.grpc_url ≡ some url
      → config.index_recent ≡ some false
      → 0 < current
      → b.metadata.slot ≢ 0
      → b.metadata.parent_slot ≢ 0
      → (start_indexer into_string contains parent_slot config
          ≡ ok (
            grpc_streamer (subscribed_config into_string contains parent_slot config url rpc_url 0),
            0,
          ))
        × (index_by_grpc true
              (reconnect b)
              current
              (subscribed_config into_string contains parent_slot config url rpc_url 0)
              0
            ≡ ((default_block ∷ []) ∷ [], panicked))
        × (index_by_grpc false
              (reconnect b)
              current
              (subscribed_config into_string contains parent_slot config url rpc_url 0)
              0
            ≡ ((default_block ∷ []) ∷ [], waiting))
  unfolding index_by_grpc
  index_by_grpc-sends_default b current d r start grpc recent positive nonzero orphan =
      let stream = grpc_load_block_stream false 0 (reconnect b) in
      let blocks = reconnected_blocks b current nonzero orphan in
      (
        start_indexer-first_slot d r start grpc recent,
        continously_index_new_blocks-first_slot true stream current blocks
            ∙ send_default true current 0 positive,
        continously_index_new_blocks-first_slot false stream current blocks
            ∙ send_default false current 0 positive,
      )
