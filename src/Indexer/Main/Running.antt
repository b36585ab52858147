-- ===== src/Indexer/Main/Running.antt =====
-- What the indexer that indexer/src/main.rs starts with a gRPC URL brings into the database.
use itihas.Common.{Postgres, Provider, Surroundings, setup_database_connection}
use itihas.Indexer.Db.{Statement}
use itihas.Indexer.Delivery.{Holds, IsDrained}
use itihas.Indexer.Fallback.{Event, Session, get_grpc_block_stream, grpc_load_block_stream}
use itihas.Indexer.Fallback.Chain.{Chains}
use itihas.Indexer.Fallback.Service.{SendsAfterParents, grpc_items, rpc_items}
use itihas.Indexer.Main.{
  IndexerConfig, Streamer, get_database_url, get_rpc_url, grpc_streamer, index_by_grpc,
  start_indexer, streamer_config,
}
use itihas.Indexer.Main.Setup.{Running, main, setup_config}
use itihas.Indexer.Main.Subscribed.{start_indexer-subscribed, subscribed_config, subscription-Holds}
use itihas.Indexer.Messenger.Workers.{Reach, System, run}
use itihas.Indexer.Sdk.{Sdk}
use itihas.Indexer.Types.{BlockInfo}
use itihas.Prelude.{
  >>=-eq-ok, All, Bool, List, Option, String, ap, false, ok, ok-injective, refl, some, sym, ℕ, ◌++◌,
  ◌<◌, ◌∙◌, ◌≡◌, ◌≢◌, ◌≤◌,
}

module _ {Value : Type 0} (into_string : Value → Option String) (surroundings : Surroundings)
    (extract : List Provider → Option (IndexerConfig Value)) (postgres : Postgres)
    (contains : String → String → Bool) (parent_slot : ℕ → Option ℕ) where
  abbrev MainRunning : Type 0
  MainRunning = Running into_string surroundings extract postgres contains parent_slot

  start_indexer-urls :
      (config : IndexerConfig Value) {started : Streamer × ℕ}
      → start_indexer into_string contains parent_slot config ≡ ok started
      → ((url : String) × (get_database_url into_string config ≡ ok url))
        × ((rpc_url : String) × (get_rpc_url into_string config ≡ ok rpc_url))
  unfolding start_indexer
  start_indexer-urls config h =
      let (url, e, h1) = >>=-eq-ok (get_database_url into_string config) _ h in
      let (rpc_url, e1, h2) = >>=-eq-ok (get_rpc_url into_string config) _ h1 in
      ((url, e), (rpc_url, e1))

  main-started :
      (history : List (List Statement)) {running : MainRunning}
      → main into_string surroundings extract postgres contains parent_slot history ≡ ok running
      → (running.system ≡ run running.config.workers history)
        × (start_indexer into_string contains parent_slot running.config
            ≡ ok (running.streamer, running.last_indexed_slot))
  unfolding main
  main-started history h =
      let (config, _, h1) =
        >>=-eq-ok (setup_config into_string surroundings extract postgres contains parent_slot) _
          h in
      let (url, _, h2) = >>=-eq-ok (get_database_url into_string config) _ h1 in
      let (dao, _, h3) = >>=-eq-ok (setup_database_connection postgres url 10) _ h2 in
      let ((streamer, last), e, h4) =
        >>=-eq-ok (start_indexer into_string contains parent_slot config) _ h3 in
      rw (← ok-injective h4) (refl, e)

  -- An indexer that has started, with a configuration that has a gRPC URL, a start slot other than 0
  -- and `index_recent` false, where the parent of the start slot's block is neither 0 nor past the
  -- current slot: it subscribes, from that parent on. Over any sessions of the gRPC service, with
  -- failures to connect and errors between its messages, and any order in which the blocks of them and
  -- those that are polled come, where each block lies after its parent and none of the service makes
  -- the parser panic: the blocks that the task is given are a chain from that parent on. After every
  -- run of the messenger's system from the start on, with the configured number of workers, that sends
  -- the task's batches and is drained without a failure, the rows of the INSERT statements committed
  -- since are those of these blocks and of the set of transactions of each, and no others, in some
  -- order and but for the time of writing.
  pub main-Holds :
      {E : Type 0} (sdk : Sdk E) (sessions : List Session) (checks : Bool) (events : List Event)
      (rest : List BlockInfo) (current parent : ℕ) (grpc_url : String)
      (history : List (List Statement)) {running : MainRunning} {s : System}
      → main into_string surroundings extract postgres contains parent_slot history ≡ ok running
      → running.config.start_slot ≢ 0
      → parent_slot running.config.start_slot ≡ some parent
      → running.config.grpc_url ≡ some grpc_url
      → running.config.index_recent ≡ some false
      → 0 < parent
      → parent ≤ current
      → All SendsAfterParents sessions
      → get_grpc_block_stream sdk sessions ≡ ok (grpc_items events ++ rest)
      → All (λ b. b.metadata.parent_slot < b.metadata.slot) (rpc_items events)
      → Reach running.config.workers history s
      → s.sent
        ≡ (index_by_grpc checks events current
            (streamer_config running.streamer)
            running.last_indexed_slot).0
      → IsDrained s
      → (running.system ≡ run running.config.workers history)
        × ((rpc_url : String) × (running.streamer
              ≡ grpc_streamer (
                  subscribed_config into_string contains parent_slot running.config grpc_url rpc_url
                    parent)))
        × Chains parent (grpc_load_block_stream false parent events parent).0
        × Holds history s.history (grpc_load_block_stream false parent events parent).0
  main-Holds sdk sessions checks events rest current parent grpc_url history {running} {s} m start p
        grpc recent positive behind after served polled reached sent drained =
      let (system, started) = main-started history m in
      let ((url, d), (rpc_url, r)) = start_indexer-urls running.config started in
      let subscribed =
        start_indexer-subscribed into_string contains parent_slot running.config grpc_url rpc_url
          parent d r start p grpc recent in
      let same = ok-injective (sym started ∙ subscribed) in
      let streamer = ap (λ pair. pair.0) same in
      let last = ap (λ pair. pair.1) same in
      let task = sent ∙ rw (streamer, last) refl in
      let (_, chain, holds) =
        subscription-Holds into_string contains parent_slot running.config grpc_url rpc_url parent
          sdk sessions checks events rest current d r start p grpc recent positive behind after
          served polled reached task drained in
      (system, (rpc_url, streamer), chain, holds)
