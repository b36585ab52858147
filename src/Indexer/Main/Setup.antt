-- ===== src/Indexer/Main/Setup.antt =====
-- The start of indexer/src/main.rs as a whole: the configuration that is read, the connection to the
-- database, the messenger, and the streamer.
use itihas.Common.{
  Postgres, Provider, Surroundings, load_config_using_env_prefix, setup_database_connection,
}
use itihas.Indexer.Main.{IndexerConfig, Streamer, get_database_url, start_indexer}
use itihas.Indexer.Db.{Statement}
use itihas.Indexer.Messenger.Workers.{System, run}
use itihas.Indexer.Types.{IndexerError}
use itihas.Prelude.{Bool, List, Option, Result, String, ok, ℕ, ◌>>=◌}

module _ {Value : Type 0} (into_string : Value → Option String) (surroundings : Surroundings)
    (extract : List Provider → Option (IndexerConfig Value)) (postgres : Postgres)
    (contains : String → String → Bool) (parent_slot : ℕ → Option ℕ) where
  abbrev pub setup_config : Result IndexerError (IndexerConfig Value)
  setup_config = load_config_using_env_prefix surroundings extract "INDEXER_"

  -- What runs when the task is spawned: the workers over the database as it is, and the streamer.
  pub record Running : Type 0 where
    pub config : IndexerConfig Value
    pub dao : postgres.Pool
    pub system : System
    pub streamer : Streamer
    pub last_indexed_slot : ℕ

  -- `main` up to the task. The number of connections is not the configuration's.
  unfoldable pub main : List (List Statement) → Result IndexerError Running
  unfolding start_indexer
  main history = do
    config ← setup_config
    url ← get_database_url into_string config
    dao ← setup_database_connection postgres url 10
    (streamer, last_indexed_slot) ← start_indexer into_string contains parent_slot config
    ok (record {
      config = config;
      dao = dao;
      system = run config.workers history;
      streamer = streamer;
      last_indexed_slot = last_indexed_slot;
    })
