-- ===== src/Common.antt =====
-- The crate `common`: common/src/metrics.rs, common/src/config.rs, common/src/db.rs and the filter of
-- common/src/lib.rs. What sockets, statsd, git, files, figment and Postgres answer are parameters.
pub mod Metrics
pub mod Tests
use mathlib.Core.Logic.{ite}
use itihas.Prelude.{
  Bool, List, Option, Result, String, String-discrete, [], false, if◌then◌else◌, is_some, none, ok,
  panic, some, true, unwrap, ℕ, ◌++◌, ◌>>=◌, ◌>>◌, ◌||◌, ◌∷◌,
}

-- `unwrap` of a call that is only asked whether it succeeds.
abbrev pub unwrap_bool : {E : Type 0} → Bool → Result E (Unit {0})
unwrap_bool true = ok tt
unwrap_bool false = panic

-- `unwrap_or_else(|| text.to_string())`
abbrev pub unwrap_or_text : Option String → String → String
unwrap_or_text none text = text
unwrap_or_text (some found) text = found

-- The client that becomes the global default.
pub record StatsdClient : Type 0 where
  pub prefix : String
  pub host : String
  pub port : ℕ
  pub env : String

-- Whether the socket is bound and made nonblocking, and whether a sink is made for a host.
pub record Sockets : Type 0 where
  pub bind : Bool
  pub set_nonblocking : Bool
  pub sink_from : String → ℕ → Bool

module _ (sockets : Sockets) {E : Type 0} where
  abbrev pub connect_metrics : String → Option String → Option ℕ → String → Result E StatsdClient
  connect_metrics prefix uri port env = do
    unwrap_bool sockets.bind
    unwrap_bool sockets.set_nonblocking
    host ← unwrap uri
    host_port ← unwrap port
    unwrap_bool (sockets.sink_from host host_port)
    ok (record { prefix = prefix; host = host; port = host_port; env = env })

  unfoldable pub setup_metrics :
      String → Option String → Option ℕ → Option String → Result E (Option StatsdClient)
  setup_metrics prefix uri port env =
      if is_some uri || is_some port
      then (connect_metrics prefix uri port (unwrap_or_text env "dev") >>= λ client.
          ok (some client))
      else ok none

-- `safe_metric` and `metric!`: what has been sent, after a metric that is sent if a client is set.
module _ {A : Type 0} (default_client : Option StatsdClient) where
  abbrev pub safe_metric : A → List A → List A
  safe_metric stat sent = if is_some default_client then sent ++ stat ∷ [] else sent

  abbrev pub metric : List A → List A → List A
  metric block sent = if is_some default_client then sent ++ block else sent

-- The providers that a configuration is joined from, the first one first.
pub data Provider : Type 0 where
  env_prefixed : String → Provider
  json_file : String → Provider

-- The environment, the work tree of the repository if it is found and has one, and the files.
pub record Surroundings : Type 0 where
  pub var : String → Option String
  pub discover : Option (Option String)
  pub join : String → String → String
  pub exists : String → Bool

module _ (surroundings : Surroundings) where
  -- `std::env::var("ENV")` is `local`.
  abbrev pub is_local : Bool
  is_local = elim (surroundings.var "ENV") [
    | none ↦ false
    | some env ↦ ite (String-discrete env "local") true false
  ]

module _ (surroundings : Surroundings) {E : Type 0} where
  abbrev pub get_relative_git_path : String → Result E String
  get_relative_git_path file_path = do
    repo ← unwrap surroundings.discover
    git_root ← unwrap repo
    ok (surroundings.join git_root file_path)

  abbrev pub get_local_config_file_path : Result E String
  get_local_config_file_path = do
    file_path ← get_relative_git_path "common/src/local_config.json"
    unwrap_bool (surroundings.exists file_path)
    ok file_path

  abbrev pub load_config_using_env_prefix :
      {T : Type 0} → (List Provider → Option T) → String → Result E T
  load_config_using_env_prefix extract env_prefix =
      if is_local surroundings
      then (get_local_config_file_path >>= λ path.
          unwrap (extract (env_prefixed env_prefix ∷ json_file path ∷ [])))
      else unwrap (extract (env_prefixed env_prefix ∷ []))

-- `database_url.parse()` and `connect_with(options)` with the most connections.
pub record Postgres : Type 1 where
  pub Options : Type 0
  pub Pool : Type 0
  pub parse : String → Option Options
  pub connect_with : ℕ → Options → Option Pool

module _ (postgres : Postgres) {E : Type 0} where
  abbrev pub setup_pg_pool : String → ℕ → Result E postgres.Pool
  setup_pg_pool database_url max_connections = do
    options ← unwrap (postgres.parse database_url)
    unwrap (postgres.connect_with max_connections options)

  abbrev pub setup_database_connection : String → ℕ → Result E postgres.Pool
  setup_database_connection db_url max_connections = setup_pg_pool db_url max_connections

-- The filter of the logger: the environment's, or this one.
abbrev pub logger_filter : Option String → String
logger_filter filter_env = unwrap_or_text filter_env "warn,sqlx::query=warn"
