-- ===== src/Api/Main.antt =====
-- api/src/main.rs: the start of the server, its metrics of calls, and `Api::new` of api/src/api.rs.
-- The HTTP server is that of another crate; its errors are texts, and what it answers is a parameter.
pub mod Starting
pub mod Failing
mod Tests
use itihas.Api.{ApiError, server_start_error}
use itihas.Api.Server.{ApiConfig, RpcModules, build, get_database_url, proxied}
use itihas.Common.{
  Postgres, Provider, Sockets, StatsdClient, Surroundings, load_config_using_env_prefix,
  safe_metric, setup_database_connection, setup_metrics, unwrap_or_text,
}
use itihas.Prelude.{
  Bool, List, Option, Result, String, [], false, map_err, ok, true, ℕ, ◌>>=◌, ◌>>◌, ◌∷◌, ◌⊎◌,
}

abbrev pub logger_filter : Option String → String
logger_filter filter_env =
    unwrap_or_text filter_env "info,sqlx::query=warn,jsonrpsee_server::server=warn"

-- `statsd_time!`: a metric's name, the time that has elapsed, and its tags.
pub record Timing : Type 0 where
  pub key : String
  pub elapsed : ℕ
  pub tags : List (String × String)

abbrev pub bool_text : Bool → String
bool_text true = "true"
bool_text false = "false"

-- `MetricMiddleware::on_result`
abbrev pub on_result : Option StatsdClient → String → Bool → ℕ → List Timing → List Timing
on_result default_client name success elapsed sent =
    safe_metric default_client
      (record {
        key = "api_call";
        elapsed = elapsed;
        tags = ("method", name) ∷ ("success", bool_text success) ∷ [];
      })
      sent

-- `ProxyGetRequestLayer`, `ServerBuilder` with its address, the server, and the wait for Ctrl-C.
pub record HttpServers (RpcModule : Type 0) : Type 1 where
  pub Server : Type 0
  pub ServerHandle : Type 0
  pub proxy_layer : String → String → String ⊎ Unit {0}
  pub build_server : ℕ → String ⊎ Server
  pub start : Server → RpcModule → String ⊎ ServerHandle
  pub ctrl_c : Bool
  pub stop : ServerHandle → String ⊎ Unit {0}

module _ {Value : Type 0} (into_string : Value → Option String) (surroundings : Surroundings)
    (extract : List Provider → Option (ApiConfig Value)) (sockets : Sockets) (postgres : Postgres)
    (rpc : RpcModules) (http : HttpServers rpc.RpcModule) where
  abbrev pub setup_config : Result ApiError (ApiConfig Value)
  setup_config = load_config_using_env_prefix surroundings extract "API_"

  -- `Api`, whose `dao` has the connection.
  pub record Api : Type 0 where
    pub config : ApiConfig Value
    pub dao : postgres.Pool

  -- `Api::new`
  abbrev pub new : ApiConfig Value → Result ApiError Api
  new config = do
    url ← get_database_url into_string config
    dao ← setup_database_connection postgres url config.max_connections
    ok (record { config = config; dao = dao })

  abbrev pub proxy_layers : List (String × String) → Result ApiError (Unit {0})
  proxy_layers [] = ok tt
  proxy_layers ((path, method) ∷ layers) =
      map_err (http.proxy_layer path method) server_start_error >> proxy_layers layers

  -- What `main` has made when it ends.
  pub record Served : Type 0 where
    pub default_client : Option StatsdClient
    pub api : Api
    pub methods : rpc.RpcModule

  -- The wait for the signal, and the stop of the server.
  abbrev pub wait : http.ServerHandle → Result ApiError (Unit {0})
  wait handle = elim http.ctrl_c [
    | true ↦ map_err (http.stop handle) server_start_error
    | false ↦ ok tt
  ]

  unfoldable pub main : Result ApiError Served
  main = do
    config ← setup_config
    default_client ← setup_metrics sockets "api" config.metrics_host config.metrics_port config.env
    proxy_layers proxied
    server ← map_err (http.build_server config.server_port) server_start_error
    api ← new config
    methods ← build rpc
    handle ← map_err (http.start server methods) server_start_error
    wait handle
    ok (record { default_client = default_client; api = api; methods = methods })
