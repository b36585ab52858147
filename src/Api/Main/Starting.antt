-- ===== src/Api/Main/Starting.antt =====
-- What the server of api/src/main.rs has run with when it comes to its end.
use mathlib.Core.Path.{subst}
use itihas.Api.{ApiError, server_start_error}
use itihas.Api.Main.{Api, HttpServers, Served, main, new, proxy_layers, setup_config, wait}
use itihas.Api.Server.{ApiConfig, RpcModules, build, get_database_url, proxied}
use itihas.Api.Server.Routes.{build-answers, method_named, server_methods}
use itihas.Common.{
  Postgres, Provider, Sockets, StatsdClient, Surroundings, setup_metrics, setup_database_connection,
}
use itihas.Common.Metrics.{Reachable, Unset, setup_metrics-outcomes}
use itihas.Prelude.{
  >>=-eq-ok, ℕ, List, Option, Result, String, inl, inr, map_err, none, ok, ok-injective, refl, some,
  sym, ◌≡◌, ◌≢◌, ◌∙◌, ◌⊎◌,
}

module _ {Value : Type 0} (into_string : Value → Option String) (surroundings : Surroundings)
    (extract : List Provider → Option (ApiConfig Value)) (sockets : Sockets) (postgres : Postgres)
    (rpc : RpcModules) (http : HttpServers rpc.RpcModule) where
  abbrev api_main :
      Result ApiError (Served into_string surroundings extract sockets postgres rpc http)
  api_main = main into_string surroundings extract sockets postgres rpc http

  abbrev ApiServed : Type 0
  ApiServed = Served into_string surroundings extract sockets postgres rpc http

  -- What a server that was started and stopped has run with.
  pub record HasServed (served : ApiServed) : Type 0 where
    pub config_read :
        setup_config into_string surroundings extract sockets postgres rpc http
        ≡ ok served.api.config
    pub metrics_set :
        (Unset served.api.config.metrics_host served.api.config.metrics_port
          × (served.default_client ≡ none))
        ⊎ (Reachable sockets served.api.config.metrics_host served.api.config.metrics_port
            × (served.default_client ≢ none))
    pub connected :
        (url : String) × (get_database_url into_string served.api.config ≡ ok url)
        × (setup_database_connection postgres {E = ApiError} url served.api.config.max_connections
            ≡ ok served.api.dao)
    pub named : (name : String) → rpc.methods served.methods name ≡ method_named server_methods name

  new-connected :
      (config : ApiConfig Value)
      {api : Api into_string surroundings extract sockets postgres rpc http}
      → new into_string surroundings extract sockets postgres rpc http config ≡ ok api
      → (api.config ≡ config)
        × (url : String) × (get_database_url into_string config ≡ ok url)
        × (setup_database_connection postgres {E = ApiError} url config.max_connections
            ≡ ok api.dao)
  new-connected config h =
      let (url, e, h1) = >>=-eq-ok (get_database_url into_string config) _ h in
      let (dao, e1, h2) =
        >>=-eq-ok (setup_database_connection postgres url config.max_connections) _ h1 in
      rw (← ok-injective h2) (refl, url, e, e1)

  setup_metrics-set :
      (uri : Option String) (port : Option ℕ) (env : Option String) (client : Option StatsdClient)
      → setup_metrics sockets {E = ApiError} "api" uri port env ≡ ok client
      → (Unset uri port × (client ≡ none)) ⊎ (Reachable sockets uri port × (client ≢ none))
  setup_metrics-set uri port env none h =
      inl ((setup_metrics-outcomes sockets "api" env uri port).0.0 h, refl)
  setup_metrics-set uri port env (some client) h =
      inr ((((setup_metrics-outcomes sockets "api" env uri port).2 client).0 h).0, λ e. cc)

  build-named :
      {methods : rpc.RpcModule}
      → build rpc ≡ ok methods
      → (name : String) → rpc.methods methods name ≡ method_named server_methods name
  build-named h =
      let (m, e, named, _, _, _) = build-answers rpc in rw (ok-injective (sym e ∙ h)) at named

  parts-HasServed :
      (config : ApiConfig Value) (client : Option StatsdClient)
      (api : Api into_string surroundings extract sockets postgres rpc http)
      (methods : rpc.RpcModule)
      → setup_config into_string surroundings extract sockets postgres rpc http ≡ ok config
      → setup_metrics sockets {E = ApiError} "api" config.metrics_host config.metrics_port
          config.env
        ≡ ok client
      → new into_string surroundings extract sockets postgres rpc http config ≡ ok api
      → build rpc ≡ ok methods
      → HasServed (record { default_client = client; api = api; methods = methods })
  parts-HasServed config client api methods read metrics connects builds =
      let (same, url, e, e1) = new-connected config connects in
      record {
        config_read = rw same read;
        metrics_set =
            rw same
              (setup_metrics-set config.metrics_host config.metrics_port config.env client metrics);
        connected = rw same (url, e, e1);
        named = build-named builds;
      }

  -- When the start of the server and its run come to their end: the metrics' host and port were both
  -- missing and no client was set, or both were given and reachable and a client was set; the database
  -- was connected to by the URL of the configuration that was read, with its number of connections;
  -- and the methods that were served are those of the API, under their names and aliases.
  pub main-HasServed : {served : ApiServed} → api_main ≡ ok served → HasServed served
  unfolding main
  main-HasServed h =
      let (config, e1, h1) =
        >>=-eq-ok (setup_config into_string surroundings extract sockets postgres rpc http) _ h in
      let (client, e2, h2) =
        >>=-eq-ok (setup_metrics sockets "api" config.metrics_host config.metrics_port config.env) _
          h1 in
      let (_, _, h3) =
        >>=-eq-ok (proxy_layers into_string surroundings extract sockets postgres rpc http proxied)
          _ h2 in
      let (server, _, h4) =
        >>=-eq-ok (map_err (http.build_server config.server_port) server_start_error) _ h3 in
      let (api, e5, h5) =
        >>=-eq-ok (new into_string surroundings extract sockets postgres rpc http config) _ h4 in
      let (methods, e6, h6) = >>=-eq-ok (build rpc) _ h5 in
      let (handle, _, h7) =
        >>=-eq-ok (map_err (http.start server methods) server_start_error) _ h6 in
      let (_, _, h8) =
        >>=-eq-ok (wait into_string surroundings extract sockets postgres rpc http handle) _ h7 in
      subst HasServed (ok-injective h8) (parts-HasServed config client api methods e1 e2 e5 e6)
