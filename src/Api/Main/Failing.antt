-- ===== src/Api/Main/Failing.antt =====
-- The errors with which the start of the server of api/src/main.rs can end.
use itihas.Api.{ApiError, server_start_error}
use itihas.Api.Main.{HttpServers, Served, main, new, proxy_layers, setup_config, wait}
use itihas.Api.Server.{ApiConfig, RpcModules, build, get_database_url, proxied}
use itihas.Api.Server.Routes.{build-answers}
use itihas.Common.{
  Postgres, Provider, Sockets, Surroundings, connect_metrics, get_relative_git_path, is_local,
  get_local_config_file_path, setup_metrics, unwrap_bool, unwrap_or_text, setup_database_connection,
}
use itihas.Prelude.{
  Bool, Bool-cases, ℕ, List, Option, Result, String, [], err, false, inl, inr, map_err, none, ok,
  panic, some, true, unwrap, ◌>>=◌, ◌≡◌, ◌∷◌, ◌⊎◌,
}

-- The only errors are those of the HTTP server.
abbrev FailsToStart : {A : Type 0} → Result ApiError A → Type 0
FailsToStart m = (e : ApiError) → m ≡ err e → (text : String) × (e ≡ server_start_error text)

>>=-FailsToStart :
    {A B : Type 0} (m : Result ApiError A) (f : A → Result ApiError B)
    → FailsToStart m
    → ((x : A) → FailsToStart (f x))
    → FailsToStart (m >>= f)
>>=-FailsToStart (ok x) f h k = k x
>>=-FailsToStart (err e) f h k = λ e' p. h e' cc
>>=-FailsToStart panic f h k = λ e p. cc

unwrap-FailsToStart : {A : Type 0} (o : Option A) → FailsToStart (unwrap o)
unwrap-FailsToStart none = λ e p. cc
unwrap-FailsToStart (some x) = λ e p. cc

unwrap_bool-FailsToStart : (b : Bool) → FailsToStart (unwrap_bool b)
unwrap_bool-FailsToStart true = λ e p. cc
unwrap_bool-FailsToStart false = λ e p. cc

map_err-FailsToStart :
    {A : Type 0} (called : String ⊎ A) → FailsToStart (map_err called server_start_error)
map_err-FailsToStart (inl text) = λ e p. (text, cc)
map_err-FailsToStart (inr x) = λ e p. cc

module _ {Value : Type 0} (into_string : Value → Option String) (surroundings : Surroundings)
    (extract : List Provider → Option (ApiConfig Value)) (sockets : Sockets) (postgres : Postgres)
    (rpc : RpcModules) (http : HttpServers rpc.RpcModule) where
  connect_metrics-FailsToStart :
      (prefix : String) (uri : Option String) (port : Option ℕ) (env : String)
      → FailsToStart (connect_metrics sockets prefix uri port env)
  connect_metrics-FailsToStart prefix uri port env =
      >>=-FailsToStart (unwrap_bool sockets.bind) _ (unwrap_bool-FailsToStart sockets.bind) λ _.
        >>=-FailsToStart (unwrap_bool sockets.set_nonblocking) _
          (unwrap_bool-FailsToStart sockets.set_nonblocking)
          λ _. >>=-FailsToStart (unwrap uri) _ (unwrap-FailsToStart uri) λ host.
            >>=-FailsToStart (unwrap port) _ (unwrap-FailsToStart port) λ host_port.
              >>=-FailsToStart (unwrap_bool (sockets.sink_from host host_port)) _
                (unwrap_bool-FailsToStart (sockets.sink_from host host_port)) λ _ e p. cc

  setup_metrics-FailsToStart :
      (prefix : String) (uri : Option String) (port : Option ℕ) (env : Option String)
      → FailsToStart (setup_metrics sockets prefix uri port env)
  unfolding setup_metrics
  setup_metrics-FailsToStart prefix none none env = λ e p. cc
  setup_metrics-FailsToStart prefix none (some port) env =
      >>=-FailsToStart (connect_metrics sockets prefix none (some port) (unwrap_or_text env "dev"))
        _ (connect_metrics-FailsToStart prefix none (some port) (unwrap_or_text env "dev"))
        λ client e p. cc
  setup_metrics-FailsToStart prefix (some uri) port env =
      >>=-FailsToStart (connect_metrics sockets prefix (some uri) port (unwrap_or_text env "dev")) _
        (connect_metrics-FailsToStart prefix (some uri) port (unwrap_or_text env "dev"))
        λ client e p. cc

  setup_config-FailsToStart :
      FailsToStart (setup_config into_string surroundings extract sockets postgres rpc http)
  setup_config-FailsToStart = elim (Bool-cases (is_local surroundings)) [
    | inl local ↦ rw local (
        >>=-FailsToStart (get_local_config_file_path surroundings) _ local_config-FailsToStart
          λ path. unwrap-FailsToStart _)
    | inr elsewhere ↦ rw elsewhere (unwrap-FailsToStart _)
  ]
    where
      local_config-FailsToStart : FailsToStart (get_local_config_file_path surroundings)
      local_config-FailsToStart =
          >>=-FailsToStart (get_relative_git_path surroundings _) _
            (>>=-FailsToStart (unwrap surroundings.discover) _
              (unwrap-FailsToStart surroundings.discover)
              λ repo. >>=-FailsToStart (unwrap repo) _ (unwrap-FailsToStart repo) λ root e p. cc)
            λ path.
              >>=-FailsToStart (unwrap_bool (surroundings.exists path)) _
                (unwrap_bool-FailsToStart (surroundings.exists path)) λ _ e p. cc

  proxy_layers-FailsToStart :
      (layers : List (String × String))
      → FailsToStart
          (proxy_layers into_string surroundings extract sockets postgres rpc http layers)
  proxy_layers-FailsToStart [] = λ e p. cc
  proxy_layers-FailsToStart ((path, method) ∷ layers) =
      >>=-FailsToStart (map_err (http.proxy_layer path method) server_start_error) _
        (map_err-FailsToStart (http.proxy_layer path method)) λ _. proxy_layers-FailsToStart layers

  new-FailsToStart :
      (config : ApiConfig Value)
      → FailsToStart (new into_string surroundings extract sockets postgres rpc http config)
  new-FailsToStart config =
      >>=-FailsToStart (get_database_url into_string config) _ (unwrap-FailsToStart _) λ url.
        >>=-FailsToStart (setup_database_connection postgres url config.max_connections) _
          (>>=-FailsToStart (unwrap (postgres.parse url)) _
            (unwrap-FailsToStart (postgres.parse url))
            λ options. unwrap-FailsToStart (postgres.connect_with config.max_connections options))
          λ dao e p. cc

  wait-FailsToStart :
      (handle : http.ServerHandle)
      → FailsToStart (wait into_string surroundings extract sockets postgres rpc http handle)
  wait-FailsToStart handle = elim (Bool-cases http.ctrl_c) [
    | inl signal ↦ rw signal (map_err-FailsToStart (http.stop handle))
    | inr none_heard ↦ rw none_heard (λ e p. cc)
  ]

  build-FailsToStart : FailsToStart (build rpc)
  build-FailsToStart = let (m, e, _, _, _, _) = build-answers rpc in rw e (λ e' p. cc)

  abbrev api_main :
      Result ApiError (Served into_string surroundings extract sockets postgres rpc http)
  api_main = main into_string surroundings extract sockets postgres rpc http

  main-FailsToStart : FailsToStart api_main
  unfolding main
  main-FailsToStart = >>=-FailsToStart _ _ setup_config-FailsToStart λ config.
      >>=-FailsToStart _ _
        (setup_metrics-FailsToStart "api" config.metrics_host config.metrics_port config.env)
        λ client. >>=-FailsToStart _ _ (proxy_layers-FailsToStart proxied) λ _.
          >>=-FailsToStart _ _ (map_err-FailsToStart (http.build_server config.server_port))
            λ server. >>=-FailsToStart _ _ (new-FailsToStart config) λ api.
              >>=-FailsToStart _ _ build-FailsToStart λ methods.
                >>=-FailsToStart _ _ (map_err-FailsToStart (http.start server methods))
                  λ handle. >>=-FailsToStart _ _ (wait-FailsToStart handle) λ _ e p. cc

  -- The only error that the start of the server returns is a failure of the HTTP server, of one of its
  -- layers or of its stop: a configuration that cannot be read, metrics that are half configured, a
  -- missing database URL and a database that cannot be reached never come as an error.
  pub main-start_error :
      {e : ApiError} → api_main ≡ err e → (text : String) × (e ≡ server_start_error text)
  main-start_error {e} h = main-FailsToStart e h
