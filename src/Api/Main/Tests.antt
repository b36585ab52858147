-- ===== src/Api/Main/Tests.antt =====
-- A server whose configuration is in the environment, on a port that is free, and on one that is not.
use itihas.Api.{server_start_error}
use itihas.Api.Main.{HttpServers, Served, main}
use itihas.Api.Main.Failing.{main-start_error}
use itihas.Api.Main.Starting.{HasServed, main-HasServed}
use itihas.Api.Server.{
  ApiConfig, add_name, build, default_max_connections, default_server_port,
  get_transactions_by_address, liveness, readiness, schema,
}
use itihas.Api.Server.Tests.{Names, modules}
use itihas.Common.{Provider, setup_metrics}
use itihas.Common.Tests.{postgres, sockets, surroundings}
use itihas.Prelude.{List, Option, String, String-discrete, inl, inr, none, refl, some, true, ℕ, ◌≡◌}

abbrev config : ApiConfig String
config = record {
  database_config = λ key. some "postgres://localhost/itihas";
  env = none;
  metrics_port = some 8125;
  metrics_host = some "localhost";
  server_port = default_server_port;
  max_connections = default_max_connections;
}

abbrev into_string : String → Option String
into_string value = some value

abbrev extract : List Provider → Option (ApiConfig String)
extract providers = some config

abbrev serves : HttpServers Names
serves = record {
  Server = ℕ;
  ServerHandle = ℕ;
  proxy_layer = λ path method. inr tt;
  build_server = λ port. inr port;
  start = λ server methods. inr server;
  ctrl_c = true;
  stop = λ handle. inr tt;
}

abbrev taken : HttpServers Names
taken = record serves { build_server = λ port. inl "address in use" }

main-start_error_example :
    (text : String) × (server_start_error "address in use" ≡ server_start_error text)
unfolding main setup_metrics
main-start_error_example =
    main-start_error into_string surroundings extract sockets postgres modules taken
      {e = server_start_error "address in use"} refl

abbrev names : Names
names = add_name "apiSchema" schema (
    add_name "api_schema" schema (
      add_name "schema" schema (
        add_name "getTransactionsByAddress" get_transactions_by_address (
          add_name "get_transactions_by_address" get_transactions_by_address
            (add_name "readiness" readiness (add_name "liveness" liveness (λ k. none)))))))

abbrev served : Served into_string surroundings extract sockets postgres modules serves
served = record {
  default_client = some (record { prefix = "api"; host = "localhost"; port = 8125; env = "dev" });
  api = record { config = config; dao = "postgres://localhost/itihas" };
  methods = names;
}

main-HasServed_example :
    HasServed into_string surroundings extract sockets postgres modules serves served
unfolding main setup_metrics build String-discrete
main-HasServed_example =
    main-HasServed into_string surroundings extract sockets postgres modules serves
      {served = served} refl
