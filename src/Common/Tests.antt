-- ===== src/Common/Tests.antt =====
-- Surroundings outside a repository, a socket that is bound, and a database that is there.
use itihas.Common.{Postgres, Sockets, StatsdClient, Surroundings, setup_metrics}
use itihas.Common.Metrics.{Reachable, Unset, setup_metrics-outcomes}
use itihas.Prelude.{Option, Result, String, none, ok, panic, some, true, ◌↔◌, ◌≡◌}

abbrev pub surroundings : Surroundings
surroundings = record {
  var = λ name. none;
  discover = none;
  join = λ root path. path;
  exists = λ path. true;
}

abbrev pub sockets : Sockets
sockets = record { bind = true; set_nonblocking = true; sink_from = λ host port. true }

abbrev pub postgres : Postgres
postgres = record {
  Options = String;
  Pool = String;
  parse = λ url. some url;
  connect_with = λ connections options. some options;
}

-- A host is given, and no port.
abbrev setup : Result String (Option StatsdClient)
setup = setup_metrics sockets "api" (some "localhost") none none

setup_metrics-outcomes_example :
    ((setup ≡ ok none) ↔ Unset (some "localhost") none)
    × ((setup ≡ panic)
        ↔ (¬ Unset (some "localhost") none × ¬ Reachable sockets (some "localhost") none))
    × ((client : StatsdClient)
        → (setup ≡ ok (some client)) ↔ (
            Reachable sockets (some "localhost") none
            × (some "localhost" ≡ some client.host)
            × (none ≡ some client.port)
            × (client.prefix ≡ "api")
            × (client.env ≡ "dev")))
setup_metrics-outcomes_example = setup_metrics-outcomes sockets "api" none (some "localhost") none
