-- ===== src/Api/Server/Routes.antt =====
-- Which names and paths the server of api/src/builder.rs and api/src/main.rs answers.
use mathlib.Core.Logic.{ite}
use itihas.Api.Server.{
  Method, RpcModules, add_name, build, get_transactions_by_address, liveness, proxied, proxy,
  readiness, schema, starts,
}
use itihas.Prelude.{List, Option, String, String-discrete, [], none, ok, refl, some, ◌≡◌, ◌∙◌, ◌∷◌}

-- The method with a name in a list of names and methods.
unfoldable pub method_named : List (String × Method) → String → Option Method
method_named [] k = none
method_named ((name, method) ∷ rest) k =
    ite (String-discrete k name) (some method) (method_named rest k)

-- The names of the server and their methods.
abbrev pub server_methods : List (String × Method)
server_methods =
    ("apiSchema", schema)
    ∷ ("api_schema", schema)
    ∷ ("schema", schema)
    ∷ ("getTransactionsByAddress", get_transactions_by_address)
    ∷ ("get_transactions_by_address", get_transactions_by_address)
    ∷ ("readiness", readiness)
    ∷ ("liveness", liveness)
    ∷ []

module _ (rpc : RpcModules) where
  abbrev Has : rpc.RpcModule → List (String × Method) → Type 0
  Has m names = (k : String) → rpc.methods m k ≡ method_named names k

  register-Has :
      (m : rpc.RpcModule) (names : List (String × Method)) (name : String) (method : Method)
      → Has m names
      → method_named names name ≡ none
      → (next : rpc.RpcModule) × (starts rpc (rpc.register_async_method m name method) ≡ ok next)
        × Has next ((name, method) ∷ names)
  unfolding method_named
  register-Has m names name method has fresh =
      let (next, e, names_next) = rpc.registers m name method (has name ∙ fresh) in
      (next, rw e, λ k. names_next k ∙ rw (add_name, has k))

  alias-Has :
      (m : rpc.RpcModule) (names : List (String × Method)) (alias name : String) (method : Method)
      → Has m names
      → method_named names name ≡ some method
      → method_named names alias ≡ none
      → (next : rpc.RpcModule) × (starts rpc (rpc.register_alias m alias name) ≡ ok next)
        × Has next ((alias, method) ∷ names)
  unfolding method_named
  alias-Has m names alias name method has known fresh =
      let (next, e, names_next) =
        rpc.aliases m alias name method (has name ∙ known) (has alias ∙ fresh) in
      (next, rw e, λ k. names_next k ∙ rw (add_name, has k))

  -- The method that a GET of a path reaches in a module.
  abbrev pub reached : rpc.RpcModule → String → Option Method
  reached m path = elim (proxy proxied path) [ none ↦ none | some name ↦ rpc.methods m name ]

  -- The module of methods is always built: no name is registered twice, and every alias stands for a
  -- name that is there. It answers the three methods and the schema by their names and aliases, and no
  -- other name. A GET of /readiness and of /liveness reaches its method, a GET of /health reaches none.
  pub build-answers :
      (m : rpc.RpcModule) × (build rpc ≡ ok m)
      × ((name : String) → rpc.methods m name ≡ method_named server_methods name)
      × (reached m "/readiness" ≡ some readiness)
      × (reached m "/liveness" ≡ some liveness)
      × (reached m "/health" ≡ none)
  unfolding build method_named proxy String-discrete
  build-answers =
      let (m1, e1, h1) = register-Has rpc.empty [] "liveness" liveness rpc.methods-empty refl in
      let n1 : List (String × Method) = ("liveness", liveness) ∷ [] in
      let (m2, e2, h2) = register-Has m1 n1 "readiness" readiness h1 refl in
      let n2 : List (String × Method) = ("readiness", readiness) ∷ n1 in
      let (m3, e3, h3) =
        register-Has m2 n2 "get_transactions_by_address" get_transactions_by_address h2 refl in
      let n3 : List (String × Method) =
        ("get_transactions_by_address", get_transactions_by_address) ∷ n2 in
      let (m4, e4, h4) =
        alias-Has m3 n3 "getTransactionsByAddress" "get_transactions_by_address"
          get_transactions_by_address h3 refl refl in
      let n4 : List (String × Method) =
        ("getTransactionsByAddress", get_transactions_by_address) ∷ n3 in
      let (m5, e5, h5) = register-Has m4 n4 "schema" schema h4 refl in
      let n5 : List (String × Method) = ("schema", schema) ∷ n4 in
      let (m6, e6, h6) = alias-Has m5 n5 "api_schema" "schema" schema h5 refl refl in
      let n6 : List (String × Method) = ("api_schema", schema) ∷ n5 in
      let (m7, e7, h7) = alias-Has m6 n6 "apiSchema" "schema" schema h6 refl refl in
      (m7, rw (build, e1, e2, e3, e4, e5, e6) e7, h7, h7 "readiness", h7 "liveness", h7 "healthz")
