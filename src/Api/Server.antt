-- ===== src/Api/Server.antt =====
-- api/src/builder.rs, api/src/config.rs, the probes of api/src/spec/api_impl.rs, and the routes of
-- api/src/main.rs. The module of methods and the database are those of other crates.
pub mod Routes
pub mod Tests
use mathlib.Core.Logic.{ite}
use itihas.Api.{ApiError, database_error, server_start_error}
use itihas.Prelude.{
  List, Option, Result, String, String-discrete, [], err, none, ok, panic, some, text_append,
  unwrap, ℕ, ◌>>=◌, ◌≡◌, ◌∷◌,
}

-- The methods of `ApiContract`.
pub data Method : Type 0 where
  liveness readiness get_transactions_by_address schema : Method

-- The names of a module with a name more.
abbrev pub add_name : String → Method → (String → Option Method) → String → Option Method
add_name name method methods k = ite (String-discrete k name) (some method) (methods k)

-- `RpcModule`: a name is registered that is not taken, and an alias also needs the name that it
-- stands for.
pub record RpcModules : Type 1 where
  pub RpcModule : Type 0
  pub empty : RpcModule
  pub methods : RpcModule → String → Option Method
  pub register_async_method : RpcModule → String → Method → Result String RpcModule
  pub register_alias : RpcModule → String → String → Result String RpcModule
  pub methods-empty : (k : String) → methods empty k ≡ none
  pub registers :
      (rpc : RpcModule) (name : String) (method : Method)
      → methods rpc name ≡ none
      → (next : RpcModule) × (register_async_method rpc name method ≡ ok next)
        × ((k : String) → methods next k ≡ add_name name method (methods rpc) k)
  pub aliases :
      (rpc : RpcModule) (alias name : String) (method : Method)
      → methods rpc name ≡ some method
      → methods rpc alias ≡ none
      → (next : RpcModule) × (register_alias rpc alias name ≡ ok next)
        × ((k : String) → methods next k ≡ add_name alias method (methods rpc) k)

module _ (rpc : RpcModules) where
  -- `?` turns an error of the module into a `ServerStartError`.
  abbrev pub starts : Result String rpc.RpcModule → Result ApiError rpc.RpcModule
  starts (ok next) = ok next
  starts (err text) = err (server_start_error text)
  starts panic = panic

  -- `RpcApiBuilder::build`
  unfoldable pub build : Result ApiError rpc.RpcModule
  build = do
    m1 ← starts (rpc.register_async_method rpc.empty "liveness" liveness)
    m2 ← starts (rpc.register_async_method m1 "readiness" readiness)
    m3 ←
        starts
          (rpc.register_async_method m2 "get_transactions_by_address" get_transactions_by_address)
    m4 ← starts (rpc.register_alias m3 "getTransactionsByAddress" "get_transactions_by_address")
    m5 ← starts (rpc.register_async_method m4 "schema" schema)
    m6 ← starts (rpc.register_alias m5 "api_schema" "schema")
    starts (rpc.register_alias m6 "apiSchema" "schema")

-- The paths that are proxied to a method, from the outermost layer on.
abbrev pub proxied : List (String × String)
proxied = ("/readiness", "readiness") ∷ ("/liveness", "liveness") ∷ ("/health", "healthz") ∷ []

-- The method that a GET of a path calls.
unfoldable pub proxy : List (String × String) → String → Option String
proxy [] path = none
proxy ((from, method) ∷ layers) path =
    ite (String-discrete path from) (some method) (proxy layers path)

-- The probes; `readiness` runs `SELECT 1`, which may fail with an error's text.
abbrev pub check_liveness : Result ApiError (Unit {0})
check_liveness = ok tt

abbrev pub check_readiness : (String → Option String) → Result ApiError (Unit {0})
check_readiness execute = elim (execute "SELECT 1") [
  | none ↦ ok tt
  | some text ↦ err (database_error (text_append "DatabaseError: " text))
]

pub record ApiConfig (Value : Type 0) : Type 0 where
  pub database_config : String → Option Value
  pub env : Option String
  pub metrics_port : Option ℕ
  pub metrics_host : Option String
  pub server_port : ℕ
  pub max_connections : ℕ

abbrev pub default_max_connections : ℕ
default_max_connections = 100

abbrev pub default_server_port : ℕ
default_server_port = 4040

-- A missing text is an error that is unwrapped.
abbrev pub get_database_url :
    {Value : Type 0} → (Value → Option String) → ApiConfig Value → Result ApiError String
get_database_url into_string config =
    unwrap (elim (config.database_config "url") [ none ↦ none | some u ↦ into_string u ])
