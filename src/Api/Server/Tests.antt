-- ===== src/Api/Server/Tests.antt =====
-- A module of methods as a function of their names.
use itihas.Api.Server.{Method, RpcModules, add_name, build, liveness, readiness}
use itihas.Api.Server.Routes.{build-answers, method_named, reached, server_methods}
use itihas.Prelude.{Option, Result, String, err, none, ok, refl, some, ◌≡◌}

abbrev pub Names : Type 0
Names = String → Option Method

abbrev pub register : Names → String → Method → Result String Names
register names name method = elim (names name) [
  | none ↦ ok (add_name name method names)
  | some _ ↦ err "the name is taken"
]

abbrev pub alias : Names → String → String → Result String Names
alias names new name = elim (names name) [
  | none ↦ err "no such method"
  | some method ↦ register names new method
]

pub registers :
    (names : Names) (name : String) (method : Method)
    → names name ≡ none
    → (next : Names) × (register names name method ≡ ok next)
      × ((k : String) → next k ≡ add_name name method names k)
registers names name method fresh = (add_name name method names, rw (register, fresh), λ k. refl)

pub aliases :
    (names : Names) (new name : String) (method : Method)
    → names name ≡ some method
    → names new ≡ none
    → (next : Names) × (alias names new name ≡ ok next)
      × ((k : String) → next k ≡ add_name new method names k)
aliases names new name method known fresh =
    (add_name new method names, rw (alias, register, known, fresh), λ k. refl)

abbrev pub modules : RpcModules
modules = record {
  RpcModule = Names;
  empty = λ k. none;
  methods = λ names. names;
  register_async_method = register;
  register_alias = alias;
  methods-empty = λ k. refl;
  registers = registers;
  aliases = aliases;
}

build-answers_example :
    (m : Names) × (build modules ≡ ok m)
    × ((name : String) → m name ≡ method_named server_methods name)
    × (reached modules m "/readiness" ≡ some readiness)
    × (reached modules m "/liveness" ≡ some liveness)
    × (reached modules m "/health" ≡ none)
build-answers_example = build-answers modules
