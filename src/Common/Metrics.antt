-- ===== src/Common/Metrics.antt =====
-- When `setup_metrics` of common/src/metrics.rs sets a client, sets none, and panics.
use itihas.Common.{Sockets, StatsdClient, setup_metrics, unwrap_or_text}
use itihas.Prelude.{Option, Result, String, arith, none, ok, panic, some, true, ℕ, ◌↔◌, ◌≡◌}

-- A socket and a sink for the host and port, which are both given, can be had.
abbrev pub Reachable : Sockets → Option String → Option ℕ → Type 0
Reachable sockets (some uri) (some port) =
    (sockets.bind ≡ true) × (sockets.set_nonblocking ≡ true) × (sockets.sink_from uri port ≡ true)
Reachable sockets _ _ = ⊥

-- Neither of them is given.
abbrev pub Unset : Option String → Option ℕ → Type 0
Unset none none = Unit {0}
Unset _ _ = ⊥

module _ {E : Type 0} (sockets : Sockets) (prefix : String) (env : Option String) where
  abbrev setup : Option String → Option ℕ → Result E (Option StatsdClient)
  setup uri port = setup_metrics sockets prefix uri port env

  -- Without a host and a port no client is set. The call panics exactly where one of them is given and
  -- the other is not, or both are and no socket or sink can be had; else the client is set that has both,
  -- the prefix, and the environment that is given or dev.
  pub setup_metrics-outcomes :
      (uri : Option String) (port : Option ℕ)
      → ((setup uri port ≡ ok none) ↔ Unset uri port)
        × ((setup uri port ≡ panic) ↔ (¬ Unset uri port × ¬ Reachable sockets uri port))
        × ((client : StatsdClient)
            → (setup uri port ≡ ok (some client)) ↔ (
                Reachable sockets uri port
                × (uri ≡ some client.host)
                × (port ≡ some client.port)
                × (client.prefix ≡ prefix)
                × (client.env ≡ unwrap_or_text env "dev")))
  unfolding setup_metrics
  setup_metrics-outcomes none none = (ground arith, ground arith, λ client. ground arith)
  setup_metrics-outcomes none (some port) = (ground arith, ground arith, λ client. ground arith)
  setup_metrics-outcomes (some uri) none = (ground arith, ground arith, λ client. ground arith)
  setup_metrics-outcomes (some uri) (some port) =
      (ground arith, ground arith, λ client. ground arith)
