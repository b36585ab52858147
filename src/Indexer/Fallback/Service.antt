-- ===== src/Indexer/Fallback/Service.antt =====
-- The falling back stream of indexer/src/grpc.rs over the sessions of a gRPC service, from the messages
-- that are received on.
use itihas.Indexer.Fallback.{
  Event, Message, Session, block, connect_error, failure, get_grpc_block_stream, grpc_block,
  grpc_end, ping, pong, rpc_block, rpc_end, rpc_panic, session_blocks, subscribe_error, subscribed,
  unknown,
}
use itihas.Indexer.Fallback.Rising.{BringsNumbered, IsNumbered}
use itihas.Indexer.Parser.Grpc.{parse_block, parse_transaction}
use itihas.Indexer.Proto.{SubscribeUpdateBlock}
use itihas.Indexer.Sdk.{Sdk}
use itihas.Indexer.Types.{BlockInfo}
use itihas.Prelude.{
  >>=-eq-ok, All, All-append, All-append_left, List, Result-cases, [], ap, false, inl, inr, ok,
  ok-injective, refl, sym, traverse, true, unwrap, ◌++◌, ◌<◌, ◌≡◌, ◌∷◌,
}

-- A block of the service lies after its parent.
abbrev pub AfterParent : Message → Type 0
AfterParent (block b) = b.parent_slot < b.slot
AfterParent (ping sent) = Unit
AfterParent pong = Unit
AfterParent unknown = Unit
AfterParent failure = Unit

abbrev pub SendsAfterParents : Session → Type 0
SendsAfterParents connect_error = Unit
SendsAfterParents subscribe_error = Unit
SendsAfterParents (subscribed messages) = All AfterParent messages

-- The blocks of the gRPC items and of the RPC items among the events.
abbrev pub grpc_items : List Event → List BlockInfo
grpc_items [] = []
grpc_items (grpc_block b ∷ events) = b ∷ grpc_items events
grpc_items (grpc_end ∷ events) = grpc_items events
grpc_items (rpc_block b ∷ events) = grpc_items events
grpc_items (rpc_end ∷ events) = grpc_items events
grpc_items (rpc_panic ∷ events) = grpc_items events

abbrev pub rpc_items : List Event → List BlockInfo
rpc_items [] = []
rpc_items (grpc_block b ∷ events) = rpc_items events
rpc_items (grpc_end ∷ events) = rpc_items events
rpc_items (rpc_block b ∷ events) = b ∷ rpc_items events
rpc_items (rpc_end ∷ events) = rpc_items events
rpc_items (rpc_panic ∷ events) = rpc_items events

items-BringsNumbered :
    (events : List Event)
    → All IsNumbered (grpc_items events)
    → All (λ b. b.metadata.parent_slot < b.metadata.slot) (rpc_items events)
    → All BringsNumbered events
items-BringsNumbered [] g r = tt
items-BringsNumbered (grpc_block b ∷ events) g r = (g.0, items-BringsNumbered events g.1 r)
items-BringsNumbered (grpc_end ∷ events) g r = (tt, items-BringsNumbered events g r)
items-BringsNumbered (rpc_block b ∷ events) g r = (inl r.0, items-BringsNumbered events g r.1)
items-BringsNumbered (rpc_end ∷ events) g r = (tt, items-BringsNumbered events g r)
items-BringsNumbered (rpc_panic ∷ events) g r = (tt, items-BringsNumbered events g r)

module _ {E : Type 0} (sdk : Sdk E) where
  parse_block-slots :
      (b : SubscribeUpdateBlock) {parsed : BlockInfo}
      → parse_block sdk b ≡ ok parsed
      → (parsed.metadata.slot ≡ b.slot) × (parsed.metadata.parent_slot ≡ b.parent_slot)
  unfolding parse_block
  parse_block-slots b h =
      let (time, _, h1) = >>=-eq-ok (unwrap b.block_time) _ h in
      let (height, _, h2) = >>=-eq-ok (unwrap b.block_height) _ h1 in
      let (transactions, _, h3) =
        >>=-eq-ok (traverse (parse_transaction sdk b.slot time) b.transactions) _ h2 in
      let e = sym (ok-injective h3) in
      (ap (λ parsed. parsed.metadata.slot) e, ap (λ parsed. parsed.metadata.parent_slot) e)

  parsed-IsNumbered :
      (b : SubscribeUpdateBlock) {parsed : BlockInfo}
      → b.parent_slot < b.slot
      → parse_block sdk b ≡ ok parsed
      → IsNumbered parsed
  parsed-IsNumbered b after e =
      let (slot, parent) = parse_block-slots b e in inl (rw (slot, parent) after)

  session_blocks-IsNumbered :
      (messages : List Message) {bs : List BlockInfo}
      → All AfterParent messages
      → session_blocks sdk messages ≡ ok bs
      → All IsNumbered bs
  unfolding session_blocks
  session_blocks-IsNumbered [] a h = rw (← ok-injective h) tt
  session_blocks-IsNumbered (block b ∷ messages) a h = elim (Result-cases (parse_block sdk b)) [
    | inl (parsed, e) ↦
        let (later, e1, e2) =
          >>=-eq-ok (session_blocks sdk messages) _ (rw (session_blocks, e) at h) in
        rw (← ok-injective e2)
          (parsed-IsNumbered b a.0 e, session_blocks-IsNumbered messages a.1 e1)
    | inr (inl (error, e)) ↦ session_blocks-IsNumbered messages a.1 (rw (session_blocks, e) at h)
    | inr (inr e) ↦ cc (rw (session_blocks, e) at h)
  ]
  session_blocks-IsNumbered (ping true ∷ messages) a h = session_blocks-IsNumbered messages a.1 h
  session_blocks-IsNumbered (ping false ∷ messages) a h = rw (← ok-injective h) tt
  session_blocks-IsNumbered (pong ∷ messages) a h = session_blocks-IsNumbered messages a.1 h
  session_blocks-IsNumbered (unknown ∷ messages) a h = session_blocks-IsNumbered messages a.1 h
  session_blocks-IsNumbered (failure ∷ messages) a h = rw (← ok-injective h) tt

  sessions-IsNumbered :
      (sessions : List Session) {bs : List BlockInfo}
      → All SendsAfterParents sessions
      → get_grpc_block_stream sdk sessions ≡ ok bs
      → All IsNumbered bs
  unfolding get_grpc_block_stream
  sessions-IsNumbered [] a h = rw (← ok-injective h) tt
  sessions-IsNumbered (connect_error ∷ sessions) a h =
      let (later, e1, e2) = >>=-eq-ok (get_grpc_block_stream sdk sessions) _ h in
      rw (← ok-injective e2) (inr (refl, refl), sessions-IsNumbered sessions a.1 e1)
  sessions-IsNumbered (subscribe_error ∷ sessions) a h =
      let (later, e1, e2) = >>=-eq-ok (get_grpc_block_stream sdk sessions) _ h in
      rw (← ok-injective e2) (inr (refl, refl), sessions-IsNumbered sessions a.1 e1)
  sessions-IsNumbered (subscribed messages ∷ sessions) a h =
      let (now, e0, h0) = >>=-eq-ok (session_blocks sdk messages) _ h in
      let (later, e1, e2) = >>=-eq-ok (get_grpc_block_stream sdk sessions) _ h0 in
      rw (← ok-injective e2) (
        inr (refl, refl),
        All-append IsNumbered now later (session_blocks-IsNumbered messages a.0 e0)
            (sessions-IsNumbered sessions a.1 e1),
      )

  -- What a service sends after parents, and the polled blocks too, comes as such items.
  pub service-BringsNumbered :
      (sessions : List Session) (events : List Event) (rest : List BlockInfo)
      → All SendsAfterParents sessions
      → get_grpc_block_stream sdk sessions ≡ ok (grpc_items events ++ rest)
      → All (λ b. b.metadata.parent_slot < b.metadata.slot) (rpc_items events)
      → All BringsNumbered events
  service-BringsNumbered sessions events rest a h polled =
      items-BringsNumbered events
        (All-append_left IsNumbered (grpc_items events) rest (sessions-IsNumbered sessions a h))
        polled
