-- ===== src/Indexer/Fallback/Chain.antt =====
-- The order in which the falling back stream yields blocks.
use itihas.Indexer.Fallback.{
  Event, Polling, State, get_grpc_stream_with_rpc_fallback, grpc_block, grpc_end, rpc_block,
  rpc_end, rpc_panic, turn,
}
use itihas.Indexer.Types.{BlockInfo}
use itihas.Prelude.{
  >>=-eq-ok, List, Option, [], ap, arith, false, none, ok, ok-injective, refl, some, sym, ℕ, ◌++◌,
  ◌≡◌, ◌∙◌, ◌∷◌,
}

-- Each block is the child of the one before it, and the first that of the block of `slot`.
abbrev pub Chains : ℕ → List BlockInfo → Type 0
Chains slot [] = Unit
Chains slot (b ∷ bs) = (b.metadata.parent_slot ≡ slot) × Chains b.metadata.slot bs

abbrev pub last_slot : ℕ → List BlockInfo → ℕ
last_slot slot [] = slot
last_slot slot (b ∷ bs) = last_slot b.metadata.slot bs

pub Chains-append :
    (slot : ℕ) (bs cs : List BlockInfo)
    → Chains slot bs
    → Chains (last_slot slot bs) cs
    → Chains slot (bs ++ cs)
Chains-append slot [] cs h k = k
Chains-append slot (b ∷ bs) cs h k = (h.0, Chains-append b.metadata.slot bs cs h.1 k)

last_slot-append :
    (slot : ℕ) (bs cs : List BlockInfo)
    → last_slot slot (bs ++ cs) ≡ last_slot (last_slot slot bs) cs
last_slot-append slot [] cs = refl
last_slot-append slot (b ∷ bs) cs = last_slot-append b.metadata.slot bs cs

pub turn-Chains :
    (last : ℕ) (polls : Option Polling) (event : Event) {next : State} {blocks : List BlockInfo}
    → turn false last polls event ≡ ok (next, blocks)
    → Chains last blocks × (next.last_indexed_slot ≡ last_slot last blocks)
unfolding turn
turn-Chains last none (grpc_block b) h = ground arith
turn-Chains last (some polling) (grpc_block b) h = ground arith
turn-Chains last none grpc_end h = cc
turn-Chains last (some polling) grpc_end h = cc
turn-Chains last none (rpc_block b) h = ground arith
turn-Chains last (some polling) (rpc_block b) h = ground arith
turn-Chains last none rpc_end h = ground arith
turn-Chains last none rpc_panic h = ground arith
turn-Chains last (some polling) rpc_panic h = cc
turn-Chains last (some polling) rpc_end h = ground arith

-- Without `index_recent`, and in whatever order the items of the two streams come, the blocks that the
-- stream yields are a chain: each is the child of the one before it, the first that of the slot
-- indexed last, and the slot that is kept as the last indexed one is that of the last block.
pub get_grpc_stream_with_rpc_fallback-Chains :
    (state : State) (events : List Event) {final : State} {blocks : List BlockInfo}
    → get_grpc_stream_with_rpc_fallback false state events ≡ ok (final, blocks)
    → Chains state.last_indexed_slot blocks
      × (final.last_indexed_slot ≡ last_slot state.last_indexed_slot blocks)
unfolding get_grpc_stream_with_rpc_fallback
get_grpc_stream_with_rpc_fallback-Chains state [] h = ground arith
get_grpc_stream_with_rpc_fallback-Chains state (event ∷ events) h =
    let ((next, now), e, h1) =
      >>=-eq-ok (turn false state.last_indexed_slot state.rpc_poll_stream event) _ h in
    let ((last, later), e2, h2) =
      >>=-eq-ok (get_grpc_stream_with_rpc_fallback false next events) _ h1 in
    let (c, l) = turn-Chains state.last_indexed_slot state.rpc_poll_stream event e in
    let (d, m) = get_grpc_stream_with_rpc_fallback-Chains next events e2 in
    let both = ok-injective h2 in
    rw (← ap (λ y. y.0) both, ← ap (λ y. y.1) both)
      (
        Chains-append state.last_indexed_slot now later c (rw l at d),
        m
            ∙ ap (λ slot. last_slot slot later) l
            ∙ sym (last_slot-append state.last_indexed_slot now later),
      )
