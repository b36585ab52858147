-- ===== src/Indexer/Fallback/Rising.antt =====
-- The slots of the blocks that the falling back stream of indexer/src/grpc.rs yields.
use itihas.Indexer.Fallback.{
  Event, Polling, State, fallback_blocks, grpc_block, grpc_end, rpc_block, rpc_end, rpc_panic, turn,
}
use itihas.Indexer.Fallback.Chain.{Chains, Chains-append, last_slot, turn-Chains}
use itihas.Indexer.Types.{BlockInfo}
use itihas.Prelude.{
  All, All-append, All-map, List, Option, Result-cases, [], arith, false, inl, inr, none, ok, some,
  ℕ, ◌++◌, ◌<◌, ◌≡◌, ◌≤◌, ◌⊎◌, ◌∷◌,
}

-- A block that lies after its parent, or the one that stands for an attempt to connect.
abbrev pub IsNumbered : BlockInfo → Type 0
IsNumbered b =
    (b.metadata.parent_slot < b.metadata.slot)
    ⊎ (b.metadata.slot ≡ 0) × (b.metadata.parent_slot ≡ 0)

-- An item with such a block, if it has one.
abbrev pub BringsNumbered : Event → Type 0
BringsNumbered (grpc_block b) = IsNumbered b
BringsNumbered grpc_end = Unit
BringsNumbered (rpc_block b) = IsNumbered b
BringsNumbered rpc_end = Unit
BringsNumbered rpc_panic = Unit

turn-rises :
    (last : ℕ) (polls : Option Polling) (event : Event) {next : State} {blocks : List BlockInfo}
    → 0 < last
    → BringsNumbered event
    → turn false last polls event ≡ ok (next, blocks)
    → (last ≤ next.last_indexed_slot) × All (λ b. last < b.metadata.slot) blocks
unfolding turn
turn-rises last none (grpc_block b) positive n h = ground arith
turn-rises last (some polling) (grpc_block b) positive n h = ground arith
turn-rises last none grpc_end positive n h = cc
turn-rises last (some polling) grpc_end positive n h = cc
turn-rises last none (rpc_block b) positive n h = ground arith
turn-rises last (some polling) (rpc_block b) positive n h = ground arith
turn-rises last none rpc_end positive n h = ground arith
turn-rises last none rpc_panic positive n h = ground arith
turn-rises last (some polling) rpc_panic positive n h = cc
turn-rises last (some polling) rpc_end positive n h = ground arith

-- A chain from a slot on, of blocks that lie after it.
abbrev RisesFrom : ℕ → List BlockInfo → Type 0
RisesFrom slot bs = Chains slot bs × All (λ b. slot < b.metadata.slot) bs

RisesFrom-append :
    (slot next : ℕ) (bs cs : List BlockInfo)
    → slot ≤ next
    → next ≡ last_slot slot bs
    → RisesFrom slot bs
    → RisesFrom next cs
    → RisesFrom slot (bs ++ cs)
RisesFrom-append slot next bs cs h stands rises later = (
  Chains-append slot bs cs rises.0 (rw⁻¹ stands later.0),
  All-append (λ b. slot < b.metadata.slot) bs cs rises.1
      (All-map (λ b after. omega (arith, h, after)) cs later.1),
)

-- Without `index_recent`, from an indexed slot other than 0 on, and where every block that comes by
-- gRPC or by RPC lies after its parent or is the default one of an attempt to connect: whatever the
-- order of the items, and whether or not the stream panics, the blocks that it yields are a chain from
-- that slot on, and each lies after it, so that no default block is among them.
pub fallback_blocks-rises :
    (state : State) (events : List Event)
    → 0 < state.last_indexed_slot
    → All BringsNumbered events
    → Chains state.last_indexed_slot (fallback_blocks false state events).0
      × All (λ b. state.last_indexed_slot < b.metadata.slot) (fallback_blocks false state events).0
unfolding fallback_blocks
fallback_blocks-rises state [] positive numbered = (tt, tt)
fallback_blocks-rises state (event ∷ events) positive numbered =
    elim (Result-cases (turn false state.last_indexed_slot state.rpc_poll_stream event)) [
      | inl ((next, blocks), e) ↦
          let (chain, stands) = turn-Chains state.last_indexed_slot state.rpc_poll_stream event e in
          let (rises, later) =
            turn-rises state.last_indexed_slot state.rpc_poll_stream event positive numbered.0 e in
          let rest =
            fallback_blocks-rises next events (omega (arith, positive, rises)) numbered.1 in
          rw (fallback_blocks, e)
            (RisesFrom-append state.last_indexed_slot next.last_indexed_slot blocks _ rises stands
              (chain, later) rest)
      | inr (inl (error, e)) ↦ rw (fallback_blocks, e) (tt, tt)
      | inr (inr e) ↦ rw (fallback_blocks, e) (tt, tt)
    ]
