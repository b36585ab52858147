-- ===== src/Indexer/Fallback/CatchUp.antt =====
-- How the falling back stream catches up by RPC with a gRPC block that is not the next one.
use mathlib.Core.List.{Permᴰ}
use itihas.Indexer.Fallback.{
  Choice, Polling, State, get_grpc_stream_with_rpc_fallback, grpc_block, handed_out, left, right,
  turn,
}
use itihas.Indexer.Fallback.Chain.{Chains, last_slot}
use itihas.Indexer.Poller.{Standing, ended, fetched, first_slot, get_poller_block_stream}
use itihas.Indexer.Poller.Stream.{IsCalm, get_poller_block_stream-finite}
use itihas.Indexer.Types.{BlockInfo, IndexerError}
use itihas.Prelude.{
  consecutive, Bool-cases, inl, inr, if◌then◌else◌, filter_map, ==_iff, List, Result, [], arith,
  false, map, none, ok, refl, some, suc, true, ℕ, ◌-◌, ◌<◌, ◌==◌, ◌≡◌, ◌≢◌, ◌∷◌,
}

-- So many items of the poll stream as there are blocks, its end, and between them gRPC blocks that are
-- not the child of the last indexed one at the time they come.
pub data Meanwhile : ℕ → List BlockInfo → List Choice → Type 0 where
  ends : {last : ℕ} → Meanwhile last [] (right ∷ [])
  polls :
      {last : ℕ} {b : BlockInfo} {bs : List BlockInfo} {choices : List Choice}
      → Meanwhile b.metadata.slot bs choices
      → Meanwhile last (b ∷ bs) (right ∷ choices)
  passes :
      {last : ℕ} {bs : List BlockInfo} {choices : List Choice} (c : BlockInfo)
      → c.metadata.parent_slot ≢ last
      → Meanwhile last bs choices
      → Meanwhile last bs (left c ∷ choices)

abbrev polling_state : ℕ → Polling → State
polling_state last polling = record { last_indexed_slot = last; rpc_poll_stream = some polling }

Meanwhile-yielded :
    (poll : Polling → List BlockInfo × Standing) (last : ℕ) (polling : Polling)
    {bs : List BlockInfo} {choices : List Choice}
    → Chains last bs
    → Meanwhile last bs choices
    → get_grpc_stream_with_rpc_fallback false
        (polling_state last polling)
        (handed_out false poll (polling_state last polling) (bs, ended) choices)
      ≡ ok (record { last_indexed_slot = last_slot last bs; rpc_poll_stream = none }, bs)
unfolding get_grpc_stream_with_rpc_fallback turn handed_out
Meanwhile-yielded poll last polling h ends = refl
Meanwhile-yielded poll last polling h (polls {b = b} {bs = bs} {choices = choices} m) =
    let ih = Meanwhile-yielded poll b.metadata.slot polling {bs = bs} {choices = choices} h.1 m in
    let child = (==_iff b.metadata.parent_slot last).1 h.0 in rw (child, ih)
Meanwhile-yielded poll last polling h (passes {bs = bs} {choices = choices} c orphan m) =
    let ih = Meanwhile-yielded poll last polling {bs = bs} {choices = choices} h m in
    let not_child : (c.metadata.parent_slot == last) ≡ false = ground arith in rw (not_child, ih)

module _ (fetch : ℕ → Result IndexerError BlockInfo) where
  -- The blocks that can be fetched of the slots after the last indexed one, up to an end slot.
  abbrev pub missed : ℕ → ℕ → List BlockInfo
  missed last end_block_slot =
      fetched fetch (consecutive (suc end_block_slot - first_slot last) (first_slot last))

  -- When a gRPC block with a slot other than 0 is not the child of the last indexed one, the stream
  -- does not yield it, and polls from the slot after the last indexed one to the block's: where no
  -- fetch of these slots panics, the blocks that can be fetched of them are a chain from the last
  -- indexed one, and `select` takes so many items of the poll stream and its end, with gRPC blocks in
  -- between of which none is the child of the block indexed last by then, exactly the fetched blocks
  -- are yielded, in order, the last of them is the last indexed one, and the stream is back to waiting
  -- for gRPC blocks alone.
  pub get_grpc_stream_with_rpc_fallback-catches_up :
      (fetch_slot : (slot : ℕ) (b : BlockInfo) → fetch slot ≡ ok b → b.metadata.slot ≡ slot)
      (arrive : List ℕ → List ℕ) (arrives : (slots : List ℕ) → Permᴰ (arrive slots) slots)
      (room fuel last height : ℕ) (heights : List ℕ) (b : BlockInfo) (choices : List Choice)
      → 0 < room
      → suc b.metadata.slot - first_slot last < fuel
      → IsCalm fetch (first_slot last) b.metadata.slot
      → b.metadata.slot ≢ 0
      → b.metadata.parent_slot ≢ last
      → Chains last (missed last b.metadata.slot)
      → Meanwhile last (missed last b.metadata.slot) choices
      → get_grpc_stream_with_rpc_fallback false
          (record { last_indexed_slot = last; rpc_poll_stream = none })
          (handed_out false
            (λ polling.
              get_poller_block_stream fetch arrive room fuel polling.from
                (some polling.end_block_slot)
                height
                heights)
            (record { last_indexed_slot = last; rpc_poll_stream = none })
            ([], ended)
            (left b ∷ choices))
        ≡ ok (
          record {
            last_indexed_slot = last_slot last (missed last b.metadata.slot);
            rpc_poll_stream = none;
          },
          missed last b.metadata.slot,
        )
  unfolding get_grpc_stream_with_rpc_fallback turn handed_out
  get_grpc_stream_with_rpc_fallback-catches_up fetch_slot arrive arrives room fuel last height
        heights b choices r f calm nonzero orphan chain meanwhile =
      let stream =
        get_poller_block_stream-finite fetch fetch_slot arrive arrives room fuel last
          b.metadata.slot height heights r f calm in
      let poll = λ (polling : Polling).
        get_poller_block_stream fetch arrive room fuel polling.from (some polling.end_block_slot)
          height heights in
      let not_zero : (b.metadata.slot == 0) ≡ false = ground arith in
      let not_child : (b.metadata.parent_slot == last) ≡ false = ground arith in
      rw (
        not_zero,
        not_child,
        stream,
        Meanwhile-yielded poll last (record { from = last; end_block_slot = b.metadata.slot }) chain
            meanwhile,
      )

-- The blocks that are not the default one of an attempt to connect, which has slot 0.
abbrev pub received : List BlockInfo → List BlockInfo
received bs = filter_map (λ b. if b.metadata.slot == 0 then none else some b) bs

received-cons :
    (b : BlockInfo) (bs : List BlockInfo)
    → received (b ∷ bs) ≡ (if b.metadata.slot == 0 then received bs else b ∷ received bs)
received-cons b bs = ground arith

-- With `index_recent`, the stream yields every gRPC block whose slot is not 0, in the order in which
-- they come, whether or not they are a chain, and never polls.
get_grpc_stream_with_rpc_fallback-recent :
    (last : ℕ) (bs : List BlockInfo)
    → get_grpc_stream_with_rpc_fallback true
        (record { last_indexed_slot = last; rpc_poll_stream = none })
        (map grpc_block bs)
      ≡ ok (
        record { last_indexed_slot = last_slot last (received bs); rpc_poll_stream = none },
        received bs,
      )
unfolding get_grpc_stream_with_rpc_fallback turn
get_grpc_stream_with_rpc_fallback-recent last [] = refl
get_grpc_stream_with_rpc_fallback-recent last (b ∷ bs) = elim (Bool-cases (b.metadata.slot == 0)) [
  | inl default ↦ rw (received-cons b bs, default, get_grpc_stream_with_rpc_fallback-recent last bs)
  | inr real ↦ elim (Bool-cases (b.metadata.parent_slot == last)) [
    | inl child ↦ rw (
      received-cons b bs,
      real,
      child,
      get_grpc_stream_with_rpc_fallback-recent b.metadata.slot bs,
    )
    | inr orphan ↦ rw (
      received-cons b bs,
      real,
      orphan,
      get_grpc_stream_with_rpc_fallback-recent b.metadata.slot bs,
    )
  ]
]
