-- ===== src/Indexer/Fallback.antt =====
-- indexer/src/grpc.rs: the stream of blocks by gRPC, and the stream that falls back to RPC polling
-- when a block is not the child of the last indexed one.
-- The gRPC service is given by its sessions, and the two streams of the fallback by the sequence of
-- the items that `select` hands out, in any interleaving.
pub mod Chain
pub mod CatchUp
pub mod Rising
pub mod Service
pub mod Sessions
pub mod Tests
use itihas.Indexer.Types.{BlockInfo, IndexerError, default_block}
use itihas.Indexer.Proto.{SubscribeUpdateBlock}
use itihas.Indexer.Sdk.{Sdk}
use itihas.Indexer.Parser.Grpc.{parse_block}
use itihas.Indexer.Poller.{Standing, ended, open_ended, unwound}
use itihas.Prelude.{
  Result, ok, panic, err, ◌>>=◌, true, false, Bool, List, Option, [], if◌then◌else◌, none, some, ℕ,
  ◌==◌, ◌||◌, ◌∷◌, ◌++◌,
}

-- What the loop of `get_grpc_stream_with_rpc_fallback` receives next.
pub data Event : Type 0 where
  grpc_block : BlockInfo → Event
  grpc_end : Event
  rpc_block : BlockInfo → Event
  rpc_end : Event
  rpc_panic : Event

-- Which of the two streams `select` takes an item of: the gRPC stream, whose item is given, or the
-- poll stream.
pub data Choice : Type 0 where
  left : BlockInfo → Choice
  right : Choice

-- The event of a choice, with the rest of the poll stream; `none` where that stream waits.
abbrev pub chosen : List BlockInfo × Standing → Choice → Option Event
chosen rest (left block) = some (grpc_block block)
chosen (block ∷ blocks, standing) right = some (rpc_block block)
chosen ([], ended) right = some rpc_end
chosen ([], open_ended) right = none
chosen ([], unwound) right = some rpc_panic

abbrev pub left_after : List BlockInfo × Standing → Choice → List BlockInfo × Standing
left_after rest (left block) = rest
left_after ([], standing) right = ([], standing)
left_after (block ∷ blocks, standing) right = (blocks, standing)

-- The arguments of `PollerStreamer::get_poller_block_stream`.
pub record Polling : Type 0 where
  pub from : ℕ
  pub end_block_slot : ℕ

-- The loop's variables.
pub record State : Type 0 where
  pub last_indexed_slot : ℕ
  pub rpc_poll_stream : Option Polling

abbrev pub Yield : Type 0
Yield = State × List BlockInfo

module _ (index_recent : Bool) where
  -- The condition under which a gRPC block is yielded.
  abbrev pub accepts : ℕ → BlockInfo → Bool
  accepts last_indexed_slot block =
      (block.metadata.parent_slot == last_indexed_slot) || index_recent

  -- The `None` arm: a block of the gRPC stream while nothing is polled.
  abbrev pub next_block : ℕ → BlockInfo → Yield
  next_block last_indexed_slot block =
      if block.metadata.slot == 0
      then (record { last_indexed_slot = last_indexed_slot; rpc_poll_stream = none }, [])
      else if accepts last_indexed_slot block
      then (record { last_indexed_slot = block.metadata.slot; rpc_poll_stream = none }, block ∷ [])
      else (
        record {
          last_indexed_slot = last_indexed_slot;
          rpc_poll_stream =
              some (record { from = last_indexed_slot; end_block_slot = block.metadata.slot });
        },
        [],
      )

  -- `Either::Left` of the `Some` arm: a gRPC block while blocks are polled.
  abbrev pub left_block : ℕ → Polling → BlockInfo → Yield
  left_block last_indexed_slot polling block =
      if accepts last_indexed_slot block
      then (record { last_indexed_slot = block.metadata.slot; rpc_poll_stream = none }, block ∷ [])
      else (record { last_indexed_slot = last_indexed_slot; rpc_poll_stream = some polling }, [])

  -- `Either::Right` of the `Some` arm: a polled block.
  abbrev pub right_block : ℕ → Polling → BlockInfo → Yield
  right_block last_indexed_slot polling block =
      if block.metadata.parent_slot == last_indexed_slot
      then (
        record { last_indexed_slot = block.metadata.slot; rpc_poll_stream = some polling },
        block ∷ [],
      )
      else (record { last_indexed_slot = last_indexed_slot; rpc_poll_stream = some polling }, [])

  -- One turn of the loop. The end of the gRPC stream is a panic, and so is one of the poll stream. While nothing is polled,
  -- no item of a poll stream is awaited, and such an event leaves all as it is.
  unfoldable pub turn : ℕ → Option Polling → Event → Result IndexerError Yield
  turn last none (grpc_block block) = ok (next_block last block)
  turn last (some polling) (grpc_block block) = ok (left_block last polling block)
  turn last polls grpc_end = panic
  turn last none (rpc_block block) =
      ok (record { last_indexed_slot = last; rpc_poll_stream = none }, [])
  turn last (some polling) (rpc_block block) = ok (right_block last polling block)
  turn last none rpc_panic = ok (record { last_indexed_slot = last; rpc_poll_stream = none }, [])
  turn last (some polling) rpc_panic = panic
  turn last polls rpc_end = ok (record { last_indexed_slot = last; rpc_poll_stream = none }, [])

  -- The loop over a sequence of events, and the blocks that it yields.
  unfoldable pub get_grpc_stream_with_rpc_fallback : State → List Event → Result IndexerError Yield
  unfolding turn
  get_grpc_stream_with_rpc_fallback state [] = ok (state, [])
  get_grpc_stream_with_rpc_fallback state (event ∷ events) = do
    (next, blocks) ← turn state.last_indexed_slot state.rpc_poll_stream event
    (final, later) ← get_grpc_stream_with_rpc_fallback next events
    ok (final, blocks ++ later)

  module _ (poll : Polling → List BlockInfo × Standing) where
    -- The rest of the poll stream after a turn: that of the stream that the turn has begun, with the
    -- arguments that it is given; what is left of the one before; or nothing.
    abbrev pub poll_after :
        Option Polling → Option Polling → List BlockInfo × Standing → List BlockInfo × Standing
    poll_after none (some begun) rest = poll begun
    poll_after (some polling) (some same) rest = rest
    poll_after polls none rest = ([], ended)

    -- The events that `select` hands out, by its choices, where the polled ones are those of the poll
    -- stream that the loop has begun.
    unfoldable pub handed_out : State → List BlockInfo × Standing → List Choice → List Event
    unfolding turn
    handed_out state rest [] = []
    handed_out state rest (choice ∷ choices) = elim (chosen rest choice) [
      | none ↦ []
      | some event ↦ event ∷ elim (turn state.last_indexed_slot state.rpc_poll_stream event) [
        | ok (next, blocks) ↦
            handed_out next
              (poll_after state.rpc_poll_stream next.rpc_poll_stream (left_after rest choice))
              choices
        | err e ↦ []
        | panic ↦ []
      ]
    ]

  -- The stream as it is awaited: the blocks that it yields until the events are used up, or until a
  -- panic, with which the stream and the task that awaits it end.
  unfoldable pub fallback_blocks : State → List Event → List BlockInfo × Standing
  unfolding turn
  fallback_blocks state [] = ([], open_ended)
  fallback_blocks state (event ∷ events) =
      elim (turn state.last_indexed_slot state.rpc_poll_stream event) [
        | ok (next, blocks) ↦
            let (later, standing) = fallback_blocks next events in (blocks ++ later, standing)
        | err e ↦ ([], unwound)
        | panic ↦ ([], unwound)
      ]

  -- `GrpcStreamer::load_block_stream`, which ignores its argument: the slot is the configuration's.
  unfoldable pub grpc_load_block_stream : ℕ → List Event → ℕ → List BlockInfo × Standing
  unfolding fallback_blocks
  grpc_load_block_stream last_indexed_slot events latest_slot =
      fallback_blocks (record { last_indexed_slot = last_indexed_slot; rpc_poll_stream = none })
        events

-- A message of a subscription: a block, a ping with what sending the answer comes to, a pong, an
-- update of another kind, or an error of the subscription.
pub data Message : Type 0 where
  block : SubscribeUpdateBlock → Message
  ping : (sent : Bool) → Message
  pong : Message
  unknown : Message
  failure : Message

-- One turn of the outer loop of `get_grpc_block_stream`: a failure to connect or to subscribe, or the
-- messages of a subscription up to its end.
pub data Session : Type 0 where
  connect_error : Session
  subscribe_error : Session
  subscribed : List Message → Session

module _ {E : Type 0} (sdk : Sdk E) where
  -- The inner loop, which a failed answer to a ping and an error leave.
  unfoldable pub session_blocks : List Message → Result IndexerError (List BlockInfo)
  session_blocks [] = ok []
  session_blocks (block b ∷ messages) = elim (parse_block sdk b) [
    | ok parsed ↦ do later ← session_blocks messages; ok (parsed ∷ later)
    | err e ↦ session_blocks messages
    | panic ↦ panic
  ]
  session_blocks (ping true ∷ messages) = session_blocks messages
  session_blocks (ping false ∷ messages) = ok []
  session_blocks (pong ∷ messages) = session_blocks messages
  session_blocks (unknown ∷ messages) = session_blocks messages
  session_blocks (failure ∷ messages) = ok []

  -- The stream yields a default block before every attempt to connect.
  unfoldable pub get_grpc_block_stream : List Session → Result IndexerError (List BlockInfo)
  unfolding session_blocks
  get_grpc_block_stream [] = ok []
  get_grpc_block_stream (connect_error ∷ sessions) = do
    later ← get_grpc_block_stream sessions
    ok (default_block ∷ later)
  get_grpc_block_stream (subscribe_error ∷ sessions) = do
    later ← get_grpc_block_stream sessions
    ok (default_block ∷ later)
  get_grpc_block_stream (subscribed messages ∷ sessions) = do
    blocks ← session_blocks messages
    later ← get_grpc_block_stream sessions
    ok (default_block ∷ (blocks ++ later))
