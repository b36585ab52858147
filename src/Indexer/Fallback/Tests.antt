-- ===== src/Indexer/Fallback/Tests.antt =====
-- A stream that has indexed slot 4 and receives blocks by gRPC.
use mathlib.Core.List.Permᴰ
use itihas.Indexer.Fallback.{
  Choice, Event, Polling, State, get_grpc_stream_with_rpc_fallback, grpc_block, handed_out, left,
  right, rpc_block, rpc_end,
}
use itihas.Indexer.Fallback.CatchUp.{
  ends, get_grpc_stream_with_rpc_fallback-catches_up, passes, polls,
}
use itihas.Indexer.Fallback.Chain.{Chains, get_grpc_stream_with_rpc_fallback-Chains}
use itihas.Indexer.Poller.{Standing, ended, first_slot, get_poller_block_stream}
use itihas.Indexer.Proto.{SubscribeUpdateBlock}
use itihas.Indexer.Sdk.{Sdk}
use itihas.Indexer.Types.{BlockInfo, IndexerError, parser_error}
use itihas.Prelude.{
  consecutive, panic, ◌≢◌, false, List, Result, [], arith, err, if◌then◌else◌, inl, none, ok, pos,
  refl, some, ℕ, ◌-◌, ◌==◌, ◌≡◌, ◌∷◌,
}

abbrev child : ℕ → ℕ → BlockInfo
child parent slot = record {
  metadata = record {
    slot = slot;
    parent_slot = parent;
    block_time = pos 100;
    blockhash = "b";
    parent_blockhash = "a";
    block_height = 5;
  };
  transactions = [];
}

abbrev at : ℕ → State
at last = record { last_indexed_slot = last; rpc_poll_stream = none }

-- A block by gRPC, one that is not its child, the blocks between by RPC, and the next by gRPC.
abbrev events : List Event
events =
    grpc_block (child 4 5)
    ∷ grpc_block (child 7 8)
    ∷ rpc_block (child 5 7)
    ∷ rpc_block (child 7 8)
    ∷ rpc_end
    ∷ grpc_block (child 8 9)
    ∷ []

abbrev yielded : List BlockInfo
yielded = child 4 5 ∷ child 5 7 ∷ child 7 8 ∷ child 8 9 ∷ []

get_grpc_stream_with_rpc_fallback-Chains_example : Chains 4 yielded × ((at 9).last_indexed_slot ≡ 9)
unfolding get_grpc_stream_with_rpc_fallback
get_grpc_stream_with_rpc_fallback-Chains_example =
    get_grpc_stream_with_rpc_fallback-Chains (at 4) events {final = at 9} {blocks = yielded} refl

-- Slot 6 was skipped.
abbrev fetch : ℕ → Result IndexerError BlockInfo
fetch slot =
    if slot == 6
    then err (parser_error "skipped")
    else ok (child (if slot == 7 then 5 else slot - 1) slot)

fetch_slot : (slot : ℕ) (b : BlockInfo) → fetch slot ≡ ok b → b.metadata.slot ≡ slot
fetch_slot slot b h = ground arith

abbrev keep_order : List ℕ → List ℕ
keep_order slots = slots

-- The items of the poll stream, and one block by gRPC in between.
abbrev meanwhile : List Choice
meanwhile = right ∷ left (child 8 9) ∷ right ∷ right ∷ right ∷ []

abbrev poll : Polling → List BlockInfo × Standing
poll polling =
    get_poller_block_stream fetch keep_order 2 9 polling.from (some polling.end_block_slot) 20 []

calm : (slot : ℕ) → fetch slot ≢ panic
calm slot = ground arith

get_grpc_stream_with_rpc_fallback-catches_up_example :
    get_grpc_stream_with_rpc_fallback false
      (at 4)
      (handed_out false poll (at 4) ([], ended) (left (child 7 8) ∷ meanwhile))
    ≡ ok (at 8, child 4 5 ∷ child 5 7 ∷ child 7 8 ∷ [])
unfolding first_slot consecutive
get_grpc_stream_with_rpc_fallback-catches_up_example =
    get_grpc_stream_with_rpc_fallback-catches_up fetch fetch_slot keep_order
      (λ slots. Permᴰ.refl slots) 2 9 4 20 [] (child 7 8) meanwhile (omega arith) (omega arith)
      (λ slot low high. calm slot) (λ e. omega arith) (λ e. omega arith) (refl, (refl, (refl, tt)))
      (polls (passes (child 8 9) (λ e. omega arith) (polls (polls ends))))

-- No transaction is looked at, so no function of the crates is called.
abbrev pub no_sdk : Sdk ⊥
no_sdk = record {
  decode = λ e. none;
  pubkey_from_str = λ text. inl "none";
  pubkey_try_from = λ bytes. none;
  signature_try_from = λ bytes. none;
  find_program_address = λ seeds program. (program, 0);
  unpack = λ bytes. none;
  bs58_decode = λ text. inl "none";
  from_utf8 = λ bytes. none;
}

abbrev pub update : ℕ → SubscribeUpdateBlock
update slot = record {
  slot = slot;
  parent_slot = slot - 1;
  blockhash = "b";
  parent_blockhash = "a";
  block_time = some (pos 100);
  block_height = some 5;
  transactions = [];
}
