-- ===== src/Indexer/Poller.antt =====
-- indexer/src/poller.rs: fetching blocks by RPC, and the stream of blocks in batches.
-- The RPC client is given by its replies: those to the attempts at one block, and the heights that
-- `fetch_current_slot` returns. The requests of a batch complete in an order that `arrive` chooses.
pub mod Sorting
pub mod Slots
pub mod Stream
pub mod Unwinding
pub mod Replies
mod Tests
use itihas.Indexer.Parser.Rpc.Block.{parse_ui_confirmed_block}
use itihas.Indexer.Sdk.{Sdk, UiConfirmedBlock}
use itihas.Indexer.Types.{BlockInfo, IndexerError, parser_error}
use itihas.Prelude.{
  Bool, List, Option, Result, String, [], err, false, filter_map, if◌then◌else◌, is_some, leb,
  length, ltb, negsuc, none, not, ok, panic, pos, some, suc, true, unwrap_or, zero, ℕ, ℤ, ◌&&◌,
  ◌++◌, ◌+◌, ◌==◌, ◌||◌, ◌∷◌,
}

-- A reply to `get_block_with_config`: a block, an RPC response error with its code and text, or any
-- other error.
pub data Reply (E : Type 0) : Type 0 where
  block : UiConfirmedBlock E → Reply E
  response_error : ℤ → String → Reply E
  other_error : String → Reply E

-- `SKIPPED_BLOCK_ERRORS.contains(&code)`: -32007 and -32009.
abbrev pub is_skipped : ℤ → Bool
is_skipped (pos _) = false
is_skipped (negsuc n) = n == 32006 || n == 32008

module _ {E : Type 0} (sdk : Sdk E) (slot : ℕ) where
  -- The loop of `get_block`, over the replies to its attempts; `none` while it waits for another.
  unfoldable pub get_block : List (Reply E) → Option (Result IndexerError BlockInfo)
  get_block [] = none
  get_block (block b ∷ replies) = some (parse_ui_confirmed_block sdk b slot)
  get_block (response_error code text ∷ replies) =
      if is_skipped code then some (err (parser_error text)) else get_block replies
  get_block (other_error text ∷ replies) = get_block replies

-- `sort_by_key(|block| block.metadata.slot)`, a stable sort.
unfoldable pub insert_by_slot : BlockInfo → List BlockInfo → List BlockInfo
insert_by_slot b [] = b ∷ []
insert_by_slot b (c ∷ cs) =
    if leb b.metadata.slot c.metadata.slot then b ∷ c ∷ cs else c ∷ insert_by_slot b cs

unfoldable pub sort_by_slot : List BlockInfo → List BlockInfo
unfolding insert_by_slot
sort_by_slot [] = []
sort_by_slot (b ∷ bs) = insert_by_slot b (sort_by_slot bs)

-- How a stream stands after some rounds: it has ended, it goes on, or a panic has unwound it, and with
-- it the task that awaits it.
pub data Standing : Type 0 where
  ended : Standing
  open_ended : Standing
  unwound : Standing

-- `match last_indexed_slot { 0 => 0, last_indexed_slot => last_indexed_slot + 1 }`, for slots below the
-- greatest `u64`.
unfoldable pub first_slot : ℕ → ℕ
first_slot zero = 0
first_slot (suc last) = suc (suc last)

-- The loop that asks for the current slot while there is nothing to fetch; `none` while it waits.
unfoldable pub await_tip : ℕ → ℕ → List ℕ → Option (ℕ × List ℕ)
await_tip current_slot end_block_slot [] =
    if ltb end_block_slot current_slot then none else some (end_block_slot, [])
await_tip current_slot end_block_slot (height ∷ heights) =
    if ltb end_block_slot current_slot
    then await_tip current_slot height heights
    else some (end_block_slot, height ∷ heights)

-- The slots that the loop requests for one batch.
unfoldable pub batch_slots : ℕ → ℕ → ℕ → List ℕ
batch_slots zero current_slot end_block_slot = []
batch_slots (suc room) current_slot end_block_slot =
    if leb current_slot end_block_slot
    then current_slot ∷ batch_slots room (suc current_slot) end_block_slot
    else []

-- What `fetch` of each slot gives, without the errors: `into_iter().flatten()`. It is reached only if
-- no fetch of the batch has panicked.
abbrev pub kept : Result IndexerError BlockInfo → Option BlockInfo
kept (ok b) = some b
kept (err _) = none
kept panic = none

module _ (fetch : ℕ → Result IndexerError BlockInfo) where
  abbrev pub fetched : List ℕ → List BlockInfo
  fetched slots = filter_map (λ slot. kept (fetch slot)) slots

  -- Whether a fetch of these slots panics. The futures of a batch are polled by the stream itself, so
  -- that such a panic unwinds the stream before a block of the batch is yielded.
  unfoldable pub fetch_panics : List ℕ → Bool
  fetch_panics [] = false
  fetch_panics (slot ∷ slots) = elim (fetch slot) [
    | ok b ↦ fetch_panics slots
    | err e ↦ fetch_panics slots
    | panic ↦ true
  ]

  module _ (arrive : List ℕ → List ℕ) (max_concurrent_block_fetches : ℕ) where
    -- A batch's blocks: fetched as they arrive, and sorted.
    unfoldable pub batch : List ℕ → List BlockInfo
    unfolding sort_by_slot
    batch slots = sort_by_slot (fetched (arrive slots))

    -- The rounds of the stream's loop, on fuel: the blocks that it yields, and how it stands.
    unfoldable pub poll_rounds : ℕ → Bool → ℕ → ℕ → List ℕ → List BlockInfo × Standing
    unfolding batch batch_slots await_tip fetch_panics
    poll_rounds zero polls_forever current_slot end_block_slot heights = ([], open_ended)
    poll_rounds (suc fuel) polls_forever current_slot end_block_slot heights =
        elim (ltb end_block_slot current_slot && not polls_forever) [
          | true ↦ ([], ended)
          | false ↦ elim (await_tip current_slot end_block_slot heights) [
            | none ↦ ([], open_ended)
            | some (tip, rest) ↦
                let slots = batch_slots max_concurrent_block_fetches current_slot tip in
                let (blocks, standing) =
                  poll_rounds fuel polls_forever (current_slot + length slots) tip rest in
                elim (fetch_panics slots) [
                  | true ↦ ([], unwound)
                  | false ↦ (batch slots ++ blocks, standing)
                ]
          ]
        ]

    -- The first answer of `fetch_current_slot`, which is asked for in any case, is `height`.
    unfoldable pub get_poller_block_stream :
        ℕ → ℕ → Option ℕ → ℕ → List ℕ → List BlockInfo × Standing
    unfolding poll_rounds first_slot
    get_poller_block_stream fuel last_indexed_slot end_block_slot height heights =
        poll_rounds fuel (not (is_some end_block_slot)) (first_slot last_indexed_slot)
          (unwrap_or end_block_slot height) heights

    -- `PollerStreamer::load_block_stream`, with the slot of the streamer's configuration.
    unfoldable pub load_block_stream : ℕ → ℕ → ℕ → ℕ → List ℕ → List BlockInfo × Standing
    unfolding get_poller_block_stream
    load_block_stream fuel last_indexed_slot slot height heights =
        get_poller_block_stream fuel last_indexed_slot (some slot) height heights
