-- ===== src/Indexer/Main/Genesis.antt =====
-- What the indexer of indexer/src/main.rs does from the first slot on, with the RPC poller.
use mathlib.Core.List.{Permᴰ}
use itihas.Indexer.Main.{
  BlockStreamConfig, IndexerConfig, get_database_url, get_rpc_url, index_by_polling, max_fetches,
  poller_streamer, start_indexer, unwrap_or_bool,
}
use itihas.Indexer.Poller.{ended, fetched, first_slot, kept, load_block_stream}
use itihas.Indexer.Poller.Stream.{IsCalm, get_poller_block_stream-finite}
use itihas.Indexer.Streamer.{advance, continously_index_new_blocks, panicked, send_blocks}
use itihas.Indexer.Types.{BlockInfo, IndexerError}
use itihas.Prelude.{
  consecutive, Bool, filter_map, Bool-cases, Result-cases, inl, inr, u64_mod, List, Option, Result,
  String, [], arith, false, leb, map, none, not, ok, refl, some, suc, true, zero, ℕ, ◌+◌, ◌-◌, ◌<◌,
  ◌≡◌, ◌∙◌, ◌∷◌,
}

-- The first block of a list, in a batch of its own, if there is one.
abbrev pub first_batch : List BlockInfo → List (List BlockInfo)
first_batch [] = []
first_batch (b ∷ bs) = (b ∷ []) ∷ []

-- Where a subtraction wraps around, the loop goes on whatever the slots are.
advance-wraps :
    (start to_backfill : ℕ) (finished : Bool) (slot : ℕ)
    → (next : Bool) × (advance false start to_backfill finished slot ≡ some next)
advance-wraps start to_backfill true slot = (true, refl)
advance-wraps start to_backfill false slot = elim (Bool-cases (leb start slot)) [
  | inl fits ↦ (not (leb (slot - start) to_backfill), rw (advance, fits))
  | inr below ↦ (not (leb (slot + u64_mod - start) to_backfill), rw (advance, below))
]

send_blocks-wrapping :
    (start to_backfill : ℕ) (finished : Bool) (blocks : List BlockInfo)
    → send_blocks false start to_backfill finished blocks ended
      ≡ (map (λ b. b ∷ []) blocks, panicked)
unfolding send_blocks
send_blocks-wrapping start to_backfill finished [] = refl
send_blocks-wrapping start to_backfill finished (b ∷ bs) =
    let (next, e) = advance-wraps start to_backfill finished b.metadata.slot in
    rw (send_blocks, e, send_blocks-wrapping start to_backfill next bs)

-- Where a subtraction panics, the first block that is older than the start ends the task.
send_blocks-older :
    (start : ℕ) (b : BlockInfo) (bs : List BlockInfo)
    → b.metadata.slot < start
    → send_blocks true start 0 false (b ∷ bs) ended ≡ ((b ∷ []) ∷ [], panicked)
unfolding send_blocks
send_blocks-older start b bs h =
    let older : leb start b.metadata.slot ≡ false = ground arith in rw (send_blocks, advance, older)

send_blocks-last :
    (b : BlockInfo)
    → send_blocks true b.metadata.slot 0 false (b ∷ []) ended ≡ ((b ∷ []) ∷ [], panicked)
unfolding send_blocks
send_blocks-last b =
    let same : leb b.metadata.slot b.metadata.slot ≡ true = ground arith in
    rw (send_blocks, advance, same) refl

module _ (fetch : ℕ → Result IndexerError BlockInfo)
    (fetch_slot : (slot : ℕ) (b : BlockInfo) → fetch slot ≡ ok b → b.metadata.slot ≡ slot) where
  fetched-some :
      (slot : ℕ) (slots : List ℕ) (b : BlockInfo)
      → kept (fetch slot) ≡ some b
      → fetched fetch (slot ∷ slots) ≡ b ∷ fetched fetch slots
  fetched-some slot slots b e = rw (fetched, filter_map, e)

  fetched-none :
      (slot : ℕ) (slots : List ℕ)
      → kept (fetch slot) ≡ none
      → fetched fetch (slot ∷ slots) ≡ fetched fetch slots
  fetched-none slot slots e = rw (fetched, filter_map, e)

  send_blocks-up_to :
      (count first current : ℕ)
      → first + count ≡ suc current
      → send_blocks true current 0 false (fetched fetch (consecutive count first)) ended
        ≡ (first_batch (fetched fetch (consecutive count first)), panicked)
  unfolding send_blocks consecutive
  send_blocks-up_to zero first current h = refl
  send_blocks-up_to (suc zero) first current h = elim (Result-cases (fetch first)) [
    | inl (b, e) ↦
        let here : current ≡ b.metadata.slot = omega (arith, h, fetch_slot first b e) in
        rw (fetched-some first [] b (rw e), here) (send_blocks-last b)
    | inr (inl (error, e)) ↦ rw (fetched-none first [] (rw e)) refl
    | inr (inr e) ↦ rw (fetched-none first [] (rw e)) refl
  ]
  send_blocks-up_to (suc (suc count)) first current h =
      let later = send_blocks-up_to (suc count) (suc first) current (omega (arith, h)) in
      let slots = consecutive (suc count) (suc first) in
      elim (Result-cases (fetch first)) [
        | inl (b, e) ↦
            rw (fetched-some first slots b (rw e))
              (send_blocks-older current b _ (omega (arith, h, fetch_slot first b e)))
        | inr (inl (error, e)) ↦ rw (fetched-none first slots (rw e)) later
        | inr (inr e) ↦ rw (fetched-none first slots (rw e)) later
      ]

module _ {Value : Type 0} (into_string : Value → Option String) (contains : String → String → Bool)
    (parent_slot : ℕ → Option ℕ) (config : IndexerConfig Value) where
  -- The configuration of the streamer of an indexer that starts at the first slot.
  abbrev pub genesis_config : String → BlockStreamConfig
  genesis_config rpc_url = record {
    grpc_url = none;
    grpc_x_token = config.grpc_x_token;
    max_concurrent_block_fetches = max_fetches into_string contains parent_slot config rpc_url;
    last_indexed_slot = 0;
    index_recent = unwrap_or_bool config.index_recent true;
  }

  start_indexer-genesis :
      {database_url rpc_url : String}
      → get_database_url into_string config ≡ ok database_url
      → get_rpc_url into_string config ≡ ok rpc_url
      → config.start_slot ≡ 0
      → config.grpc_url ≡ none
      → start_indexer into_string contains parent_slot config
        ≡ ok (poller_streamer (genesis_config rpc_url), 0)
  unfolding start_indexer
  start_indexer-genesis d r start no_grpc = rw (start_indexer, d, r, start, no_grpc)

  module _ (fetch : ℕ → Result IndexerError BlockInfo)
      (fetch_slot : (slot : ℕ) (b : BlockInfo) → fetch slot ≡ ok b → b.metadata.slot ≡ slot)
      (arrive : List ℕ → List ℕ) (arrives : (slots : List ℕ) → Permᴰ (arrive slots) slots) where
    index_by_polling-genesis :
        (checks : Bool) (fuel height : ℕ) (heights : List ℕ) (current : ℕ) (rpc_url : String)
        → 0 < max_fetches into_string contains parent_slot config rpc_url
        → suc current < fuel
        → IsCalm fetch 0 current
        → index_by_polling fetch arrive checks fuel height heights current
            (genesis_config rpc_url)
            0
          ≡ send_blocks checks current 0 false (fetched fetch (consecutive (suc current) 0)) ended
    unfolding index_by_polling continously_index_new_blocks load_block_stream first_slot
    index_by_polling-genesis checks fuel height heights current rpc_url room enough calm =
        let same : leb current current ≡ true = ground arith in
        let none_left : current - current ≡ 0 = omega arith in
        let stream =
          get_poller_block_stream-finite fetch fetch_slot arrive arrives
            (max_fetches into_string contains parent_slot config rpc_url) fuel 0 current height
            heights room (omega (arith, enough)) calm in
        let whole : suc current - 0 ≡ suc current = omega arith in
        rw (continously_index_new_blocks, same, none_left, stream, first_slot, whole) refl

    -- An indexer that is configured without a gRPC URL, with both other URLs and from slot 0 on, with a
    -- positive number of concurrent fetches and enough rounds, where no fetch of a slot from 0 to the
    -- current one panics, polls from slot 0 to the current slot,
    -- but counts its blocks from the current slot on, so that the first older block makes a subtraction
    -- go below 0. In a build with overflow checks it sends the first block that can be fetched, if
    -- there is one, and panics. In another it sends all of them, each in its own batch and in the order
    -- of the slots, and panics when the poller has reached the slot that was the current one at the
    -- start.
    pub start_indexer-from_genesis :
        (fuel height : ℕ) (heights : List ℕ) (current : ℕ) (database_url rpc_url : String)
        → get_database_url into_string config ≡ ok database_url
        → get_rpc_url into_string config ≡ ok rpc_url
        → config.start_slot ≡ 0
        → config.grpc_url ≡ none
        → 0 < max_fetches into_string contains parent_slot config rpc_url
        → suc current < fuel
        → IsCalm fetch 0 current
        → (streaming : BlockStreamConfig) × (start_indexer into_string contains parent_slot config
            ≡ ok (poller_streamer streaming, 0))
          × (index_by_polling fetch arrive true fuel height heights current streaming 0
              ≡ (first_batch (fetched fetch (consecutive (suc current) 0)), panicked))
          × (index_by_polling fetch arrive false fuel height heights current streaming 0
              ≡ (map (λ b. b ∷ []) (fetched fetch (consecutive (suc current) 0)), panicked))
    start_indexer-from_genesis fuel height heights current database_url rpc_url d r start no_grpc
          room enough calm =
        let polled = λ (checks : Bool).
          index_by_polling-genesis checks fuel height heights current rpc_url room enough calm in
        (
          genesis_config rpc_url,
          start_indexer-genesis d r start no_grpc,
          polled true ∙ send_blocks-up_to fetch fetch_slot (suc current) 0 current (omega arith),
          polled false ∙ send_blocks-wrapping current 0 false _,
        )
