-- ===== src/Indexer/Streamer.antt =====
-- indexer/src/streamer.rs: the task that sends the blocks of a stream to the messenger.
-- A stream is the blocks that it yields and how it stands after them. The progress that is only
-- logged is left out, but not the subtractions on `u64` that it takes.
pub mod Sending
pub mod Tests
use itihas.Indexer.Poller.{Standing, ended, open_ended, unwound}
use itihas.Indexer.Types.{BlockInfo}
use itihas.Prelude.{
  Bool, List, Option, String, [], inl, inr, ◌⊎◌, false, if◌then◌else◌, leb, none, not, some, true,
  u64_mod, ℕ, ◌+◌, ◌-◌, ◌==◌, ◌∷◌,
}

-- What has become of the task: it awaits the stream, or it has panicked.
pub data Outcome : Type 0 where
  waiting : Outcome
  panicked : Outcome

-- `a - b` on `u64`: below 0 a build with overflow checks panics, any other wraps around.
abbrev pub sub_u64 : Bool → ℕ → ℕ → Option ℕ
sub_u64 overflow_checks a b =
    if leb b a then some (a - b) else if overflow_checks then none else some (a + u64_mod - b)

module _ (overflow_checks : Bool) where
  -- Whether the backfill is finished after a block, or a panic.
  abbrev pub advance : ℕ → ℕ → Bool → ℕ → Option Bool
  advance start to_backfill true slot = some true
  advance start to_backfill false slot = elim (sub_u64 overflow_checks slot start) [
    | none ↦ none
    | some blocks_indexed ↦ some (not (leb blocks_indexed to_backfill))
  ]

  -- The loop: the batches that it sends. `next().await.unwrap()` panics at the end of the stream,
  -- and a panic of the stream is one of the task.
  unfoldable pub send_blocks :
      ℕ → ℕ → Bool → List BlockInfo → Standing → List (List BlockInfo) × Outcome
  send_blocks start to_backfill finished [] ended = ([], panicked)
  send_blocks start to_backfill finished [] unwound = ([], panicked)
  send_blocks start to_backfill finished [] open_ended = ([], waiting)
  send_blocks start to_backfill finished (block ∷ blocks) standing =
      elim (advance start to_backfill finished block.metadata.slot) [
        | none ↦ ((block ∷ []) ∷ [], panicked)
        | some next_finished ↦
            let (batches, outcome) = send_blocks start to_backfill next_finished blocks standing in
            ((block ∷ []) ∷ batches, outcome)
      ]

  -- `load_block_stream` is the streamer's method.
  unfoldable pub continously_index_new_blocks :
      (ℕ → List BlockInfo × Standing) → ℕ → ℕ → List (List BlockInfo) × Outcome
  unfolding send_blocks
  continously_index_new_blocks load_block_stream current_slot last_indexed_slot_at_start =
      let start =
        if last_indexed_slot_at_start == 0 then current_slot else last_indexed_slot_at_start in
      elim (sub_u64 overflow_checks current_slot start) [
        | none ↦ ([], panicked)
        | some to_backfill ↦
            send_blocks start to_backfill false (load_block_stream start).0
              (load_block_stream start).1
      ]

-- The loops of `get_genesis_hash` and `fetch_current_slot`, over the node's answers: an error's text, or
-- the hash or slot; `none` while the answers do not suffice.
unfoldable pub get_genesis_hash : List (String ⊎ String) → Option String
get_genesis_hash [] = none
get_genesis_hash (inl error ∷ answers) = get_genesis_hash answers
get_genesis_hash (inr genesis_hash ∷ answers) = some genesis_hash

unfoldable pub fetch_current_slot : List (String ⊎ ℕ) → Option ℕ
fetch_current_slot [] = none
fetch_current_slot (inl error ∷ answers) = fetch_current_slot answers
fetch_current_slot (inr slot ∷ answers) = some slot
