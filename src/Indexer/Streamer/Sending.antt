-- ===== src/Indexer/Streamer/Sending.antt =====
-- Which blocks of a stream `continously_index_new_blocks` of indexer/src/streamer.rs sends.
use mathlib.Core.List.{Permᴰ}
use itihas.Indexer.Poller.{Standing, ended, load_block_stream, open_ended, unwound}
use itihas.Indexer.Poller.Stream.{load_block_stream-restarted}
use itihas.Indexer.Streamer.{
  Outcome, advance, continously_index_new_blocks, panicked, send_blocks, waiting,
}
use itihas.Indexer.Types.{BlockInfo, IndexerError}
use itihas.Prelude.{
  All, Bool, List, Result, [], arith, false, if◌then◌else◌, leb, map, not, ok, refl, some, true, ℕ,
  ◌-◌, ◌<◌, ◌==◌, ◌≡◌, ◌≤◌, ◌∷◌,
}

-- The task panics where the stream ends or panics, and waits where it does not.
abbrev pub outcome_of : Standing → Outcome
outcome_of ended = panicked
outcome_of open_ended = waiting
outcome_of unwound = panicked

advance-some :
    (checks : Bool) (start to_backfill : ℕ) (finished : Bool) (slot : ℕ)
    → start ≤ slot
    → (next : Bool) × (advance checks start to_backfill finished slot ≡ some next)
advance-some checks start to_backfill true slot h = (true, refl)
advance-some checks start to_backfill false slot h =
    let fits : leb start slot ≡ true = ground arith in
    (not (leb (slot - start) to_backfill), rw (advance, fits))

send_blocks-batches :
    (checks : Bool) (start to_backfill : ℕ) (finished : Bool) (blocks : List BlockInfo)
    (standing : Standing)
    → All (λ b. start ≤ b.metadata.slot) blocks
    → send_blocks checks start to_backfill finished blocks standing
      ≡ (map (λ b. b ∷ []) blocks, outcome_of standing)
unfolding send_blocks
send_blocks-batches checks start to_backfill finished [] ended h = refl
send_blocks-batches checks start to_backfill finished [] open_ended h = refl
send_blocks-batches checks start to_backfill finished [] unwound h = refl
send_blocks-batches checks start to_backfill finished (b ∷ bs) standing h =
    let (next, e) = advance-some checks start to_backfill finished b.metadata.slot h.0 in
    rw (send_blocks, e, send_blocks-batches checks start to_backfill next bs standing h.1)

-- If the start slot is neither 0 nor past the current slot, and no block of the stream lies before
-- it, then the task sends every block of the stream, each in a batch of its own and in the order of
-- the stream, and no arithmetic overflows; when the stream ends or panics, the task panics.
pub continously_index_new_blocks-sends :
    (checks : Bool) (stream : ℕ → List BlockInfo × Standing) (current_slot start : ℕ)
    → 0 < start
    → start ≤ current_slot
    → All (λ b. start ≤ b.metadata.slot) (stream start).0
    → continously_index_new_blocks checks stream current_slot start
      ≡ (map (λ b. b ∷ []) (stream start).0, outcome_of (stream start).1)
unfolding continously_index_new_blocks
continously_index_new_blocks-sends checks stream current_slot start positive h later =
    let kept : (if start == 0 then current_slot else start) ≡ start = ground arith in
    let fits : leb start current_slot ≡ true = ground arith in
    rw (continously_index_new_blocks, kept, fits, kept)
      (send_blocks-batches checks start (current_slot - start) false (stream start).0
        (stream start).1 later)

-- With the RPC poller, and a start slot other than 0 that is also the poller's last indexed slot, the
-- task sends no block at all and panics.
pub continously_index_new_blocks-restarted :
    (fetch : ℕ → Result IndexerError BlockInfo)
    (fetch_slot : (slot : ℕ) (b : BlockInfo) → fetch slot ≡ ok b → b.metadata.slot ≡ slot)
    (arrive : List ℕ → List ℕ) (arrives : (slots : List ℕ) → Permᴰ (arrive slots) slots)
    (checks : Bool) (room fuel current_slot start height : ℕ) (heights : List ℕ)
    → 0 < room
    → 0 < fuel
    → 0 < start
    → start ≤ current_slot
    → continously_index_new_blocks checks
        (λ slot. load_block_stream fetch arrive room fuel start slot height heights)
        current_slot
        start
      ≡ ([], panicked)
unfolding continously_index_new_blocks
continously_index_new_blocks-restarted fetch fetch_slot arrive arrives checks room fuel current_slot
      start height heights r f positive h =
    let kept : (if start == 0 then current_slot else start) ≡ start = ground arith in
    let fits : leb start current_slot ≡ true = ground arith in
    rw (
      continously_index_new_blocks,
      kept,
      fits,
      kept,
      load_block_stream-restarted fetch fetch_slot arrive arrives room fuel start height heights r f
          positive,
    )
