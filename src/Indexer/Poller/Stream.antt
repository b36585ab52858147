-- ===== src/Indexer/Poller/Stream.antt =====
-- `get_poller_block_stream` of indexer/src/poller.rs: what the stream yields, and when it ends.
use itihas.Indexer.Poller.Slots.{
  consecutive-append, batch_slots_eq, batch_slots-length, batch_slots-progress, await_tip-ready,
  keep, keep-append, keep-All, keep-sorted,
}
use mathlib.Core.List.{Permᴰ}
use itihas.Indexer.Poller.{
  await_tip, batch, batch_slots, ended, fetch_panics, fetched, first_slot, get_poller_block_stream,
  kept, load_block_stream, poll_rounds, sort_by_slot,
}
use itihas.Indexer.Poller.Sorting.{kept-eq-some, sort_fetched_Perm}
use itihas.Indexer.Types.{BlockInfo, IndexerError}
use itihas.Prelude.{
  consecutive, ◌&&◌, not, is_some, unwrap_or, Option-cases, All, Bool, Bool-cases, inl, inr, ltb,
  List, Option, Result, Result-cases, panic, ◌≢◌, leb, [], ap, arith, false, length, ok, refl, some,
  suc, zero, ℕ, ◌+◌, ◌++◌, ◌-◌, ◌<◌, ◌≡◌, ◌≤◌, ◌∙◌, ◌∷◌,
}

module _ (fetch : ℕ → Result IndexerError BlockInfo) where
  fetched-append :
      (xs ys : List ℕ) → fetched fetch (xs ++ ys) ≡ fetched fetch xs ++ fetched fetch ys
  fetched-append [] ys = refl
  fetched-append (x ∷ xs) ys =
      ap (keep (kept (fetch x))) (fetched-append xs ys)
      ∙ keep-append (kept (fetch x)) (fetched fetch xs) (fetched fetch ys)

  -- None of the slots from one to another makes the parser panic.
  abbrev pub IsCalm : ℕ → ℕ → Type 0
  IsCalm first last = (slot : ℕ) → first ≤ slot → slot ≤ last → fetch slot ≢ panic

  fetch_panics-batch_slots :
      (room current tip : ℕ)
      → IsCalm current tip
      → fetch_panics fetch (batch_slots room current tip) ≡ false
  unfolding fetch_panics batch_slots
  fetch_panics-batch_slots zero current tip calm = refl
  fetch_panics-batch_slots (suc room) current tip calm = elim (Bool-cases (leb current tip)) [
    | inl fits ↦
        let here = calm current (omega arith) (ground arith) in
        let rest =
          fetch_panics-batch_slots room (suc current) tip
            (λ slot low high. calm slot (omega arith) high) in
        elim (Result-cases (fetch current)) [
          | inl (b, e) ↦ rw (fits, fetch_panics, e) rest
          | inr (inl (error, e)) ↦ rw (fits, fetch_panics, e) rest
          | inr (inr e) ↦ absurd (here e)
        ]
    | inr over ↦ rw (over, fetch_panics) refl
  ]

  module _
      (fetch_slot : (slot : ℕ) (b : BlockInfo) → fetch slot ≡ ok b → b.metadata.slot ≡ slot) where
    fetched-later :
        (count first bound : ℕ)
        → bound ≤ first
        → All (λ b. bound ≤ b.metadata.slot) (fetched fetch (consecutive count first))
    unfolding consecutive
    fetched-later zero first bound h = tt
    fetched-later (suc count) first bound h =
        keep-All (λ b. bound ≤ b.metadata.slot) (kept (fetch first)) _
          (λ b e. let at_first = fetch_slot first b (kept-eq-some (fetch first) e) in omega arith)
          (fetched-later count (suc first) bound (omega arith))

    sort_fetched-consecutive :
        (count first : ℕ)
        → sort_by_slot (fetched fetch (consecutive count first))
          ≡ fetched fetch (consecutive count first)
    unfolding consecutive sort_by_slot
    sort_fetched-consecutive zero first = refl
    sort_fetched-consecutive (suc count) first =
        keep-sorted (kept (fetch first)) _ (sort_fetched-consecutive count (suc first)) (λ b e.
          let at_first = fetch_slot first b (kept-eq-some (fetch first) e) in
          fetched-later count (suc first) b.metadata.slot (omega arith))

    module _ (arrive : List ℕ → List ℕ) (arrives : (slots : List ℕ) → Permᴰ (arrive slots) slots)
        (room : ℕ) where
      batch-consecutive :
          (count first : ℕ)
          → batch fetch arrive room (consecutive count first)
            ≡ fetched fetch (consecutive count first)
      unfolding batch
      batch-consecutive count first =
          sort_fetched_Perm fetch fetch_slot (arrives (consecutive count first))
          ∙ sort_fetched-consecutive count first

      -- A round's batch, and the blocks of the slots after it.
      pub round :
          (slots : List ℕ) (n first : ℕ)
          → slots ≡ consecutive (length slots) first
          → batch fetch arrive room slots ++ fetched fetch (consecutive n (first + length slots))
            ≡ fetched fetch (consecutive (length slots + n) first)
      round slots n first e =
          let m = length slots in
          let in_order : batch fetch arrive room slots ≡ fetched fetch (consecutive m first) =
            ap (batch fetch arrive room) e ∙ batch-consecutive m first in
          rw (
            in_order,
            consecutive-append m n first,
            fetched-append (consecutive m first) (consecutive n (first + m)),
          )

      poll_rounds-finite :
          (fuel current end_block_slot : ℕ) (heights : List ℕ)
          → 0 < room
          → suc end_block_slot - current < fuel
          → IsCalm current end_block_slot
          → poll_rounds fetch arrive room fuel false current end_block_slot heights
            ≡ (fetched fetch (consecutive (suc end_block_slot - current) current), ended)
      unfolding poll_rounds consecutive
      poll_rounds-finite zero current end_block_slot heights r f calm = ground arith
      poll_rounds-finite (suc fuel) current end_block_slot heights r f calm =
          elim (Bool-cases (ltb end_block_slot current)) [
            | inl over ↦
                let nothing_left : suc end_block_slot - current ≡ 0 = ground arith in
                rw (poll_rounds, over, nothing_left, consecutive)
            | inr goes ↦
                let slots = batch_slots room current end_block_slot in
                let left = suc end_block_slot - (current + length slots) in
                let progress = batch_slots-progress room current end_block_slot r (ground arith) in
                let fits = batch_slots-length room current end_block_slot in
                let ih =
                  poll_rounds-finite fuel (current + length slots) end_block_slot heights r
                    (omega arith) (λ slot low high. calm slot (omega arith) high) in
                let whole : suc end_block_slot - current ≡ length slots + left = omega arith in
                rw
                  (
                    poll_rounds,
                    goes,
                    await_tip-ready current end_block_slot heights goes,
                    fetch_panics-batch_slots room current end_block_slot calm,
                    ih,
                    whole,
                  )
                  (ap (λ blocks. (blocks, ended))
                    (round slots left current (batch_slots_eq room current end_block_slot)))
          ]

      poll_rounds-in_order :
          (fuel : ℕ) (polls_forever : Bool) (current end_block_slot : ℕ) (heights : List ℕ)
          → (n : ℕ) × ((poll_rounds fetch arrive room fuel polls_forever current end_block_slot
                heights).0
              ≡ fetched fetch (consecutive n current))
      unfolding poll_rounds consecutive
      poll_rounds-in_order zero forever current end_block_slot heights = (0, refl)
      poll_rounds-in_order (suc fuel) forever current end_block_slot heights =
          elim (Bool-cases (ltb end_block_slot current && not forever)) [
            | inl stops ↦ (0, rw (poll_rounds, stops, consecutive))
            | inr goes ↦ elim (Option-cases (await_tip current end_block_slot heights)) [
              | inl waits ↦ (0, rw (poll_rounds, goes, waits, consecutive))
              | inr ((tip, rest), ready) ↦
                  let slots = batch_slots room current tip in
                  let (n, ih) =
                    poll_rounds-in_order fuel forever (current + length slots) tip rest in
                  elim (Bool-cases (fetch_panics fetch slots)) [
                    | inl panics ↦ (0, rw (poll_rounds, goes, ready, panics, consecutive))
                    | inr calm ↦ (
                      length slots + n,
                      rw (poll_rounds, goes, ready, calm, ih)
                          (round slots n current (batch_slots_eq room current tip)),
                    )
                  ]
            ]
          ]

      -- With an end slot, a positive batch size and enough rounds (one more than there are slots is
      -- enough), and if no fetch of a slot from the first one to the end slot panics, the stream yields the blocks of the slots from the one after `last_indexed_slot` (or
      -- 0) to the end slot that could be fetched, each once and in the order of their slots, and ends;
      -- whatever the order in which the requests of a batch are answered, the size of the batches and
      -- the heights that the node reports.
      pub get_poller_block_stream-finite :
          (fuel last_indexed_slot end_block_slot height : ℕ) (heights : List ℕ)
          → 0 < room
          → suc end_block_slot - first_slot last_indexed_slot < fuel
          → IsCalm (first_slot last_indexed_slot) end_block_slot
          → get_poller_block_stream fetch arrive room fuel last_indexed_slot
              (some end_block_slot)
              height
              heights
            ≡ (
              fetched fetch (
                  consecutive
                    (suc end_block_slot - first_slot last_indexed_slot)
                    (first_slot last_indexed_slot)),
              ended,
            )
      unfolding get_poller_block_stream
      get_poller_block_stream-finite fuel last_indexed_slot end_block_slot height heights r f calm =
          poll_rounds-finite fuel (first_slot last_indexed_slot) end_block_slot heights r f calm

      -- With or without an end slot, and after any number of rounds, what the stream has yielded are
      -- the blocks of some number of consecutive slots from its first one on that could be fetched, in
      -- the order of their slots: none is repeated, left out or out of order.
      get_poller_block_stream-in_order :
          (fuel last_indexed_slot : ℕ) (end_block_slot : Option ℕ) (height : ℕ) (heights : List ℕ)
          → (n : ℕ) × ((get_poller_block_stream fetch arrive room fuel last_indexed_slot
                end_block_slot height heights).0
              ≡ fetched fetch (consecutive n (first_slot last_indexed_slot)))
      unfolding get_poller_block_stream
      get_poller_block_stream-in_order fuel last_indexed_slot end_block_slot height heights =
          poll_rounds-in_order fuel (not (is_some end_block_slot)) (first_slot last_indexed_slot)
            (unwrap_or end_block_slot height) heights

      -- A streamer whose configuration has a last indexed slot other than 0, and which is started at
      -- that same slot, yields no block and ends at once: its end slot lies before its first slot.
      pub load_block_stream-restarted :
          (fuel last_indexed_slot height : ℕ) (heights : List ℕ)
          → 0 < room
          → 0 < fuel
          → 0 < last_indexed_slot
          → load_block_stream fetch arrive room fuel last_indexed_slot last_indexed_slot height
              heights
            ≡ ([], ended)
      unfolding load_block_stream first_slot consecutive
      load_block_stream-restarted fuel zero height heights r f s = ground arith
      load_block_stream-restarted fuel (suc last) height heights r f s =
          let nothing_left : suc (suc last) - suc (suc last) ≡ 0 = omega arith in
          get_poller_block_stream-finite fuel (suc last) (suc last) height heights r (omega arith)
            (λ slot low high. absurd (omega arith))
          ∙ rw (first_slot, nothing_left, consecutive)
