-- ===== src/Indexer/Poller/Unwinding.antt =====
-- `get_poller_block_stream` of indexer/src/poller.rs where the parser panics on a block.
use mathlib.Core.List.{Permᴰ}
use itihas.Indexer.Poller.{
  batch_slots, fetch_panics, fetched, first_slot, get_poller_block_stream, poll_rounds, unwound,
}
use itihas.Indexer.Poller.Slots.{
  await_tip-ready, batch_slots-length, batch_slots-progress, batch_slots_eq,
}
use itihas.Indexer.Poller.Stream.{round}
use itihas.Indexer.Types.{BlockInfo, IndexerError}
use itihas.Prelude.{
  dec_lt, ℕ_discrete, Bool-cases, List, Result, Result-cases, ap, arith, consecutive, false, inl,
  inr, length, ltb, ok, panic, refl, some, suc, zero, ℕ, ◌+◌, ◌-◌, ◌<◌, ◌≡◌, ◌≢◌, ◌≤◌, ◌∙◌,
}

module _ (fetch : ℕ → Result IndexerError BlockInfo) where
  -- Where no fetch of a run of slots panics, that of each does not.
  fetch_panics-consecutive :
      (count first slot : ℕ)
      → fetch_panics fetch (consecutive count first) ≡ false
      → first ≤ slot
      → slot < first + count
      → fetch slot ≢ panic
  unfolding fetch_panics consecutive
  fetch_panics-consecutive zero first slot h low high p = absurd (omega arith)
  fetch_panics-consecutive (suc count) first slot h low high p = elim (ℕ_discrete first slot) [
    | yes here ↦
        let at_first : fetch first ≡ panic = ap fetch here ∙ p in
        let stops = rw (fetch_panics, at_first) at h in cc
    | no other ↦ elim (Result-cases (fetch first)) [
      | inl (b, e) ↦
          fetch_panics-consecutive count (suc first) slot (rw (fetch_panics, e) at h) (omega arith)
            (omega arith) p
      | inr (inl (error, e)) ↦
          fetch_panics-consecutive count (suc first) slot (rw (fetch_panics, e) at h) (omega arith)
            (omega arith) p
      | inr (inr e) ↦ let stops = rw (fetch_panics, e) at h in cc
    ]
  ]

  module _ (fetch_slot : (slot : ℕ) (b : BlockInfo) → fetch slot ≡ ok b → b.metadata.slot ≡ slot)
      (arrive : List ℕ → List ℕ) (arrives : (slots : List ℕ) → Permᴰ (arrive slots) slots)
      (room : ℕ) where
    poll_rounds-unwinds :
        (fuel current end_block_slot slot : ℕ) (heights : List ℕ)
        → 0 < room
        → suc end_block_slot - current < fuel
        → current ≤ slot
        → slot ≤ end_block_slot
        → fetch slot ≡ panic
        → (n : ℕ) × (n ≤ slot - current)
          × (poll_rounds fetch arrive room fuel false current end_block_slot heights
              ≡ (fetched fetch (consecutive n current), unwound))
    unfolding poll_rounds consecutive
    poll_rounds-unwinds zero current end_block_slot slot heights r f low high p =
        absurd (omega arith)
    poll_rounds-unwinds (suc fuel) current end_block_slot slot heights r f low high p =
        let goes : ltb end_block_slot current ≡ false = ground arith in
        let slots = batch_slots room current end_block_slot in
        let run = batch_slots_eq room current end_block_slot in
        let ready = await_tip-ready current end_block_slot heights goes in
        elim (Bool-cases (fetch_panics fetch slots)) [
          | inl panics ↦ (0, omega arith, rw (poll_rounds, goes, ready, panics, consecutive) refl)
          | inr calm ↦
              let progress = batch_slots-progress room current end_block_slot r (omega arith) in
              let fits = batch_slots-length room current end_block_slot in
              let beyond = later slot low p (rw run at calm) in
              let (n, before, ih) =
                poll_rounds-unwinds fuel (current + length slots) end_block_slot slot heights r
                  (omega arith) beyond high p in
              (
                length slots + n,
                omega arith,
                rw (poll_rounds, goes, ready, calm, ih)
                    (ap (λ blocks. (blocks, unwound))
                      (round fetch fetch_slot arrive arrives room slots n current run)),
              )
        ]
      where
        later :
            (slot : ℕ)
            → current ≤ slot
            → fetch slot ≡ panic
            → fetch_panics fetch
                (consecutive (length (batch_slots room current end_block_slot)) current)
              ≡ false
            → current + length (batch_slots room current end_block_slot) ≤ slot
        later slot low p calm =
            elim (dec_lt slot (current + length (batch_slots room current end_block_slot))) [
              | yes inside ↦ absurd (fetch_panics-consecutive _ current slot calm low inside p)
              | no outside ↦ omega arith
            ]

    -- With an end slot, a positive batch size and enough rounds: if a fetch of a slot from the first
    -- one to the end slot panics, the stream unwinds, after it has yielded the blocks of some number of
    -- slots from its first one on that could be fetched, all of them before that slot, each once and in
    -- order.
    pub get_poller_block_stream-unwinds :
        (fuel last_indexed_slot end_block_slot slot height : ℕ) (heights : List ℕ)
        → 0 < room
        → suc end_block_slot - first_slot last_indexed_slot < fuel
        → first_slot last_indexed_slot ≤ slot
        → slot ≤ end_block_slot
        → fetch slot ≡ panic
        → (n : ℕ) × (n ≤ slot - first_slot last_indexed_slot)
          × (get_poller_block_stream fetch arrive room fuel last_indexed_slot
                (some end_block_slot)
                height
                heights
              ≡ (fetched fetch (consecutive n (first_slot last_indexed_slot)), unwound))
    unfolding get_poller_block_stream
    get_poller_block_stream-unwinds fuel last_indexed_slot end_block_slot slot height heights r f
          low high p =
        poll_rounds-unwinds fuel (first_slot last_indexed_slot) end_block_slot slot heights r f low
          high p
