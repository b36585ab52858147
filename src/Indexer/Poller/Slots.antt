-- ===== src/Indexer/Poller/Slots.antt =====
-- The slots that the poller's batches request, and the blocks kept of them.
use itihas.Indexer.Poller.{await_tip, batch_slots, sort_by_slot}
use itihas.Indexer.Poller.Sorting.{insert_by_slot-first}
use itihas.Indexer.Types.{BlockInfo}
use itihas.Prelude.{
  consecutive, All, ltb, List, Option, [], ap, arith, false, length, none, refl, some, suc, zero, ℕ,
  ◌+◌, ◌++◌, ◌-◌, ◌<◌, ◌≡◌, ◌≤◌, ◌∷◌,
}

pub consecutive-append :
    (m n first : ℕ) → consecutive (m + n) first ≡ consecutive m first ++ consecutive n (first + m)
unfolding consecutive
consecutive-append zero n first =
    let none_before : 0 + n ≡ n = omega arith in
    let from_first : first + 0 ≡ first = omega arith in rw (none_before, from_first)
consecutive-append (suc m) n first =
    let one_more : suc m + n ≡ suc (m + n) = omega arith in
    let shifted : first + suc m ≡ suc first + m = omega arith in
    rw (one_more, shifted) (ap (λ slots. first ∷ slots) (consecutive-append m n (suc first)))

-- One batch requests as many slots as there is room and need for.
pub batch_slots_eq :
    (room current tip : ℕ)
    → batch_slots room current tip ≡ consecutive (length (batch_slots room current tip)) current
unfolding batch_slots consecutive
batch_slots_eq zero current tip = refl
batch_slots_eq (suc room) current tip =
    let ih = batch_slots_eq room (suc current) tip in ground arith

pub batch_slots-length :
    (room current tip : ℕ) → length (batch_slots room current tip) ≤ suc tip - current
unfolding batch_slots
batch_slots-length zero current tip = omega arith
batch_slots-length (suc room) current tip =
    let ih = batch_slots-length room (suc current) tip in ground arith

pub batch_slots-progress :
    (room current tip : ℕ) → 0 < room → current ≤ tip → 0 < length (batch_slots room current tip)
unfolding batch_slots
batch_slots-progress zero current tip r h = ground arith
batch_slots-progress (suc room) current tip r h = ground arith

pub await_tip-ready :
    (current tip : ℕ) (heights : List ℕ)
    → ltb tip current ≡ false
    → await_tip current tip heights ≡ some (tip, heights)
unfolding await_tip
await_tip-ready current tip [] h = rw h
await_tip-ready current tip (height ∷ heights) h = rw h

-- A block that is kept stands before the others.
abbrev pub keep : Option BlockInfo → List BlockInfo → List BlockInfo
keep k bs = elim k [ none ↦ bs | some b ↦ b ∷ bs ]

pub keep-append :
    (k : Option BlockInfo) (bs cs : List BlockInfo) → keep k (bs ++ cs) ≡ keep k bs ++ cs
keep-append none bs cs = refl
keep-append (some b) bs cs = refl

pub keep-All :
    (P : BlockInfo → Type 0) (k : Option BlockInfo) (bs : List BlockInfo)
    → ((b : BlockInfo) → k ≡ some b → P b)
    → All P bs
    → All P (keep k bs)
keep-All P none bs h hs = hs
keep-All P (some b) bs h hs = (h b refl, hs)

pub keep-sorted :
    (k : Option BlockInfo) (bs : List BlockInfo)
    → sort_by_slot bs ≡ bs
    → ((b : BlockInfo) → k ≡ some b → All (λ c. b.metadata.slot ≤ c.metadata.slot) bs)
    → sort_by_slot (keep k bs) ≡ keep k bs
unfolding sort_by_slot
keep-sorted none bs e h = e
keep-sorted (some b) bs e h = rw e (insert_by_slot-first b bs (h b refl))
