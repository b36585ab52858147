-- ===== src/Indexer/Poller/Sorting.antt =====
-- `sort_by_key` of indexer/src/poller.rs: the order of a batch.
use mathlib.Core.List.{Permᴰ}
use itihas.Indexer.Poller.{fetched, insert_by_slot, kept, sort_by_slot}
use itihas.Indexer.Types.{BlockInfo, IndexerError}
use itihas.Prelude.{
  List, Result, ok-injective, arith, [], ok, ℕ, ◌≡◌, ◌∷◌, refl, ap, ◌∙◌, some, none, err, panic,
  Option, ◌≤◌, All, sym,
}

-- Two blocks go in in either order, if only equal blocks share a slot.
insert_by_slot_comm :
    (b c : BlockInfo) (bs : List BlockInfo)
    → (b.metadata.slot ≡ c.metadata.slot → b ≡ c)
    → insert_by_slot b (insert_by_slot c bs) ≡ insert_by_slot c (insert_by_slot b bs)
unfolding insert_by_slot
insert_by_slot_comm b c [] same = ground arith
insert_by_slot_comm b c (d ∷ bs) same = let ih = insert_by_slot_comm b c bs same in grind arith

-- A block that is no later than any other goes to the front.
pub insert_by_slot-first :
    (b : BlockInfo) (bs : List BlockInfo)
    → All (λ c. b.metadata.slot ≤ c.metadata.slot) bs
    → insert_by_slot b bs ≡ b ∷ bs
unfolding insert_by_slot
insert_by_slot-first b [] h = refl
insert_by_slot-first b (c ∷ bs) h = ground arith

pub kept-eq-some : (r : Result IndexerError BlockInfo) {b : BlockInfo} → kept r ≡ some b → r ≡ ok b
kept-eq-some (ok b) h = cc
kept-eq-some (err e) h = cc
kept-eq-some panic h = cc

module _ (fetch : ℕ → Result IndexerError BlockInfo)
    (fetch_slot : (slot : ℕ) (b : BlockInfo) → fetch slot ≡ ok b → b.metadata.slot ≡ slot) where
  one_block_a_slot :
      (s t : ℕ) (b c : BlockInfo)
      → kept (fetch s) ≡ some b
      → kept (fetch t) ≡ some c
      → b.metadata.slot ≡ c.metadata.slot
      → b ≡ c
  one_block_a_slot s t b c hb hc e =
      let fb = kept-eq-some (fetch s) hb in
      let fc = kept-eq-some (fetch t) hc in
      let slot_b = fetch_slot s b fb in
      let slot_c = fetch_slot t c fc in
      let same : s ≡ t = cc in ok-injective (sym fb ∙ ap fetch same ∙ fc)

  add : Option BlockInfo → List BlockInfo → List BlockInfo
  add none bs = bs
  add (some b) bs = insert_by_slot b bs

  sort_fetched-cons :
      (s : ℕ) (slots : List ℕ)
      → sort_by_slot (fetched fetch (s ∷ slots))
        ≡ add (kept (fetch s)) (sort_by_slot (fetched fetch slots))
  unfolding sort_by_slot add
  sort_fetched-cons s slots =
      elim (kept (fetch s))
        as (λ k.
          sort_by_slot (elim k [ none ↦ fetched fetch slots | some b ↦ b ∷ fetched fetch slots ])
          ≡ add k (sort_by_slot (fetched fetch slots))) [ none ↦ refl | some b ↦ refl ]

  add_comm :
      (x y : Option BlockInfo) (bs : List BlockInfo)
      → ((b c : BlockInfo) → x ≡ some b → y ≡ some c → b.metadata.slot ≡ c.metadata.slot → b ≡ c)
      → add x (add y bs) ≡ add y (add x bs)
  unfolding add
  add_comm none y bs same = refl
  add_comm (some b) none bs same = refl
  add_comm (some b) (some c) bs same = insert_by_slot_comm b c bs (same b c refl refl)

  sort_fetched_swap :
      (s t : ℕ) (slots : List ℕ)
      → sort_by_slot (fetched fetch (s ∷ t ∷ slots)) ≡ sort_by_slot (fetched fetch (t ∷ s ∷ slots))
  sort_fetched_swap s t slots =
      rw
        (
          sort_fetched-cons s (t ∷ slots),
          sort_fetched-cons t slots,
          sort_fetched-cons t (s ∷ slots),
          sort_fetched-cons s slots,
        )
        (add_comm (kept (fetch s)) (kept (fetch t)) (sort_by_slot (fetched fetch slots))
          (one_block_a_slot s t))

  -- The sorted blocks do not depend on the order in which they arrive.
  pub sort_fetched_Perm :
      {slots arrived : List ℕ}
      → Permᴰ arrived slots
      → sort_by_slot (fetched fetch arrived) ≡ sort_by_slot (fetched fetch slots)
  sort_fetched_Perm Permᴰ.nil = refl
  sort_fetched_Perm (Permᴰ.cons {a} {b} {l₁ = arrived} {l₂ = slots} e p) =
      rw (e, sort_fetched-cons b arrived, sort_fetched-cons b slots)
        (ap (add (kept (fetch b))) (sort_fetched_Perm p))
  sort_fetched_Perm (Permᴰ.swap {a} {b} {l = l} e f) = rw (← e, ← f) (sort_fetched_swap a b l)
  sort_fetched_Perm (Permᴰ.trans p q) = sort_fetched_Perm p ∙ sort_fetched_Perm q
