-- ===== src/Indexer/Poller/Replies.antt =====
-- How `get_block` goes through the replies to its attempts.
use mathlib.Core.List.{append-nil}
use itihas.Indexer.Poller.{Reply, block, get_block, is_skipped, other_error, response_error}
use itihas.Indexer.Sdk.{Sdk, UiConfirmedBlock}
use itihas.Indexer.Parser.Rpc.Block.{parse_ui_confirmed_block}
use itihas.Indexer.Types.{BlockInfo, parser_error}
use itihas.Indexer.Parser.Rpc.Contents.{parse_ui_confirmed_block-contents}
use itihas.Prelude.{
  eq_of_some, err, All, Bool-cases, inl, inr, List, [], ok, refl, some, ℕ, ◌++◌, ◌≡◌, ◌∷◌, ◌⊎◌, ◌↔◌,
  ◌∙◌, ◌==◌, ==_iff, ap, negsuc, pos, none, true, ℤ, String,
}

-- The codes of an RPC response error that say that the slot was skipped, -32007 and -32009.
abbrev pub SaysSkipped : ℤ → Type 0
SaysSkipped code = (code ≡ negsuc 32006) ⊎ (code ≡ negsuc 32008)

-- A reply that is an error, but not that the slot was skipped.
abbrev pub IsTransient : {E : Type 0} → Reply E → Type 0
IsTransient (block b) = ⊥
IsTransient (response_error code text) = ¬ SaysSkipped code
IsTransient (other_error text) = Unit

is_skipped-SaysSkipped : (code : ℤ) → (is_skipped code ≡ true) ↔ SaysSkipped code
is_skipped-SaysSkipped (pos n) = (λ e. cc, λ s. elim s [ inl e ↦ cc | inr e ↦ cc ])
is_skipped-SaysSkipped (negsuc n) = (
  λ e. elim (Bool-cases (n == 32006)) [
    | inl first ↦ inl (ap negsuc ((==_iff n 32006).0 first))
    | inr other ↦ inr (ap negsuc ((==_iff n 32008).0 (rw other at e)))
  ],
  λ s. elim s [ inl e ↦ ap is_skipped e | inr e ↦ ap is_skipped e ],
)

module _ {E : Type 0} (sdk : Sdk E) (slot : ℕ) where
  retries :
      (failures replies : List (Reply E))
      → All IsTransient failures
      → get_block sdk slot (failures ++ replies) ≡ get_block sdk slot replies
  unfolding get_block
  retries [] replies h = refl
  retries (block b ∷ failures) replies h = absurd h.0
  retries (response_error code text ∷ failures) replies h = elim (Bool-cases (is_skipped code)) [
    | inl skipped ↦ absurd (h.0 ((is_skipped-SaysSkipped code).0 skipped))
    | inr again ↦ rw again (retries failures replies h.1)
  ]
  retries (other_error text ∷ failures) replies h = retries failures replies h.1

  -- While all attempts have failed with errors other than response errors with the codes -32007 and
  -- -32009, `get_block` goes on. The first block after any number of them decides the result, which is
  -- that of parsing it; and the first response error with one of the two codes gives an error with its
  -- text. What comes later is not asked for.
  pub get_block-retries :
      (failures replies : List (Reply E))
      → All IsTransient failures
      → (get_block sdk slot failures ≡ none)
        × ((b : UiConfirmedBlock E)
            → get_block sdk slot (failures ++ block b ∷ replies)
              ≡ some (parse_ui_confirmed_block sdk b slot))
        × ((code : ℤ) (text : String)
            → SaysSkipped code
            → get_block sdk slot (failures ++ response_error code text ∷ replies)
              ≡ some (err (parser_error text)))
  unfolding get_block
  get_block-retries failures replies h = (
    rw append-nil at (retries failures [] h),
    λ b. retries failures (block b ∷ replies) h,
    λ code text said.
        let skipped = (is_skipped-SaysSkipped code).1 said in
        retries failures (response_error code text ∷ replies) h ∙ rw skipped refl,
  )

  -- A block that `get_block` returns, after whatever failures, is that of the slot it was asked for.
  get_block-slot :
      (replies : List (Reply E)) (b : BlockInfo)
      → get_block sdk slot replies ≡ some (ok b)
      → b.metadata.slot ≡ slot
  unfolding get_block
  get_block-slot [] b h = cc
  get_block-slot (block reply ∷ replies) b h =
      (parse_ui_confirmed_block-contents sdk reply slot (eq_of_some h)).0
  get_block-slot (response_error code text ∷ replies) b h = elim (Bool-cases (is_skipped code)) [
    | inl skipped ↦
        let stopped : some (err (parser_error text)) ≡ some (ok b) = rw skipped at h in cc
    | inr again ↦ get_block-slot replies b (rw again at h)
  ]
  get_block-slot (other_error text ∷ replies) b h = get_block-slot replies b h
