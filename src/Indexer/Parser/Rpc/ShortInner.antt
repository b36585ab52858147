-- ===== src/Indexer/Parser/Rpc/ShortInner.antt =====
-- An inner transfer that names fewer than two accounts, in `parse_instruction_groups` of
-- indexer/src/parser.rs.
use itihas.Indexer.Parser.{
  checked_account, is_token_program, pubkey_of, push, push_each, token_extensions_program_text,
  token_program_text, transfer_amount, when, find_associated_token_address,
}
use itihas.Indexer.Parser.Inversion.{length-traverse}
use itihas.Indexer.Parser.Rpc.{
  all_accounts, all_inner_instructions, first_balance_mint, inner_instruction, inner_instructions,
  inner_token_instruction, inner_transfer, item_instructions, outer_token_instruction,
  outer_transfer, parse_instruction, parse_instruction_groups, parse_instructions,
}
use itihas.Indexer.Sdk.{
  CompiledInstruction, Sdk, UiCompiledInstruction, UiInnerInstructions, UiInstruction,
  UiTransactionStatusMeta, VersionedTransaction, absent, compiled, present,
}
use itihas.Indexer.Types.{Instruction, InstructionGroup, Pubkey}
use itihas.Prelude.{
  >>=-eq-ok, Bool-cases, Bytes, List, Option, Option-cases, Result, [], arith, index, inl, inr, leb,
  length, none, ok, ok-injective, panic, refl, some, traverse, true, ℕ, ◌&&◌, ◌++◌, ◌<◌, ◌>>=◌, ◌≡◌,
  ◌∷◌,
}

-- A round that pushes nothing in one loop pushes nothing in another, where one that pushes panics.
abbrev panics_for : {E A : Type 0} → Option A → Result E (Option A)
panics_for none = ok none
panics_for (some a) = panic

push_each-panic :
    {E A B : Type 0} (body other : A → Result E (Option B))
    → ((x : A) (r : Option B) → body x ≡ ok r → other x ≡ panics_for r)
    → (xs : List A) {y : B} {ys : List B} → push_each body xs ≡ ok (y ∷ ys)
    → push_each other xs ≡ panic
push_each-panic {B = B} body other h [] e = cc
push_each-panic {B = B} body other h (x ∷ xs) {y = y} {ys = ys} e =
    let (r, first, e1) = >>=-eq-ok (body x) _ e in
    let (rest, later, e2) = >>=-eq-ok (push_each body xs) _ e1 in
    rw (h x r first) (
      after r rest later (ok-injective e2)
        λ same. push_each-panic body other h xs {y = y} {ys = ys} same)
  where
    after :
        (r : Option B) (rest : List B)
        → push_each body xs ≡ ok rest
        → push r rest ≡ y ∷ ys
        → (push_each body xs ≡ ok (y ∷ ys) → push_each other xs ≡ panic)
        → (panics_for r >>= λ pushed. push_each other xs >>= λ all. ok (push pushed all)) ≡ panic
    after none rest later same ih = rw (ih (rw same at later)) refl
    after (some b) rest later same ih = refl

push_each-stops :
    {E A B : Type 0} (body : A → Result E (Option B)) (before : List A) (x : A) (rest : List A)
    {pushed : List B}
    → push_each body before ≡ ok pushed
    → body x ≡ panic
    → push_each body (before ++ x ∷ rest) ≡ panic
push_each-stops body [] x rest e p = rw p refl
push_each-stops body (b ∷ before) x rest e p =
    let (r, first, e1) = >>=-eq-ok (body b) _ e in
    let (more, later, e2) = >>=-eq-ok (push_each body before) _ e1 in
    rw (first, push_each-stops body before x rest later p) refl

module _ {E : Type 0} (sdk : Sdk E) (token extensions : Pubkey) (accounts : List Pubkey) where
  -- An inner instruction of a token program whose data is a `Transfer`, and that names fewer than two
  -- accounts, which can be read.
  pub record IsShortTransfer (ix : UiCompiledInstruction) : Type 0 where
    pub program : Pubkey
    pub payload : Bytes
    pub keys : List Pubkey
    pub amount : ℕ
    pub has_program :
        checked_account accounts "Inner program ID index out of bounds" ix.program_id_index
        ≡ ok program
    pub of_token : is_token_program token extensions program ≡ true
    pub decoded : sdk.bs58_decode ix.payload ≡ inr payload
    pub transfers : transfer_amount sdk payload ≡ some amount
    pub has_keys :
        traverse (checked_account accounts "Inner account index out of bounds") ix.accounts
        ≡ ok keys
    pub short : length ix.accounts < 2

  inner_instruction-panic :
      (ix : UiCompiledInstruction)
      → IsShortTransfer ix
      → inner_instruction sdk token extensions accounts (compiled ix) ≡ panic
  unfolding inner_instruction
  inner_instruction-panic ix s =
      let few : length s.keys < 2 =
        omega
          (arith, s.short, length-traverse (checked_account accounts _) ix.accounts s.has_keys) in
      rw (s.has_program, s.decoded, s.has_keys, s.of_token, inner_token_instruction, s.transfers)
        (too_few s.program s.payload s.keys s.amount few)
    where
      too_few :
          (program : Pubkey) (payload : Bytes) (keys : List Pubkey) (amount : ℕ)
          → length keys < 2
          → inner_transfer sdk token extensions accounts program payload keys amount ≡ panic
      too_few program payload [] amount h = refl
      too_few program payload (a ∷ []) amount h = refl
      too_few program payload (a ∷ b ∷ ks) amount h = absurd (omega arith)

  all_inner_instructions-panic :
      (earlier : List UiInnerInstructions) (item : UiInnerInstructions)
      (later : List UiInnerInstructions) {pushed : List Instruction}
      → all_inner_instructions sdk token extensions accounts earlier ≡ ok pushed
      → item_instructions sdk token extensions accounts item.instructions ≡ panic
      → all_inner_instructions sdk token extensions accounts (earlier ++ item ∷ later) ≡ panic
  unfolding all_inner_instructions
  all_inner_instructions-panic [] item later e p = rw p refl
  all_inner_instructions-panic (first ∷ earlier) item later e p =
      let (pushed, here, e1) =
        >>=-eq-ok (item_instructions sdk token extensions accounts first.instructions) _ e in
      let (more, rest, e2) =
        >>=-eq-ok (all_inner_instructions sdk token extensions accounts earlier) _ e1 in
      rw (here, all_inner_instructions-panic earlier item later rest p) refl

  module _ (meta : UiTransactionStatusMeta)
      (panics : inner_instructions sdk token extensions accounts meta.inner_instructions
        ≡ panic) where
    -- The status without inner instructions.
    abbrev bare : UiTransactionStatusMeta
    bare = record meta { inner_instructions = absent }

    outer_transfer-panic :
        (program : Pubkey) (payload : Bytes) (keys : List Pubkey) (amount : ℕ)
        (r : Option InstructionGroup)
        → outer_transfer sdk token extensions accounts bare program payload keys amount ≡ ok r
        → outer_transfer sdk token extensions accounts meta program payload keys amount
          ≡ panics_for r
    outer_transfer-panic program payload keys amount r h =
        let (source, e1, h1) = >>=-eq-ok (index keys 0) _ h in
        let (destination, e2, h2) = >>=-eq-ok (index keys 1) _ h1 in
        let (mint, e3, h3) = >>=-eq-ok (first_balance_mint sdk meta.post_token_balances) _ h2 in
        let (source_ata, e4, h4) =
          >>=-eq-ok (find_associated_token_address sdk source mint (some token)) _ h3 in
        let (destination_ata, e5, h5) =
          >>=-eq-ok (find_associated_token_address sdk destination mint (some token)) _ h4 in
        let (inner, e6, h6) =
          >>=-eq-ok (inner_instructions sdk token extensions accounts absent) _ h5 in
        rw (← ok-injective h6, e1, e2, e3, e4, e5, panics) refl

    parse_instruction-panic :
        (ix : CompiledInstruction) (r : Option InstructionGroup)
        → parse_instruction sdk token extensions accounts bare ix ≡ ok r
        → parse_instruction sdk token extensions accounts meta ix ≡ panics_for r
    unfolding parse_instruction
    parse_instruction-panic ix r h =
        let (program, hp, h1) = >>=-eq-ok (checked_account accounts _ ix.program_id_index) _ h in
        let (keys, hk, h2) = >>=-eq-ok (traverse (checked_account accounts _) ix.accounts) _ h1 in
        rw (hp, hk) (round program keys h2)
      where
        round :
            (program : Pubkey) (keys : List Pubkey)
            → when
                (is_token_program token extensions program && leb 2 (length keys))
                (outer_token_instruction sdk token extensions accounts bare program ix.payload keys)
              ≡ ok r
            → when
                (is_token_program token extensions program && leb 2 (length keys))
                (outer_token_instruction sdk token extensions accounts meta program ix.payload keys)
              ≡ panics_for r
        round program keys e =
            elim (Bool-cases (is_token_program token extensions program && leb 2 (length keys))) [
              | inl fits ↦ elim (Option-cases (transfer_amount sdk ix.payload)) [
                | inl other ↦
                    rw
                      (
                        fits,
                        outer_token_instruction,
                        other,
                        ← ok-injective (rw (fits, outer_token_instruction, other) at e),
                      )
                      refl
                | inr (amount, transfers) ↦
                    rw (fits, outer_token_instruction, transfers)
                      (outer_transfer-panic program ix.payload keys amount r
                        (rw (fits, outer_token_instruction, transfers) at e))
              ]
              | inr not_fits ↦ rw (not_fits, ← ok-injective (rw not_fits at e)) refl
            ]

-- For a message that the parser reads to at least one group when its status has no inner
-- instructions: with inner instructions among which is a transfer of a token program that names fewer
-- than two accounts, and of which those before it are read without an error, the parser panics.
pub parse_instruction_groups-panic :
    {E : Type 0} (sdk : Sdk E) (tx : VersionedTransaction) (meta : UiTransactionStatusMeta)
    (token extensions : Pubkey) (accounts : List Pubkey) (earlier later : List UiInnerInstructions)
    (item : UiInnerInstructions) (before rest : List UiInstruction) (ix : UiCompiledInstruction)
    {group : InstructionGroup} {groups : List InstructionGroup} {pushed found : List Instruction}
    → all_accounts sdk tx meta ≡ ok accounts
    → pubkey_of sdk token_program_text ≡ ok token
    → pubkey_of sdk token_extensions_program_text ≡ ok extensions
    → parse_instruction_groups sdk tx (record meta { inner_instructions = absent })
      ≡ ok (group ∷ groups)
    → all_inner_instructions sdk token extensions accounts earlier ≡ ok pushed
    → item_instructions sdk token extensions accounts before ≡ ok found
    → item.instructions ≡ before ++ compiled ix ∷ rest
    → IsShortTransfer sdk token extensions accounts ix
    → parse_instruction_groups sdk tx
        (record meta { inner_instructions = present (earlier ++ item ∷ later) })
      ≡ panic
unfolding parse_instruction_groups parse_instructions all_accounts item_instructions
    inner_instructions
parse_instruction_groups-panic sdk tx meta token extensions accounts earlier later item before rest
      ix {group} {groups} ha ht he h he1 hb hi s =
    let stops =
      push_each-stops (inner_instruction sdk token extensions accounts) before (compiled ix) rest hb
        (inner_instruction-panic sdk token extensions accounts ix s) in
    let inner =
      all_inner_instructions-panic sdk token extensions accounts earlier item later he1
        (rw hi stops) in
    let status : UiTransactionStatusMeta = record meta {
      inner_instructions = present (earlier ++ item ∷ later);
    } in
    rw (ha, ht, he)
      (push_each-panic
        (parse_instruction sdk token extensions accounts
          (bare sdk token extensions accounts status inner))
        (parse_instruction sdk token extensions accounts status)
        (parse_instruction-panic sdk token extensions accounts status inner) tx.instructions
        (rw (ha, ht, he) at h))
