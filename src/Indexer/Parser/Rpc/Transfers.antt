-- ===== src/Indexer/Parser/Rpc/Transfers.antt =====
-- The groups that the parser of RPC blocks returns, against the transfers of the message.
use mathlib.Core.Option
use itihas.Indexer.Parser.{
  checked_account, is_token_program, pubkey_of, token_extensions_program_text, token_program_text,
  transfer_amount, when,
}
use itihas.Indexer.Parser.Inversion.{get_elem?-traverse, map-push_each}
use itihas.Indexer.Parser.Lookup.{checked_account-eq-ok}
use itihas.Indexer.Parser.Rpc.{
  all_accounts, outer_token_instruction, outer_transfer, parse_instruction,
  parse_instruction_groups, parse_instructions,
}
use itihas.Indexer.Parser.Spec.{summary, token_transfer, transfer_in}
use itihas.Indexer.Sdk.{CompiledInstruction, Sdk, UiTransactionStatusMeta, VersionedTransaction}
use itihas.Indexer.Types.{InstructionGroup, Pubkey}
use itihas.Prelude.{
  >>=-eq-ok, Bytes, List, Option, [], arith, filter_map, get_elem?, leb, length, map, ok, some,
  traverse, ℕ, ◌&&◌, ◌∷◌, ◌≡◌,
}

module _ {E : Type 0} (sdk : Sdk E) (token extensions : Pubkey) (accounts : List Pubkey)
    (meta : UiTransactionStatusMeta) where
  outer_transfer-summary :
      (program : Pubkey) (payload : Bytes) (a b : Pubkey) (ks : List Pubkey) (amount : ℕ)
      {r : Option InstructionGroup}
      → outer_transfer sdk token extensions accounts meta program payload (a ∷ b ∷ ks) amount ≡ ok r
      → Option.map summary r
        ≡ some (record { program = program; source = a; destination = b; amount = amount })
  outer_transfer-summary program payload a b ks amount h = ground arith

  round-summary :
      (program : Pubkey) (payload : Bytes) (keys : List Pubkey) {r : Option InstructionGroup}
      → when
          (is_token_program token extensions program && leb 2 (length keys))
          (outer_token_instruction sdk token extensions accounts meta program payload keys)
        ≡ ok r
      → Option.map summary r
        ≡ transfer_in
            (is_token_program token extensions)
            (transfer_amount sdk)
            program
            payload
            (get_elem? keys 0)
            (get_elem? keys 1)
  round-summary program payload [] h = ground arith
  round-summary program payload (a ∷ []) h = ground arith
  round-summary program payload (a ∷ b ∷ ks) h = ground arith

  -- One round of the loop yields the transfer that the instruction is, if it is one.
  pub parse_instruction-summary :
      (ix : CompiledInstruction) (r : Option InstructionGroup)
      → parse_instruction sdk token extensions accounts meta ix ≡ ok r
      → Option.map summary r
        ≡ token_transfer
            (is_token_program token extensions)
            (transfer_amount sdk)
            (get_elem? accounts)
            ix
  unfolding parse_instruction
  parse_instruction-summary ix r h =
      let (program, hp, h1) = >>=-eq-ok (checked_account accounts _ ix.program_id_index) _ h in
      let (keys, hk, h2) = >>=-eq-ok (traverse (checked_account accounts _) ix.accounts) _ h1 in
      let at =
        get_elem?-traverse (checked_account accounts _) (get_elem? accounts)
          (λ i a. checked_account-eq-ok accounts _ i) ix.accounts hk in
      rw (checked_account-eq-ok accounts _ ix.program_id_index hp, ← at 0, ← at 1)
        (round-summary program ix.payload keys h2)

-- If the parser returns groups, they are the token transfers of the message, in the message's order:
-- the instructions of a token program whose data is a `Transfer` and that name at least two accounts,
-- each with its program, source, destination and amount.
pub parse_instruction_groups-transfers :
    {E : Type 0} (sdk : Sdk E) (tx : VersionedTransaction) (meta : UiTransactionStatusMeta)
    (accounts : List Pubkey) (token extensions : Pubkey) {groups : List InstructionGroup}
    → all_accounts sdk tx meta ≡ ok accounts
    → pubkey_of sdk token_program_text ≡ ok token
    → pubkey_of sdk token_extensions_program_text ≡ ok extensions
    → parse_instruction_groups sdk tx meta ≡ ok groups
    → map summary groups
      ≡ filter_map
          (token_transfer
            (is_token_program token extensions)
            (transfer_amount sdk)
            (get_elem? accounts))
          tx.instructions
unfolding parse_instruction_groups parse_instructions
parse_instruction_groups-transfers sdk tx meta accounts token extensions ha ht he h =
    map-push_each (parse_instruction sdk token extensions accounts meta) summary
      (token_transfer (is_token_program token extensions) (transfer_amount sdk)
        (get_elem? accounts))
      (parse_instruction-summary sdk token extensions accounts meta) tx.instructions
      (rw (ha, ht, he) at h)
