-- ===== src/Indexer/Parser/Rpc/Enrichment.antt =====
-- What the parser of RPC blocks adds to a transfer: the mint and the associated token addresses.
use itihas.Indexer.Parser.{
  checked_account, find_associated_token_address, pubkey_of,
  spl_associated_token_account_program_id, token_extensions_program_text, token_program_text,
}
use itihas.Indexer.Parser.Inversion.{All-push_each}
use itihas.Indexer.Parser.Rpc.{
  all_accounts, first_balance_mint, outer_transfer, parse_instruction, parse_instruction_groups,
  parse_instructions,
}
use itihas.Indexer.Sdk.{CompiledInstruction, Sdk, UiTransactionStatusMeta, VersionedTransaction}
use itihas.Indexer.Types.{InstructionGroup, Pubkey}
use itihas.Prelude.{>>=-eq-ok, All, Bytes, List, [], arith, inr, ok, some, traverse, ℕ, ◌∷◌, ◌≡◌}

module _ {E : Type 0} (sdk : Sdk E) where
  -- The address of a mint's account of an owner, under a token program: what the associated token
  -- program derives from the three keys.
  abbrev pub derived_address : Pubkey → Pubkey → Pubkey → Pubkey → Bytes
  derived_address associated program owner mint =
      (sdk.find_program_address (owner ∷ program ∷ mint ∷ []) associated).0

  -- A group names `mint`, and the accounts that belong to its two addresses under `program`.
  pub record IsEnriched (associated program mint : Pubkey) (g : InstructionGroup) : Type 0 where
    pub names_mint : g.outer_instruction.mint ≡ some mint
    pub source_derived :
        g.outer_instruction.source_ata
        ≡ some (derived_address associated program g.outer_instruction.source_address mint)
    pub destination_derived :
        g.outer_instruction.destination_ata
        ≡ some (derived_address associated program g.outer_instruction.destination_address mint)

  module _ (token extensions : Pubkey) (accounts : List Pubkey)
      (meta : UiTransactionStatusMeta) where
    outer_transfer-IsEnriched :
        (associated mint program : Pubkey) (payload : Bytes) (keys : List Pubkey) (amount : ℕ)
        {g : InstructionGroup}
        → sdk.pubkey_from_str spl_associated_token_account_program_id ≡ inr associated
        → first_balance_mint sdk meta.post_token_balances ≡ ok mint
        → outer_transfer sdk token extensions accounts meta program payload keys amount
          ≡ ok (some g)
        → IsEnriched associated token mint g
    unfolding find_associated_token_address
    outer_transfer-IsEnriched associated mint program payload keys amount ha hm h = ground arith

    parse_instruction-IsEnriched :
        (associated mint : Pubkey)
        → sdk.pubkey_from_str spl_associated_token_account_program_id ≡ inr associated
        → first_balance_mint sdk meta.post_token_balances ≡ ok mint
        → (ix : CompiledInstruction) (g : InstructionGroup)
        → parse_instruction sdk token extensions accounts meta ix ≡ ok (some g)
        → IsEnriched associated token mint g
    unfolding parse_instruction
    parse_instruction-IsEnriched associated mint ha hm ix g h =
        let (program, hp, h1) = >>=-eq-ok (checked_account accounts _ ix.program_id_index) _ h in
        let (keys, hk, h2) = >>=-eq-ok (traverse (checked_account accounts _) ix.accounts) _ h1 in
        ground (
          arith,
          λ (amount : ℕ)
                (e : outer_transfer sdk token extensions accounts meta program ix.payload keys
                    amount
                  ≡ ok (some g)).
              outer_transfer-IsEnriched associated mint program ix.payload keys amount ha hm e,
        )

-- Every group that the parser returns names the mint of the transaction's first token balance, and
-- the two addresses derived under the token program, also where the transfer is one of the token
-- extensions program.
pub parse_instruction_groups-IsEnriched :
    {E : Type 0} (sdk : Sdk E) (tx : VersionedTransaction) (meta : UiTransactionStatusMeta)
    (associated token mint : Pubkey) {groups : List InstructionGroup}
    → sdk.pubkey_from_str spl_associated_token_account_program_id ≡ inr associated
    → pubkey_of sdk token_program_text ≡ ok token
    → first_balance_mint sdk meta.post_token_balances ≡ ok mint
    → parse_instruction_groups sdk tx meta ≡ ok groups
    → All (IsEnriched sdk associated token mint) groups
unfolding parse_instruction_groups parse_instructions
parse_instruction_groups-IsEnriched sdk tx meta associated token mint ha ht hm h =
    let (accounts, hs, h1) = >>=-eq-ok (all_accounts sdk tx meta) _ h in
    let (extensions, he, h2) =
      >>=-eq-ok (pubkey_of sdk token_extensions_program_text) _ (rw ht at h1) in
    All-push_each (parse_instruction sdk token extensions accounts meta)
      (IsEnriched sdk associated token mint)
      (parse_instruction-IsEnriched sdk token extensions accounts meta associated mint ha hm)
      tx.instructions h2
