-- ===== src/Indexer/Parser/Rpc/Panics.antt =====
-- Where the parser of RPC blocks, in indexer/src/parser.rs, can panic.
use itihas.Indexer.Parser.{
  checked_account, find_associated_token_address, is_token_program, pubkey_of,
  token_extensions_program_text, token_program_text, transfer_amount, when,
}
use itihas.Indexer.Parser.Inversion.{length-traverse, push_each-ne-panic}
use itihas.Indexer.Parser.Lookup.{checked_account-ne-panic}
use itihas.Indexer.Parser.Rpc.{
  all_accounts, all_inner_instructions, first_balance_mint, inner_instruction, inner_instructions,
  inner_token_instruction, item_instructions, loaded_accounts, outer_token_instruction,
  outer_transfer, parse_instruction, parse_instruction_groups, parse_instructions,
}
use itihas.Indexer.Sdk.{
  CompiledInstruction, OptionSerializer, Sdk, TokenBalance, UiInnerInstructions, UiInstruction,
  UiLoadedAddresses, UiTransactionStatusMeta, VersionedTransaction, absent, compiled, parsed,
  present, skip,
}
use itihas.Indexer.Types.{Pubkey, parser_error}
use itihas.Prelude.{
  >>=-ne-panic, All, All-intro, All-map, Bytes, List, Option, Option-cases, [], arith, inl, inr,
  leb, length, map_err, map_err-ne-panic, panic, some, traverse, traverse-ne-panic, ℕ, ◌&&◌, ◌++◌,
  ◌∷◌, ◌≢◌, ◌≤◌,
}

-- An inner instruction whose first two accounts can be read.
abbrev pub NamesTwo : UiInstruction → Type 0
NamesTwo (compiled ix) = 2 ≤ length ix.accounts
NamesTwo parsed = Unit {0}

abbrev pub AllNameTwo : OptionSerializer (List UiInnerInstructions) → Type 0
AllNameTwo (present items) = All (λ item. All NamesTwo item.instructions) items
AllNameTwo absent = Unit {0}
AllNameTwo skip = Unit {0}

module _ {E : Type 0} (sdk : Sdk E) where
  find_associated_token_address-ne-panic :
      (owner mint : Pubkey) (program : Option Pubkey)
      → find_associated_token_address sdk owner mint program ≢ panic
  unfolding find_associated_token_address
  find_associated_token_address-ne-panic owner mint program = ground arith

  first_balance_mint-ne-panic :
      (balances : OptionSerializer (List TokenBalance)) → first_balance_mint sdk balances ≢ panic
  unfolding first_balance_mint
  first_balance_mint-ne-panic (present []) = λ p. cc
  first_balance_mint-ne-panic (present (balance ∷ _)) =
      map_err-ne-panic (sdk.pubkey_from_str balance.mint) parser_error
  first_balance_mint-ne-panic absent = λ p. cc
  first_balance_mint-ne-panic skip = λ p. cc

  loaded_accounts-ne-panic :
      (loaded : OptionSerializer UiLoadedAddresses) → loaded_accounts sdk loaded ≢ panic
  unfolding loaded_accounts
  loaded_accounts-ne-panic (present loaded) =
      traverse-ne-panic (λ address. map_err (sdk.pubkey_from_str address) parser_error)
        (λ address. map_err-ne-panic (sdk.pubkey_from_str address) parser_error)
        (loaded.writable ++ loaded.readonly)
  loaded_accounts-ne-panic absent = λ p. cc
  loaded_accounts-ne-panic skip = λ p. cc

  all_accounts-ne-panic :
      (tx : VersionedTransaction) (meta : UiTransactionStatusMeta)
      → all_accounts sdk tx meta ≢ panic
  unfolding all_accounts
  all_accounts-ne-panic tx meta = elim (Option-cases tx.address_table_lookups) [
    | inl e ↦ rw (e, all_accounts) (λ p. cc)
    | inr (tables, e) ↦
        rw (e, all_accounts)
          (>>=-ne-panic (loaded_accounts sdk meta.loaded_addresses) _
            (loaded_accounts-ne-panic meta.loaded_addresses) (λ keys _ p. cc))
  ]

  module _ (token extensions : Pubkey) (accounts : List Pubkey) where
    inner_instruction-ne-panic :
        (ix : UiInstruction)
        → NamesTwo ix
        → inner_instruction sdk token extensions accounts ix ≢ panic
    unfolding inner_instruction
    inner_instruction-ne-panic (compiled ix) two =
        >>=-ne-panic (checked_account accounts _ ix.program_id_index) _
          (checked_account-ne-panic accounts _ ix.program_id_index)
          λ program _.
            >>=-ne-panic (map_err (sdk.bs58_decode ix.payload) parser_error) _
              (map_err-ne-panic (sdk.bs58_decode ix.payload) parser_error)
              λ payload _.
                >>=-ne-panic (traverse (checked_account accounts _) ix.accounts) _
                  (traverse-ne-panic (checked_account accounts _)
                    (checked_account-ne-panic accounts _) ix.accounts)
                  λ keys hk.
                    enough program payload keys
                      (omega (arith, length-traverse (checked_account accounts _) ix.accounts hk))
      where
        enough :
            (program : Pubkey) (payload : Bytes) (keys : List Pubkey)
            → 2 ≤ length keys
            → when
                (is_token_program token extensions program)
                (inner_token_instruction sdk token extensions accounts program payload keys)
              ≢ panic
        enough program payload [] h = absurd (omega arith)
        enough program payload (a ∷ []) h = absurd (omega arith)
        enough program payload (a ∷ b ∷ ks) h = ground arith
    inner_instruction-ne-panic parsed two = λ p. cc

    all_inner_instructions-ne-panic :
        (items : List UiInnerInstructions)
        → All (λ item. All NamesTwo item.instructions) items
        → all_inner_instructions sdk token extensions accounts items ≢ panic
    unfolding all_inner_instructions item_instructions
    all_inner_instructions-ne-panic [] h = λ p. cc
    all_inner_instructions-ne-panic (item ∷ items) h =
        >>=-ne-panic (item_instructions sdk token extensions accounts item.instructions) _
          (push_each-ne-panic (inner_instruction sdk token extensions accounts) item.instructions
            (All-map inner_instruction-ne-panic item.instructions h.0))
          λ pushed _.
            >>=-ne-panic (all_inner_instructions sdk token extensions accounts items) _
              (all_inner_instructions-ne-panic items h.1) (λ rest _ p. cc)

    inner_instructions-ne-panic :
        (inner : OptionSerializer (List UiInnerInstructions))
        → AllNameTwo inner
        → inner_instructions sdk token extensions accounts inner ≢ panic
    unfolding inner_instructions
    inner_instructions-ne-panic (present items) h = all_inner_instructions-ne-panic items h
    inner_instructions-ne-panic absent h = λ p. cc
    inner_instructions-ne-panic skip h = λ p. cc

    module _ (meta : UiTransactionStatusMeta) (safe : AllNameTwo meta.inner_instructions) where
      outer_transfer-ne-panic :
          (program : Pubkey) (payload : Bytes) (a b : Pubkey) (ks : List Pubkey) (amount : ℕ)
          → outer_transfer sdk token extensions accounts meta program payload (a ∷ b ∷ ks) amount
            ≢ panic
      outer_transfer-ne-panic program payload a b ks amount =
          >>=-ne-panic (first_balance_mint sdk meta.post_token_balances) _
            (first_balance_mint-ne-panic meta.post_token_balances)
            λ mint _.
              >>=-ne-panic (find_associated_token_address sdk a mint (some token)) _
                (find_associated_token_address-ne-panic a mint (some token))
                λ source_ata _.
                  >>=-ne-panic (find_associated_token_address sdk b mint (some token)) _
                    (find_associated_token_address-ne-panic b mint (some token))
                    λ destination_ata _.
                      >>=-ne-panic
                        (inner_instructions sdk token extensions accounts meta.inner_instructions) _
                        (inner_instructions-ne-panic meta.inner_instructions safe) (λ inner _ p. cc)

      round-ne-panic :
          (program : Pubkey) (payload : Bytes) (keys : List Pubkey)
          → when
              (is_token_program token extensions program && leb 2 (length keys))
              (outer_token_instruction sdk token extensions accounts meta program payload keys)
            ≢ panic
      round-ne-panic program payload [] = ground arith
      round-ne-panic program payload (a ∷ []) = ground arith
      round-ne-panic program payload (a ∷ b ∷ ks) =
          elim (Option-cases (transfer_amount sdk payload)) [
            | inl e ↦ ground arith
            | inr (amount, e) ↦
                ground (arith, outer_transfer-ne-panic program payload a b ks amount)
          ]

      parse_instruction-ne-panic :
          (ix : CompiledInstruction)
          → parse_instruction sdk token extensions accounts meta ix ≢ panic
      unfolding parse_instruction
      parse_instruction-ne-panic ix =
          >>=-ne-panic (checked_account accounts _ ix.program_id_index) _
            (checked_account-ne-panic accounts _ ix.program_id_index)
            λ program _.
              >>=-ne-panic (traverse (checked_account accounts _) ix.accounts) _
                (traverse-ne-panic (checked_account accounts _)
                  (checked_account-ne-panic accounts _) ix.accounts)
                λ keys _. round-ne-panic program ix.payload keys

  -- The parser of a transaction does not panic if every inner instruction names at least two accounts.
  pub parse_instruction_groups-ne-panic :
      (tx : VersionedTransaction) (meta : UiTransactionStatusMeta)
      → AllNameTwo meta.inner_instructions
      → parse_instruction_groups sdk tx meta ≢ panic
  unfolding parse_instruction_groups parse_instructions
  parse_instruction_groups-ne-panic tx meta safe =
      >>=-ne-panic (all_accounts sdk tx meta) _ (all_accounts-ne-panic tx meta) λ accounts _.
        >>=-ne-panic (pubkey_of sdk token_program_text) _
          (map_err-ne-panic (sdk.pubkey_from_str token_program_text) _)
          λ token _.
            >>=-ne-panic (pubkey_of sdk token_extensions_program_text) _
              (map_err-ne-panic (sdk.pubkey_from_str token_extensions_program_text) _)
              λ extensions _.
                push_each-ne-panic (parse_instruction sdk token extensions accounts meta)
                  tx.instructions
                  (All-intro (parse_instruction-ne-panic token extensions accounts meta safe)
                    tx.instructions)
