-- ===== src/Indexer/Parser/Rpc.antt =====
-- indexer/src/parser.rs, `PollerParser` and `TryFrom` for `Transaction`: blocks that come by RPC.
pub mod Block
pub mod Contents
pub mod Transfers
pub mod Enrichment
pub mod Bounds
pub mod Panics
pub mod ShortInner
use itihas.Indexer.Parser.{
  checked_account, find_associated_token_address, is_token_program, pubkey_of, push_each,
  token_extensions_program_text, token_program_text, transfer_amount, when,
}
use itihas.Indexer.Sdk.{
  CompiledInstruction, OptionSerializer, Sdk, TokenBalance, UiInnerInstructions, UiInstruction,
  UiLoadedAddresses, UiTransactionStatusMeta, VersionedTransaction, absent, compiled, parsed,
  present, skip,
}
use itihas.Indexer.Types.{IndexerError, Instruction, InstructionGroup, Pubkey, parser_error}
use itihas.Prelude.{
  Bytes, List, Option, Result, [], err, index, leb, length, map_err, none, ok, some, traverse, ℕ,
  ◌&&◌, ◌++◌, ◌>>=◌, ◌>>◌, ◌∷◌,
}

module _ {E : Type 0} (sdk : Sdk E) where
  -- The static keys, then the loaded writable and readonly addresses of a transaction with table
  -- lookups.
  loaded_accounts : OptionSerializer UiLoadedAddresses → Result IndexerError (List Pubkey)
  loaded_accounts (present loaded) =
      traverse (λ address. map_err (sdk.pubkey_from_str address) parser_error)
        (loaded.writable ++ loaded.readonly)
  loaded_accounts absent = ok []
  loaded_accounts skip = ok []

  unfoldable pub all_accounts :
      VersionedTransaction → UiTransactionStatusMeta → Result IndexerError (List Pubkey)
  unfolding loaded_accounts
  all_accounts tx meta = elim tx.address_table_lookups [
    | none ↦ ok tx.static_account_keys
    | some _ ↦
        loaded_accounts meta.loaded_addresses >>= λ loaded. ok (tx.static_account_keys ++ loaded)
  ]

  -- The mint of the first token balance after the transaction.
  unfoldable pub first_balance_mint :
      OptionSerializer (List TokenBalance) → Result IndexerError Pubkey
  first_balance_mint (present []) = err (parser_error "Token balance not found")
  first_balance_mint (present (balance ∷ _)) =
      map_err (sdk.pubkey_from_str balance.mint) parser_error
  first_balance_mint absent = err (parser_error "Post token balances are missing")
  first_balance_mint skip = err (parser_error "Post token balances were skipped")

  module _ (token extensions : Pubkey) (accounts : List Pubkey) where
    -- The push of an inner transfer; the accounts are indexed without a test of their number.
    abbrev inner_transfer :
        Pubkey → Bytes → List Pubkey → ℕ → Result IndexerError (Option Instruction)
    inner_transfer program payload keys amount = do
      source ← index keys 0
      destination ← index keys 1
      ok (
          some (record {
            program_id = program;
            payload = payload;
            accounts = keys;
            source_address = source;
            destination_address = destination;
            mint = none;
            source_ata = none;
            destination_ata = none;
            amount = amount;
          }))

    abbrev inner_token_instruction :
        Pubkey → Bytes → List Pubkey → Result IndexerError (Option Instruction)
    inner_token_instruction program payload keys = elim (transfer_amount sdk payload) [
      | none ↦ ok none
      | some amount ↦ inner_transfer program payload keys amount
    ]

    -- One round of the loop over inner instructions.
    unfoldable pub inner_instruction : UiInstruction → Result IndexerError (Option Instruction)
    unfolding checked_account
    inner_instruction (compiled ix) = do
      program ← checked_account accounts "Inner program ID index out of bounds" ix.program_id_index
      payload ← map_err (sdk.bs58_decode ix.payload) parser_error
      keys ← traverse (checked_account accounts "Inner account index out of bounds") ix.accounts
      when (is_token_program token extensions program)
          (inner_token_instruction program payload keys)
    inner_instruction parsed = err (parser_error "Parsed instructions are not implemented yet")

    -- The loop over the instructions of one item.
    unfoldable pub item_instructions : List UiInstruction → Result IndexerError (List Instruction)
    unfolding inner_instruction
    item_instructions = push_each inner_instruction

    -- The loop over the items.
    unfoldable pub all_inner_instructions :
        List UiInnerInstructions → Result IndexerError (List Instruction)
    unfolding item_instructions
    all_inner_instructions [] = ok []
    all_inner_instructions (item ∷ items) = do
      pushed ← item_instructions item.instructions
      rest ← all_inner_instructions items
      ok (pushed ++ rest)

    unfoldable pub inner_instructions :
        OptionSerializer (List UiInnerInstructions) → Result IndexerError (List Instruction)
    unfolding all_inner_instructions
    inner_instructions (present items) = all_inner_instructions items
    inner_instructions absent = ok []
    inner_instructions skip = ok []

    module _ (meta : UiTransactionStatusMeta) where
      -- The body of `if let TokenInstruction::Transfer { amount }`.
      abbrev outer_transfer :
          Pubkey → Bytes → List Pubkey → ℕ → Result IndexerError (Option InstructionGroup)
      outer_transfer program payload keys amount = do
        source ← index keys 0
        destination ← index keys 1
        mint ← first_balance_mint meta.post_token_balances
        source_ata ← find_associated_token_address sdk source mint (some token)
        destination_ata ← find_associated_token_address sdk destination mint (some token)
        inner ← inner_instructions meta.inner_instructions
        ok (
            some (record {
              outer_instruction = record {
                program_id = program;
                payload = payload;
                accounts = accounts;
                source_address = source;
                destination_address = destination;
                mint = some mint;
                source_ata = some source_ata;
                destination_ata = some destination_ata;
                amount = amount;
              };
              inner_instructions = inner;
            }))

      abbrev outer_token_instruction :
          Pubkey → Bytes → List Pubkey → Result IndexerError (Option InstructionGroup)
      outer_token_instruction program payload keys = elim (transfer_amount sdk payload) [
        | none ↦ ok none
        | some amount ↦ outer_transfer program payload keys amount
      ]

      -- One round of the loop over the message's instructions.
      unfoldable pub parse_instruction :
          CompiledInstruction → Result IndexerError (Option InstructionGroup)
      unfolding checked_account first_balance_mint inner_instructions find_associated_token_address
      parse_instruction ix = do
        program ← checked_account accounts "Program ID index out of bounds" ix.program_id_index
        keys ← traverse (checked_account accounts "Account index out of bounds") ix.accounts
        when (is_token_program token extensions program && leb 2 (length keys))
            (outer_token_instruction program ix.payload keys)

      unfoldable pub parse_instructions :
          List CompiledInstruction → Result IndexerError (List InstructionGroup)
      unfolding parse_instruction
      parse_instructions = push_each parse_instruction

  unfoldable pub parse_instruction_groups :
      VersionedTransaction → UiTransactionStatusMeta → Result IndexerError (List InstructionGroup)
  unfolding all_accounts parse_instructions
  parse_instruction_groups tx meta = do
    accounts ← all_accounts tx meta
    token ← pubkey_of sdk token_program_text
    extensions ← pubkey_of sdk token_extensions_program_text
    parse_instructions token extensions accounts meta tx.instructions
