-- ===== src/Indexer/Parser/Grpc.antt =====
-- indexer/src/parser.rs, `GrpcParser`: blocks that come by the gRPC stream.
pub mod Transfers
pub mod Contents
use mathlib.Core.Option
use itihas.Indexer.Parser.{
  find_associated_token_address, flatten, is_token_program, pubkey_of, push_each,
  token_extensions_program_text, token_program_text, transfer_amount, unless_empty, when,
}
use itihas.Indexer.Proto.{
  InnerInstruction, InnerInstructions, SubscribeUpdateBlock, SubscribeUpdateTransactionInfo,
  TransactionStatusMeta,
}
use itihas.Indexer.Sdk.{CompiledInstruction, Sdk, TokenBalance}
use itihas.Indexer.Types.{
  BlockInfo, IndexerError, Instruction, InstructionGroup, Pubkey, Transaction, parser_error,
}
use itihas.Prelude.{
  Bytes, List, Option, Result, String, [], err, filter_map, get_elem?, if◌then◌else◌, index, leb,
  length, map, none, ok, ok_or, some, traverse, unwrap, ℕ, ℤ, ◌&&◌, ◌++◌, ◌>>=◌, ◌>>◌, ◌∷◌,
}

module _ {E : Type 0} (sdk : Sdk E) where
  unfoldable pub transaction_error_to_string : Bytes → String
  transaction_error_to_string error = elim (sdk.from_utf8 error) [
    | some text ↦ text
    | none ↦ "Invalid UTF-8 in TransactionError"
  ]

  -- The first balance's mint: `.first().map(from_str).transpose()?.ok_or(…)?`
  unfoldable pub first_mint : List TokenBalance → Result IndexerError Pubkey
  first_mint [] = err (parser_error "Token balance not found")
  first_mint (balance ∷ _) = pubkey_of sdk balance.mint

  module _ (accounts : List Bytes) where
    -- An index into the account keys, under the text for an index out of range and the text for
    -- bytes that are no key.
    unfoldable pub key_at : String → String → ℕ → Result IndexerError Pubkey
    key_at out_of_bounds malformed i =
        if leb (length accounts) i
        then err (parser_error out_of_bounds)
        else index accounts i >>= λ bytes.
            ok_or (sdk.pubkey_try_from bytes) (parser_error malformed)

    -- The closure of the inner instructions, which drops what it cannot read.
    abbrev pub inner_account : ℕ → Option Pubkey
    inner_account i = elim (get_elem? accounts i) [
      | none ↦ none
      | some bytes ↦ sdk.pubkey_try_from bytes
    ]

    module _ (program source destination : Pubkey) (amount : ℕ) where
      -- An inner instruction, under the program, the addresses and the amount of the outer one.
      abbrev inner_instruction : InnerInstruction → Instruction
      inner_instruction ix = record {
        program_id = program;
        payload = ix.payload;
        accounts = filter_map inner_account ix.accounts;
        source_address = source;
        destination_address = destination;
        mint = none;
        source_ata = none;
        destination_ata = none;
        amount = amount;
      }

      unfoldable pub inner_instructions : List InnerInstructions → List Instruction
      inner_instructions [] = []
      inner_instructions (item ∷ items) =
          map inner_instruction item.instructions ++ inner_instructions items

    module _ (meta : TransactionStatusMeta) where
      -- The body of `if let Ok(TokenInstruction::Transfer { amount })`.
      abbrev outer_transfer :
          Pubkey
          → Bytes
          → List Pubkey
          → Pubkey
          → Pubkey
          → ℕ
          → Result IndexerError (Option InstructionGroup)
      outer_transfer program payload keys source destination amount = do
        mint ← first_mint meta.post_token_balances
        source_ata ← find_associated_token_address sdk source mint (some program)
        destination_ata ← find_associated_token_address sdk destination mint (some program)
        ok (
            some (record {
              outer_instruction = record {
                program_id = program;
                payload = payload;
                accounts = keys;
                source_address = source;
                destination_address = destination;
                mint = some mint;
                source_ata = some source_ata;
                destination_ata = some destination_ata;
                amount = amount;
              };
              inner_instructions =
                  inner_instructions program source destination amount meta.inner_instructions;
            }))

      abbrev outer_token_instruction :
          Pubkey → Bytes → List Pubkey → Result IndexerError (Option InstructionGroup)
      outer_token_instruction program payload keys = do
        source ← index keys 0
        destination ← index keys 1
        elim (transfer_amount sdk payload) [
          | none ↦ ok none
          | some amount ↦ outer_transfer program payload keys source destination amount
        ]

      -- One round of the loop over the message's instructions.
      unfoldable pub parse_instruction :
          CompiledInstruction → Result IndexerError (Option InstructionGroup)
      unfolding key_at first_mint inner_instructions find_associated_token_address
      parse_instruction ix = do
        program ←
            key_at "Program ID index out of bounds" "error parsing program id" ix.program_id_index
        keys ←
            traverse (key_at "Account index out of bounds" "error getting accounts from grpc")
              ix.accounts
        token ← pubkey_of sdk token_program_text
        extensions ← pubkey_of sdk token_extensions_program_text
        when (is_token_program token extensions program && leb 2 (length keys))
            (outer_token_instruction program ix.payload keys)

      unfoldable pub parse_instructions :
          List CompiledInstruction → Result IndexerError (List InstructionGroup)
      unfolding parse_instruction
      parse_instructions = push_each parse_instruction

  unfoldable pub parse_transaction :
      ℕ → ℤ → SubscribeUpdateTransactionInfo → Result IndexerError (Option Transaction)
  unfolding parse_instructions transaction_error_to_string
  parse_transaction slot block_time info = do
    meta ← ok_or info.meta (parser_error "Missing metadata")
    signature ←
        ok_or (sdk.signature_try_from info.signature) (parser_error "error parsing signature")
    signed ← ok_or info.transaction (parser_error "Missing transaction")
    message ← ok_or signed.message (parser_error "Missing message")
    let accounts =
        message.account_keys ++ (meta.loaded_writable_addresses ++ meta.loaded_readonly_addresses)
    groups ← parse_instructions accounts meta message.instructions
    ok (
        unless_empty groups (record {
          instruction_groups = groups;
          signature = signature;
          block_time = block_time;
          error = Option.map transaction_error_to_string meta.err;
          slot = slot;
        }))

  -- A block without its time or its height panics.
  unfoldable pub parse_block : SubscribeUpdateBlock → Result IndexerError BlockInfo
  unfolding parse_transaction
  parse_block block = do
    block_time ← unwrap block.block_time
    block_height ← unwrap block.block_height
    transactions ← traverse (parse_transaction block.slot block_time) block.transactions
    ok (record {
      metadata = record {
        slot = block.slot;
        parent_slot = block.parent_slot;
        block_time = block_time;
        blockhash = block.blockhash;
        parent_blockhash = block.parent_blockhash;
        block_height = block_height;
      };
      transactions = flatten transactions;
    })
