-- ===== src/Indexer/Parser/Tests.antt =====
-- One message with one token transfer, given by RPC and by gRPC, with toy versions of the crates'
-- functions.
use text.Mathlib.Text.{◌==◌ as ◌is◌}
use itihas.Indexer.Parser.{
  spl_associated_token_account_program_id, token_extensions_program_text, token_program_text,
  pubkey_of, transfer_amount, is_token_program, checked_account,
}
use itihas.Indexer.Parser.Agreement.{parsers_agree}
use itihas.Indexer.Parser.Grpc.{inner_account, parse_block, parse_instructions}
use itihas.Indexer.Parser.Grpc.Contents.{parse_block-panic_iff}
use itihas.Indexer.Parser.Grpc.Transfers.{parse_instructions-transfers}
use itihas.Indexer.Parser.Rpc.{
  all_accounts, all_inner_instructions, item_instructions, parse_instruction_groups,
  first_balance_mint,
}
use itihas.Indexer.Parser.Rpc.Block.{parse_ui_confirmed_block}
use itihas.Indexer.Parser.Rpc.Contents.{
  BelongsTo, parse_ui_confirmed_block-contents, parse_ui_confirmed_block-ne-panic,
}
use itihas.Indexer.Parser.Rpc.Bounds.{InRange, parse_instruction_groups-InRange}
use itihas.Indexer.Parser.Rpc.Enrichment.{IsEnriched, parse_instruction_groups-IsEnriched}
use itihas.Indexer.Parser.Rpc.ShortInner.{IsShortTransfer, parse_instruction_groups-panic}
use itihas.Indexer.Parser.Rpc.Transfers.{parse_instruction_groups-transfers}
use itihas.Indexer.Parser.Spec.{summary, token_transfer}
use itihas.Indexer.Proto.{SubscribeUpdateBlock, TransactionStatusMeta}
use itihas.Indexer.Sdk.{
  CompiledInstruction, EncodedTransactionWithStatusMeta, Sdk, TokenInstruction,
  UiCompiledInstruction, UiInnerInstructions, UiConfirmedBlock, UiTransactionStatusMeta,
  VersionedTransaction, absent, compiled, present,
}
use itihas.Indexer.Types.{BlockInfo, InstructionGroup, Pubkey}
use itihas.Prelude.{
  ◌↔◌, All, Bytes, List, Option, String, [], concat, eq_of_some, filter_map, get_elem?,
  if◌then◌else◌, inr, map, none, arith, ok, panic, pos, refl, some, ◌++◌, ◌==◌, ◌≡◌, ◌≢◌, ◌⊎◌, ◌∷◌,
}

abbrev key_of_text : String → Pubkey
key_of_text text =
    if text is token_program_text
    then 1 ∷ []
    else if text is token_extensions_program_text
    then 2 ∷ []
    else if text is spl_associated_token_account_program_id
    then 3 ∷ []
    else 9 ∷ []

-- Data that starts with 3 is a transfer of the amount after it.
abbrev token_instruction : Bytes → Option TokenInstruction
token_instruction (tag ∷ amount ∷ rest) =
    if tag == 3 then some (TokenInstruction.transfer amount) else some TokenInstruction.other
token_instruction _ = none

abbrev toy : Sdk VersionedTransaction
toy = record {
  decode = λ tx. some tx;
  pubkey_from_str = λ text. inr (key_of_text text);
  pubkey_try_from = λ bytes. some bytes;
  signature_try_from = λ bytes. some bytes;
  find_program_address = λ seeds program. (concat seeds ++ program, 255);
  unpack = token_instruction;
  bs58_decode = λ text. inr (3 ∷ 8 ∷ []);
  from_utf8 = λ bytes. some "text";
}

abbrev keys : List Pubkey
keys = (10 ∷ []) ∷ (11 ∷ []) ∷ (1 ∷ []) ∷ (12 ∷ []) ∷ []

-- A transfer of 7 tokens, and an instruction of another program.
abbrev instructions : List CompiledInstruction
instructions =
    record { program_id_index = 2; accounts = 0 ∷ 1 ∷ []; payload = 3 ∷ 7 ∷ [] }
    ∷ record { program_id_index = 3; accounts = 0 ∷ []; payload = [] }
    ∷ []

abbrev message : VersionedTransaction
message = record {
  signatures = (5 ∷ []) ∷ [];
  static_account_keys = keys;
  address_table_lookups = none;
  instructions = instructions;
}

abbrev status : UiTransactionStatusMeta
status = record {
  err = none;
  loaded_addresses = absent;
  post_token_balances = present (record { mint = "mint" } ∷ []);
  inner_instructions = absent;
}

abbrev group : InstructionGroup
group = record {
  outer_instruction = record {
    program_id = 1 ∷ [];
    payload = 3 ∷ 7 ∷ [];
    accounts = keys;
    source_address = 10 ∷ [];
    destination_address = 11 ∷ [];
    mint = some (9 ∷ []);
    source_ata = some (10 ∷ 1 ∷ 9 ∷ 3 ∷ []);
    destination_ata = some (11 ∷ 1 ∷ 9 ∷ 3 ∷ []);
    amount = 7;
  };
  inner_instructions = [];
}

groups_parsed : parse_instruction_groups toy message status ≡ ok (group ∷ [])
unfolding parse_instruction_groups
groups_parsed = refl

accounts_found : all_accounts toy message status ≡ ok keys
unfolding all_accounts
accounts_found = refl

token_key : pubkey_of toy token_program_text ≡ ok (1 ∷ [])
token_key = refl

extensions_key : pubkey_of toy token_extensions_program_text ≡ ok (2 ∷ [])
extensions_key = refl

parse_instruction_groups-transfers_example :
    map summary (group ∷ [])
    ≡ filter_map
        (token_transfer (is_token_program (1 ∷ []) (2 ∷ [])) (transfer_amount toy) (get_elem? keys))
        instructions
parse_instruction_groups-transfers_example =
    parse_instruction_groups-transfers toy message status keys (1 ∷ []) (2 ∷ []) accounts_found
      token_key extensions_key groups_parsed

mint_found : first_balance_mint toy status.post_token_balances ≡ ok (9 ∷ [])
unfolding first_balance_mint
mint_found = refl

parse_instruction_groups-IsEnriched_example :
    All (IsEnriched toy (3 ∷ []) (1 ∷ []) (9 ∷ [])) (group ∷ [])
parse_instruction_groups-IsEnriched_example =
    parse_instruction_groups-IsEnriched toy message status (3 ∷ []) (1 ∷ []) (9 ∷ []) refl token_key
      mint_found groups_parsed

parse_instruction_groups-InRange_example : All (InRange keys) instructions
parse_instruction_groups-InRange_example =
    parse_instruction_groups-InRange toy message status keys accounts_found groups_parsed

-- An inner transfer with one account.
abbrev short_inner : UiCompiledInstruction
short_inner = record { program_id_index = 2; accounts = 0 ∷ []; payload = "" }

short_inner-IsShortTransfer : IsShortTransfer toy (1 ∷ []) (2 ∷ []) keys short_inner
unfolding checked_account
short_inner-IsShortTransfer = record {
  program = 1 ∷ [];
  payload = 3 ∷ 8 ∷ [];
  keys = (10 ∷ []) ∷ [];
  amount = 8;
  has_program = refl;
  of_token = refl;
  decoded = refl;
  transfers = refl;
  has_keys = refl;
  short = omega arith;
}

abbrev short_item : UiInnerInstructions
short_item = record { outer_index = 0; instructions = compiled short_inner ∷ [] }

parse_instruction_groups-panic_example :
    parse_instruction_groups toy message
      (record status { inner_instructions = present (short_item ∷ []) })
    ≡ panic
unfolding all_inner_instructions item_instructions
parse_instruction_groups-panic_example =
    parse_instruction_groups-panic toy message status (1 ∷ []) (2 ∷ []) keys [] [] short_item [] []
      short_inner accounts_found token_key extensions_key groups_parsed refl refl refl
      short_inner-IsShortTransfer

-- An inner transfer with two accounts, under the first instruction.
abbrev status_with_inner : UiTransactionStatusMeta
status_with_inner = record {
  err = none;
  loaded_addresses = absent;
  post_token_balances = present (record { mint = "mint" } ∷ []);
  inner_instructions = present (
      record {
        outer_index = 0;
        instructions =
            compiled (record { program_id_index = 2; accounts = 0 ∷ 1 ∷ []; payload = "" }) ∷ [];
      }
      ∷ []);
}

abbrev encoded : EncodedTransactionWithStatusMeta VersionedTransaction
encoded = record { transaction = message; meta = some status }

abbrev reply : UiConfirmedBlock VersionedTransaction
reply = record {
  previous_blockhash = "a";
  blockhash = "b";
  parent_slot = 6;
  transactions = some (encoded ∷ []);
  block_time = some (pos 100);
  block_height = some 5;
}

abbrev block_of_reply : BlockInfo
block_of_reply = record {
  metadata = record {
    slot = 7;
    parent_slot = 6;
    block_time = pos 100;
    blockhash = "b";
    parent_blockhash = "a";
    block_height = 5;
  };
  transactions =
      record {
        instruction_groups = group ∷ [];
        signature = 5 ∷ [];
        block_time = pos 100;
        error = none;
        slot = 7;
      }
      ∷ [];
}

block_parsed : parse_ui_confirmed_block toy reply 7 ≡ ok block_of_reply
unfolding parse_ui_confirmed_block
block_parsed = refl

parse_ui_confirmed_block-contents_example :
    (block_of_reply.metadata.slot ≡ 7)
    × (block_of_reply.metadata.parent_slot ≡ reply.parent_slot)
    × (reply.block_time ≡ some block_of_reply.metadata.block_time)
    × (reply.block_height ≡ some block_of_reply.metadata.block_height)
    × (block_of_reply.metadata.blockhash ≡ reply.blockhash)
    × (block_of_reply.metadata.parent_blockhash ≡ reply.previous_blockhash)
    × All (BelongsTo block_of_reply.metadata) block_of_reply.transactions
parse_ui_confirmed_block-contents_example =
    parse_ui_confirmed_block-contents toy reply 7 block_parsed

parse_ui_confirmed_block-ne-panic_example : parse_ui_confirmed_block toy reply 7 ≢ panic
parse_ui_confirmed_block-ne-panic_example = parse_ui_confirmed_block-ne-panic toy reply 7 (
  record {
    is_signed = λ tx e. rw (← eq_of_some e) (omega arith);
    names_two = λ m e. rw (← eq_of_some e) tt;
  },
  tt,
)

abbrev grpc_status : TransactionStatusMeta
grpc_status = record {
  err = none;
  inner_instructions = [];
  post_token_balances = record { mint = "mint" } ∷ [];
  loaded_writable_addresses = [];
  loaded_readonly_addresses = [];
}

-- The same group by gRPC, which keeps the instruction's own accounts.
abbrev grpc_group : InstructionGroup
grpc_group = record {
  outer_instruction = record {
    program_id = 1 ∷ [];
    payload = 3 ∷ 7 ∷ [];
    accounts = (10 ∷ []) ∷ (11 ∷ []) ∷ [];
    source_address = 10 ∷ [];
    destination_address = 11 ∷ [];
    mint = some (9 ∷ []);
    source_ata = some (10 ∷ 1 ∷ 9 ∷ 3 ∷ []);
    destination_ata = some (11 ∷ 1 ∷ 9 ∷ 3 ∷ []);
    amount = 7;
  };
  inner_instructions = [];
}

grpc_groups_parsed : parse_instructions toy keys grpc_status instructions ≡ ok (grpc_group ∷ [])
unfolding parse_instructions
grpc_groups_parsed = refl

parse_instructions-transfers_example :
    map summary (grpc_group ∷ [])
    ≡ filter_map
        (token_transfer
          (is_token_program (1 ∷ []) (2 ∷ []))
          (transfer_amount toy)
          (inner_account toy keys))
        instructions
parse_instructions-transfers_example =
    parse_instructions-transfers toy keys grpc_status (1 ∷ []) (2 ∷ []) instructions token_key
      extensions_key grpc_groups_parsed

parsers_agree_example : map summary (group ∷ []) ≡ map summary (grpc_group ∷ [])
parsers_agree_example =
    parsers_agree toy message status grpc_status keys accounts_found
      (refl, (refl, (refl, (refl, tt)))) groups_parsed grpc_groups_parsed

-- A block without its height.
abbrev incomplete : SubscribeUpdateBlock
incomplete = record {
  slot = 7;
  parent_slot = 6;
  blockhash = "b";
  parent_blockhash = "a";
  block_time = some (pos 100);
  block_height = none;
  transactions = [];
}

parse_block-panic_iff_example :
    (parse_block toy incomplete ≡ panic)
    ↔ ((incomplete.block_time ≡ none) ⊎ (incomplete.block_height ≡ none))
parse_block-panic_iff_example = parse_block-panic_iff toy incomplete
