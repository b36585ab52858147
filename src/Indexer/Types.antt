-- ===== src/Indexer/Types.antt =====
-- indexer/src/types.rs and error.rs: the data that the indexer's parts exchange.
-- A `Pubkey` and a `Signature` stand for their bytes, which `to_bytes().to_vec()` hands out. Slots
-- and amounts are `u64` values; times are `i64` values. A field `data` of the source is named
-- `payload` here.
use itihas.Prelude.{Bytes, List, Option, String, [], pos, ℕ, ℤ}

abbrev pub Pubkey : Type 0
Pubkey = Bytes

abbrev pub Signature : Type 0
Signature = Bytes

-- To avoid exceeding the 64k total parameter limit.
abbrev pub max_sql_inserts : ℕ
max_sql_inserts = 5000

pub record Instruction : Type 0 where
  pub program_id : Pubkey
  pub payload : Bytes
  pub accounts : List Pubkey
  pub source_address : Bytes
  pub destination_address : Bytes
  pub mint : Option Bytes
  pub source_ata : Option Bytes
  pub destination_ata : Option Bytes
  pub amount : ℕ

pub record InstructionGroup : Type 0 where
  pub outer_instruction : Instruction
  pub inner_instructions : List Instruction

pub record Transaction : Type 0 where
  pub instruction_groups : List InstructionGroup
  pub signature : Signature
  pub block_time : ℤ
  pub error : Option String
  pub slot : ℕ

pub record BlockMetadata : Type 0 where
  pub slot : ℕ
  pub parent_slot : ℕ
  pub block_time : ℤ
  pub blockhash : String
  pub parent_blockhash : String
  pub block_height : ℕ

pub record BlockInfo : Type 0 where
  pub metadata : BlockMetadata
  pub transactions : List Transaction

-- `BlockInfo::default()`, from the derived `Default` of both structs.
abbrev pub default_block : BlockInfo
default_block = record {
  metadata = record {
    slot = 0;
    parent_slot = 0;
    block_time = pos 0;
    blockhash = "";
    parent_blockhash = "";
    block_height = 0;
  };
  transactions = [];
}

pub data IndexerError : Type 0 where
  batch_init_networking_error configuration_error serializaton_error messenger_error :
      String → IndexerError
  parser_error database_error cache_storage_write_error asset_index_error : String → IndexerError
