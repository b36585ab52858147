-- ===== src/Indexer/Sdk.antt =====
-- What the indexer takes from the crates solana_sdk, solana_transaction_status, spl_token, bs58 and
-- yellowstone_grpc_proto: the fields that it reads of their structs, and their functions as the
-- fields of a parameter. `Encoded` is the encoded transaction of an RPC reply.
use itihas.Indexer.Types.{Pubkey, Signature}
use itihas.Prelude.{Bytes, List, Option, String, ℕ, ℤ, ◌⊎◌}

pub record CompiledInstruction : Type 0 where
  pub program_id_index : ℕ
  pub accounts : List ℕ
  pub payload : Bytes

-- `message.static_account_keys()`, `message.address_table_lookups()` and `message.instructions()`
-- are fields here.
pub record VersionedTransaction : Type 0 where
  pub signatures : List Signature
  pub static_account_keys : List Pubkey
  pub address_table_lookups : Option (List Pubkey)
  pub instructions : List CompiledInstruction

pub data OptionSerializer (A : Type 0) : Type 0 where
  present : A → OptionSerializer A
  absent : OptionSerializer A
  skip : OptionSerializer A

pub record UiLoadedAddresses : Type 0 where
  pub writable : List String
  pub readonly : List String

pub record TokenBalance : Type 0 where
  pub mint : String

-- The data of a compiled instruction is base 58 text.
pub record UiCompiledInstruction : Type 0 where
  pub program_id_index : ℕ
  pub accounts : List ℕ
  pub payload : String

pub data UiInstruction : Type 0 where
  compiled : UiCompiledInstruction → UiInstruction
  parsed : UiInstruction

pub record UiInnerInstructions : Type 0 where
  pub outer_index : ℕ
  pub instructions : List UiInstruction

-- `err` holds the text that the transaction's error displays.
pub record UiTransactionStatusMeta : Type 0 where
  pub err : Option String
  pub loaded_addresses : OptionSerializer UiLoadedAddresses
  pub post_token_balances : OptionSerializer (List TokenBalance)
  pub inner_instructions : OptionSerializer (List UiInnerInstructions)

pub record EncodedTransactionWithStatusMeta (Encoded : Type 0) : Type 0 where
  pub transaction : Encoded
  pub meta : Option UiTransactionStatusMeta

pub record UiConfirmedBlock (Encoded : Type 0) : Type 0 where
  pub previous_blockhash : String
  pub blockhash : String
  pub parent_slot : ℕ
  pub transactions : Option (List (EncodedTransactionWithStatusMeta Encoded))
  pub block_time : Option ℤ
  pub block_height : Option ℕ

-- spl_token's instructions: the indexer tells `Transfer` from all others.
pub data TokenInstruction : Type 0 where
  transfer : ℕ → TokenInstruction
  other : TokenInstruction

-- A failure that the source reads is given by its text (`inl`), one that it drops by `none`.
pub record Sdk (Encoded : Type 0) : Type 0 where
  pub decode : Encoded → Option VersionedTransaction
  pub pubkey_from_str : String → String ⊎ Pubkey
  pub pubkey_try_from : Bytes → Option Pubkey
  pub signature_try_from : Bytes → Option Signature
  pub find_program_address : List Bytes → Pubkey → Pubkey × ℕ
  pub unpack : Bytes → Option TokenInstruction
  pub bs58_decode : String → String ⊎ Bytes
  pub from_utf8 : Bytes → Option String
