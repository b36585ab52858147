-- ===== src/Indexer/Proto.antt =====
-- The messages of yellowstone_grpc_proto, down to the fields that indexer/src/parser.rs and
-- indexer/src/grpc.rs read.
use itihas.Indexer.Sdk.{CompiledInstruction, TokenBalance}
use itihas.Prelude.{Bytes, List, Option, String, ℕ, ℤ}

pub record InnerInstruction : Type 0 where
  pub program_id_index : ℕ
  pub accounts : List ℕ
  pub payload : Bytes

pub record InnerInstructions : Type 0 where
  pub outer_index : ℕ
  pub instructions : List InnerInstruction

-- `err` holds the bytes of the transaction's error.
pub record TransactionStatusMeta : Type 0 where
  pub err : Option Bytes
  pub inner_instructions : List InnerInstructions
  pub post_token_balances : List TokenBalance
  pub loaded_writable_addresses : List Bytes
  pub loaded_readonly_addresses : List Bytes

pub record Message : Type 0 where
  pub account_keys : List Bytes
  pub instructions : List CompiledInstruction

pub record SignedTransaction : Type 0 where
  pub message : Option Message

pub record SubscribeUpdateTransactionInfo : Type 0 where
  pub signature : Bytes
  pub transaction : Option SignedTransaction
  pub meta : Option TransactionStatusMeta

-- `block_time` and `block_height` hold the one field of their wrappers.
pub record SubscribeUpdateBlock : Type 0 where
  pub slot : ℕ
  pub parent_slot : ℕ
  pub blockhash : String
  pub parent_blockhash : String
  pub block_time : Option ℤ
  pub block_height : Option ℕ
  pub transactions : List SubscribeUpdateTransactionInfo
