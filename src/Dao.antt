-- ===== src/Dao.antt =====
-- dao/src/generated: the rows of the tables `token_transfers` and `blocks`, and their columns.
-- A time stamp of the database stands for its seconds since the epoch.
use itihas.Prelude.{
  Bool, Bytes, Option, String, String-discrete, false, none, some, true, ℕ_discrete, ℤ,
}

-- `token_transfers::Model`
pub record TokenTransfer : Type 0 where
  pub signature : Bytes
  pub source_address : Bytes
  pub program_id : Bytes
  pub destination_address : Bytes
  pub source_ata : Option Bytes
  pub destination_ata : Option Bytes
  pub mint_address : Option Bytes
  pub slot : ℤ
  pub amount : ℤ
  pub error : Option String
  pub block_time : ℤ
  pub created_at : ℤ

-- `token_transfers::Column`
pub data Column : Type 0 where
  signature source_address program_id destination_address source_ata destination_ata : Column
  mint_address slot amount error block_time created_at : Column

-- `blocks::Model`
pub record Block : Type 0 where
  pub slot : ℤ
  pub parent_slot : ℤ
  pub block_height : ℤ
  pub block_time : ℤ

-- `PrimaryKey` of both tables: the values of the key columns of a row.
abbrev pub transfer_key : TokenTransfer → Bytes × Bytes × Bytes × ℤ
transfer_key row = (row.signature, row.source_address, row.destination_address, row.block_time)

abbrev pub block_key : Block → ℤ × ℤ
block_key row = (row.slot, row.block_time)

-- `blocks::Column`
pub data BlockColumn : Type 0 where
  slot parent_slot block_height block_time : BlockColumn

-- The types of columns that the code names.
pub data ColumnType : Type 0 where
  binary big_integer text timestamp date_time timestamp_with_time_zone : ColumnType

-- `token_transfers::Column::def`: the type, and whether the column is nullable.
abbrev pub column_def : Column → ColumnType × Bool
column_def signature = (binary, false)
column_def source_address = (binary, false)
column_def program_id = (binary, false)
column_def destination_address = (binary, false)
column_def source_ata = (binary, true)
column_def destination_ata = (binary, true)
column_def mint_address = (binary, true)
column_def slot = (big_integer, false)
column_def amount = (big_integer, false)
column_def error = (text, true)
column_def block_time = (timestamp_with_time_zone, false)
column_def created_at = (date_time, false)

-- `blocks::Column::def`
abbrev pub block_column_def : BlockColumn → ColumnType × Bool
block_column_def slot = (big_integer, false)
block_column_def parent_slot = (big_integer, false)
block_column_def block_height = (big_integer, false)
block_column_def block_time = (big_integer, false)

-- `DeriveColumn`: the names of the columns.
abbrev pub column_name : Column → String
column_name signature = "signature"
column_name source_address = "source_address"
column_name program_id = "program_id"
column_name destination_address = "destination_address"
column_name source_ata = "source_ata"
column_name destination_ata = "destination_ata"
column_name mint_address = "mint_address"
column_name slot = "slot"
column_name amount = "amount"
column_name error = "error"
column_name block_time = "block_time"
column_name created_at = "created_at"

abbrev pub block_column_name : BlockColumn → String
block_column_name slot = "slot"
block_column_name parent_slot = "parent_slot"
block_column_name block_height = "block_height"
block_column_name block_time = "block_time"

-- What a row holds in a column.
pub data Value : Type 0 where
  bytes : Bytes → Value
  integer : ℤ → Value
  string : String → Value
  null : Value

abbrev pub nullable_bytes : Option Bytes → Value
nullable_bytes none = null
nullable_bytes (some b) = bytes b

abbrev pub nullable_string : Option String → Value
nullable_string none = null
nullable_string (some s) = string s

abbrev pub transfer_value : TokenTransfer → Column → Value
transfer_value row signature = bytes row.signature
transfer_value row source_address = bytes row.source_address
transfer_value row program_id = bytes row.program_id
transfer_value row destination_address = bytes row.destination_address
transfer_value row source_ata = nullable_bytes row.source_ata
transfer_value row destination_ata = nullable_bytes row.destination_ata
transfer_value row mint_address = nullable_bytes row.mint_address
transfer_value row slot = integer row.slot
transfer_value row amount = integer row.amount
transfer_value row error = nullable_string row.error
transfer_value row block_time = integer row.block_time
transfer_value row created_at = integer row.created_at

abbrev pub block_value : Block → BlockColumn → Value
block_value row slot = integer row.slot
block_value row parent_slot = integer row.parent_slot
block_value row block_height = integer row.block_height
block_value row block_time = integer row.block_time

pub Block-discrete : Discrete Block
Block-discrete = hlevel ℕ_discrete

pub TokenTransfer-discrete : Discrete TokenTransfer
TokenTransfer-discrete = hlevel (ℕ_discrete, String-discrete)
