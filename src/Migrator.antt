-- ===== src/Migrator.antt =====
-- migrator/src: the migrations of the schema, as the sequences of statements that they execute, each
-- under `?`. Names are those that `derive(Iden)` gives.
pub mod Roundtrip
pub mod Schema
mod Tests
use itihas.Dao.{ColumnType, big_integer, binary, text, timestamp, timestamp_with_time_zone}
use itihas.Prelude.{Bool, List, String, [], false, true, ◌∷◌}

-- model/table.rs
pub data Blocks : Type 0 where
  table slot parent_slot block_height block_time : Blocks

pub data TokenTransfers : Type 0 where
  table signature source_address destination_address source_ata destination_ata : TokenTransfers
  mint_address program_id amount slot error block_time created_at : TokenTransfers

abbrev pub blocks_iden : Blocks → String
blocks_iden table = "blocks"
blocks_iden slot = "slot"
blocks_iden parent_slot = "parent_slot"
blocks_iden block_height = "block_height"
blocks_iden block_time = "block_time"

abbrev pub token_transfers_iden : TokenTransfers → String
token_transfers_iden table = "token_transfers"
token_transfers_iden signature = "signature"
token_transfers_iden source_address = "source_address"
token_transfers_iden destination_address = "destination_address"
token_transfers_iden source_ata = "source_ata"
token_transfers_iden destination_ata = "destination_ata"
token_transfers_iden mint_address = "mint_address"
token_transfers_iden program_id = "program_id"
token_transfers_iden amount = "amount"
token_transfers_iden slot = "slot"
token_transfers_iden error = "error"
token_transfers_iden block_time = "block_time"
token_transfers_iden created_at = "created_at"

-- `ColumnDef`; the default is CURRENT_TIMESTAMP, or there is none.
pub record ColumnDef : Type 0 where
  pub name : String
  pub column_type : ColumnType
  pub not_null : Bool
  pub default_now : Bool

-- `Table::create().if_not_exists()`
pub record Table : Type 0 where
  pub name : String
  pub columns : List ColumnDef
  pub key_name : String
  pub primary_key : List String

pub data Statement : Type 0 where
  execute_sql : String → Statement
  create_table : Table → Statement
  drop_table : String → Statement
  create_index : String → String → List String → Statement
  drop_index : String → String → Statement

pub record Migration : Type 0 where
  pub up : List Statement
  pub down : List Statement

abbrev column : String → ColumnType → ColumnDef
column name column_type = record {
  name = name;
  column_type = column_type;
  not_null = true;
  default_now = false;
}

abbrev nullable : String → ColumnType → ColumnDef
nullable name column_type = record (column name column_type) { not_null = false }

abbrev pub blocks_table : Table
blocks_table = record {
  name = blocks_iden table;
  columns =
      column (blocks_iden slot) big_integer
      ∷ column (blocks_iden parent_slot) big_integer
      ∷ column (blocks_iden block_height) big_integer
      ∷ column (blocks_iden block_time) big_integer
      ∷ [];
  key_name = "pk_blocks";
  primary_key = blocks_iden slot ∷ token_transfers_iden block_time ∷ [];
}

abbrev pub token_transfers_table : Table
token_transfers_table = record {
  name = token_transfers_iden table;
  columns =
      column (token_transfers_iden signature) binary
      ∷ column (token_transfers_iden source_address) binary
      ∷ column (token_transfers_iden program_id) binary
      ∷ column (token_transfers_iden destination_address) binary
      ∷ nullable (token_transfers_iden source_ata) binary
      ∷ nullable (token_transfers_iden destination_ata) binary
      ∷ nullable (token_transfers_iden mint_address) binary
      ∷ column (token_transfers_iden slot) big_integer
      ∷ column (token_transfers_iden amount) big_integer
      ∷ nullable (token_transfers_iden error) text
      ∷ column (token_transfers_iden block_time) timestamp_with_time_zone
      ∷ record (column (token_transfers_iden created_at) timestamp) { default_now = true }
      ∷ [];
  key_name = "pk_token_transfers";
  primary_key =
      token_transfers_iden signature
      ∷ token_transfers_iden source_address
      ∷ token_transfers_iden destination_address
      ∷ token_transfers_iden block_time
      ∷ [];
}

-- The texts of the two blocks of SQL that make the extension and the domain, if they are missing, with
-- their white space shortened.
abbrev pub create_extension : String
create_extension =
    "DO $$ BEGIN IF NOT EXISTS (SELECT 1 FROM pg_extension WHERE extname = 'timescaledb') THEN CREATE EXTENSION timescaledb CASCADE; END IF; END $$;"

abbrev pub create_domain : String
create_domain =
    "DO $$ DECLARE type_exists BOOLEAN := EXISTS (SELECT 1 FROM pg_type WHERE typname = 'bigint2'); BEGIN IF NOT type_exists THEN CREATE DOMAIN bigint2 AS numeric(20, 0); END IF; END $$;"

-- m20240802_114508_init
abbrev pub init : Migration
init = record {
  up =
      execute_sql create_extension
      ∷ execute_sql create_domain
      ∷ create_table blocks_table
      ∷ create_table token_transfers_table
      ∷ [];
  down = drop_table (blocks_iden table) ∷ drop_table (token_transfers_iden table) ∷ [];
}

abbrev pub transfers_hypertable : String
transfers_hypertable = "SELECT create_hypertable('token_transfers', 'block_time');"

abbrev pub transfers_retention : String
transfers_retention = "SELECT add_retention_policy('token_transfers', INTERVAL '3 months');"

abbrev pub blocks_hypertable : String
blocks_hypertable = "SELECT create_hypertable('blocks', 'block_time');"

-- m20240805_174804_hypertable
abbrev pub hypertable : Migration
hypertable = record {
  up =
      execute_sql transfers_hypertable
      ∷ execute_sql transfers_retention
      ∷ execute_sql blocks_hypertable
      ∷ [];
  down = [];
}

-- m20240822_181224_create_indices
abbrev pub create_indices : Migration
create_indices = record {
  up =
      create_index "idx_token_transfers_mint_address" (token_transfers_iden table)
        (token_transfers_iden mint_address ∷ [])
      ∷ create_index "idx_token_transfers_slot" (token_transfers_iden table)
          (token_transfers_iden slot ∷ [])
      ∷ [];
  down =
      drop_index "idx_token_transfers_mint_address" (token_transfers_iden table)
      ∷ drop_index "idx_token_transfers_slot" (token_transfers_iden table)
      ∷ [];
}

-- `Migrator::migrations`
abbrev pub migrations : List Migration
migrations = init ∷ hypertable ∷ create_indices ∷ []
