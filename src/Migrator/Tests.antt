-- ===== src/Migrator/Tests.antt =====
-- A database that accepts every statement, from no table to the two and back.
use itihas.Dao.{
  BlockColumn, Column, ColumnType, big_integer, binary, block_column_def, block_column_name,
  column_def, column_name, date_time, text, timestamp, timestamp_with_time_zone,
}
use itihas.Migrator.{Table, blocks_table, token_transfers_table}
use itihas.Migrator.Roundtrip.{SchemaManager, down_all, effect, migrations-roundtrip, run, up_all}
use itihas.Migrator.Schema.{Agrees, entities-Agree}
use itihas.Prelude.{Option, Result, String, none, ok, ok-injective, refl, some, sym, ap, ◌≡◌}

abbrev manager : SchemaManager
manager = record {
  Database = String → Option Table;
  execute = λ statement tables. ok (effect statement tables);
  tables = λ tables. tables;
  documented = λ statement tables next documented h name. ap (λ f. f name) (sym (ok-injective h));
}

abbrev no_tables : String → Option Table
no_tables name = none

-- The outcome of statements that are all accepted.
abbrev left_by : Result String (String → Option Table) → String → Option Table
left_by (ok tables) = tables
left_by _ = no_tables

abbrev migrated : String → Option Table
migrated = left_by (run manager up_all no_tables)

abbrev reverted : String → Option Table
reverted = left_by (run manager down_all migrated)

migrations-roundtrip_example :
    (migrated "blocks" ≡ some blocks_table)
    × (migrated "token_transfers" ≡ some token_transfers_table)
    × ((name : String) → reverted name ≡ none)
migrations-roundtrip_example =
    migrations-roundtrip manager no_tables migrated reverted refl refl refl refl

-- The names of the types in Postgres.
abbrev postgres : ColumnType → String
postgres binary = "bytea"
postgres big_integer = "bigint"
postgres text = "text"
postgres timestamp = "timestamp"
postgres date_time = "timestamp"
postgres timestamp_with_time_zone = "timestamp with time zone"

entities-Agree_example :
    ((c : Column) → Agrees String postgres token_transfers_table (column_name c) (column_def c))
    × ((c : BlockColumn)
        → Agrees String postgres blocks_table (block_column_name c) (block_column_def c))
entities-Agree_example = entities-Agree String postgres refl
