-- ===== src/Migrator/Schema.antt =====
-- The tables of migrator/src/m20240802_114508_init.rs against the rows of dao/src/generated and the
-- conflict columns of indexer/src/db.rs.
use itihas.Dao.{
  Block, BlockColumn, Column, ColumnType, TokenTransfer, Value, bytes, integer, block_column_def,
  block_column_name, block_key, block_value, column_def, column_name, date_time, timestamp,
  transfer_key, transfer_value,
}
use itihas.Indexer.Db.{block_conflict, transfer_conflict}
use itihas.Migrator.{ColumnDef, Table, blocks_table, token_transfers_table}
use itihas.Prelude.{
  ap, All, Bool, List, Option, String, String-discrete, [], filter_map, none, not, refl, some, sym,
  ◌≡◌, ◌↔◌, ◌∷◌,
}

-- The column of a table with a name.
unfoldable pub find_column : String → List ColumnDef → Option ColumnDef
find_column name [] = none
find_column name (c ∷ columns) = elim (String-discrete name c.name) [
  | yes _ ↦ some c
  | no _ ↦ find_column name columns
]

-- A column of a table as the entity defines it: of the same type, and NOT NULL exactly if the entity's
-- is not nullable. Postgres has one type for two of the types of the library.
module _ (Stored : Type 0) (stored : ColumnType → Stored) where
  abbrev pub Agrees : Table → String → ColumnType × Bool → Type 0
  Agrees table name (column_type, nullable) =
      (c : ColumnDef) × (find_column name table.columns ≡ some c)
      × (stored c.column_type ≡ stored column_type)
      × (c.not_null ≡ not nullable)

  -- Every column of the two entities is a column of its table, with the same type, and NOT NULL
  -- exactly where the entity's is not nullable, if DateTime and Timestamp are one type to the
  -- database.
  pub entities-Agree :
      stored date_time ≡ stored timestamp
      → ((c : Column) → Agrees token_transfers_table (column_name c) (column_def c))
        × ((c : BlockColumn) → Agrees blocks_table (block_column_name c) (block_column_def c))
  unfolding find_column String-discrete
  entities-Agree same = (transfers, blocks)
    where
      transfers : (c : Column) → Agrees token_transfers_table (column_name c) (column_def c)
      transfers Column.signature = (_, refl, refl, refl)
      transfers Column.source_address = (_, refl, refl, refl)
      transfers Column.program_id = (_, refl, refl, refl)
      transfers Column.destination_address = (_, refl, refl, refl)
      transfers Column.source_ata = (_, refl, refl, refl)
      transfers Column.destination_ata = (_, refl, refl, refl)
      transfers Column.mint_address = (_, refl, refl, refl)
      transfers Column.slot = (_, refl, refl, refl)
      transfers Column.amount = (_, refl, refl, refl)
      transfers Column.error = (_, refl, refl, refl)
      transfers Column.block_time = (_, refl, refl, refl)
      transfers Column.created_at = (_, refl, sym same, refl)

      blocks : (c : BlockColumn) → Agrees blocks_table (block_column_name c) (block_column_def c)
      blocks BlockColumn.slot = (_, refl, refl, refl)
      blocks BlockColumn.parent_slot = (_, refl, refl, refl)
      blocks BlockColumn.block_height = (_, refl, refl, refl)
      blocks BlockColumn.block_time = (_, refl, refl, refl)

-- The first of some columns with a name.
pub column_named : {C : Type 0} → (C → String) → List C → String → Option C
column_named name_of [] name = none
column_named name_of (c ∷ columns) name = elim (String-discrete (name_of c) name) [
  | yes _ ↦ some c
  | no _ ↦ column_named name_of columns name
]

-- The columns of a table's primary key, as columns of the entity.
abbrev pub transfer_key_columns : List Column
transfer_key_columns =
    filter_map
      (column_named column_name (
        Column.signature ∷ Column.source_address ∷ Column.program_id ∷ Column.destination_address
        ∷ Column.source_ata ∷ Column.destination_ata ∷ Column.mint_address ∷ Column.slot
        ∷ Column.amount ∷ Column.error ∷ Column.block_time ∷ Column.created_at ∷ []))
      token_transfers_table.primary_key

abbrev pub block_key_columns : List BlockColumn
block_key_columns =
    filter_map
      (column_named block_column_name (
        BlockColumn.slot ∷ BlockColumn.parent_slot ∷ BlockColumn.block_height
        ∷ BlockColumn.block_time ∷ []))
      blocks_table.primary_key

-- Two rows hold the same in some columns.
abbrev pub SameIn : {R C : Type 0} → (R → C → Value) → List C → R → R → Type 0
SameIn value columns r s = All (λ c. value r c ≡ value s c) columns

block_keys-pair :
    (r s : Block)
    → integer r.slot ≡ integer s.slot
    → integer r.block_time ≡ integer s.block_time
    → block_key r ≡ block_key s
block_keys-pair r s e1 e2 =
    let f1 : r.slot ≡ s.slot = cc in let f2 : r.block_time ≡ s.block_time = cc in rw (f1, f2)

keys-pair :
    (r s : TokenTransfer)
    → bytes r.signature ≡ bytes s.signature
    → bytes r.source_address ≡ bytes s.source_address
    → bytes r.destination_address ≡ bytes s.destination_address
    → integer r.block_time ≡ integer s.block_time
    → transfer_key r ≡ transfer_key s
keys-pair r s e1 e2 e3 e4 =
    let f1 : r.signature ≡ s.signature = cc in
    let f2 : r.source_address ≡ s.source_address = cc in
    let f3 : r.destination_address ≡ s.destination_address = cc in
    let f4 : r.block_time ≡ s.block_time = cc in rw (f1, f2, f3, f4)

-- The key of the table of transfers, its conflict columns, and the entity's key tell the same rows
-- apart; so do those of the table of blocks.
pub keys-agree :
    ((r s : TokenTransfer)
      → (SameIn transfer_value transfer_key_columns r s ↔ (transfer_key r ≡ transfer_key s))
        × (SameIn transfer_value transfer_conflict r s ↔ (transfer_key r ≡ transfer_key s)))
    × ((r s : Block)
        → (SameIn block_value block_key_columns r s ↔ (block_key r ≡ block_key s))
          × (SameIn block_value block_conflict r s ↔ (block_key r ≡ block_key s)))
unfolding column_named String-discrete
keys-agree = (
  λ r s. (
    (
      λ (e1, (e2, (e3, (e4, _)))). keys-pair r s e1 e2 e3 e4,
      λ h. (
        ap (λ k. bytes k.0) h,
        (ap (λ k. bytes k.1) h, (ap (λ k. bytes k.2) h, (ap (λ k. integer k.3) h, tt))),
      ),
    ),
    (
      λ (e1, (e4, (e2, (e3, _)))). keys-pair r s e1 e2 e3 e4,
      λ h. (
        ap (λ k. bytes k.0) h,
        (ap (λ k. integer k.3) h, (ap (λ k. bytes k.1) h, (ap (λ k. bytes k.2) h, tt))),
      ),
    ),
  ),
  λ r s. (
    (
      λ (e1, (e2, _)). block_keys-pair r s e1 e2,
      λ h. (ap (λ k. integer k.0) h, (ap (λ k. integer k.1) h, tt)),
    ),
    (
      λ (e1, (e2, _)). block_keys-pair r s e1 e2,
      λ h. (ap (λ k. integer k.0) h, (ap (λ k. integer k.1) h, tt)),
    ),
  ),
)
