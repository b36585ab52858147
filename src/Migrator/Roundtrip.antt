-- ===== src/Migrator/Roundtrip.antt =====
-- What the migrations of migrator/src do to the tables of a database, and that reverting them undoes
-- it. sea_orm_migration applies them in the order of `migrations`, and reverts them from the last.
use mathlib.Core.List.{reverse}
use mathlib.Core.Logic.{ite}
use itihas.Migrator.{
  Statement, Table, blocks_table, create_domain, create_extension, blocks_hypertable,
  transfers_hypertable, transfers_retention, create_index, create_table, drop_index, drop_table,
  execute_sql, migrations, token_transfers_table,
}
use itihas.Prelude.{
  All, inl, inr, ◌⊎◌, List, Option, Result, String, String-discrete, [], >>=-eq-ok, ap, concat,
  fun_ext, map, none, ok, ok-injective, refl, some, sym, ◌>>=◌, ◌≡◌, ◌∙◌, ◌∷◌,
}

-- `IF NOT EXISTS` keeps a table that is there.
abbrev or_else : Option Table → Table → Option Table
or_else none t = some t
or_else (some old) t = some old

-- What a statement that is executed does to the tables by their names; for SQL, where it is one of
-- the texts below.
unfoldable pub effect : Statement → (String → Option Table) → String → Option Table
effect (create_table t) tables name =
    ite (String-discrete name t.name) (or_else (tables name) t) (tables name)
effect (drop_table dropped) tables name = ite (String-discrete name dropped) none (tables name)
effect (execute_sql text) tables name = tables name
effect (create_index index on columns) tables name = tables name
effect (drop_index index on) tables name = tables name

-- The texts that the migrations execute. TimescaleDB keeps its tables in schemas of its own, a domain
-- is no table, a table that is made a hypertable keeps its columns and its key, and a retention policy
-- drops rows.
abbrev pub IsSideSql : String → Type 0
IsSideSql text =
    (text ≡ create_extension)
    ⊎ (text ≡ create_domain)
    ⊎ (text ≡ transfers_hypertable)
    ⊎ (text ≡ transfers_retention)
    ⊎ (text ≡ blocks_hypertable)

-- The statements whose effect on the tables is documented; of other SQL nothing is said.
abbrev pub IsDocumented : Statement → Type 0
IsDocumented (execute_sql text) = IsSideSql text
IsDocumented _ = Unit {0}

-- The database behind the `SchemaManager`: it may refuse a statement; `tables` are those of the schema
-- in which the migrations make theirs, by their names.
pub record SchemaManager : Type 1 where
  pub Database : Type 0
  pub execute : Statement → Database → Result String Database
  pub tables : Database → String → Option Table
  pub documented :
      (statement : Statement) (database next : Database)
      → IsDocumented statement
      → execute statement database ≡ ok next
      → (name : String) → tables next name ≡ effect statement (tables database) name

module _ (manager : SchemaManager) where
  -- The statements of a migration, each under `?`.
  abbrev pub run : List Statement → manager.Database → Result String manager.Database
  run [] database = ok database
  run (statement ∷ rest) database = manager.execute statement database >>= λ next. run rest next

abbrev effects : List Statement → (String → Option Table) → String → Option Table
effects [] tables = tables
effects (statement ∷ rest) tables = effects rest (effect statement tables)

abbrev pub up_all : List Statement
up_all = concat (map (λ m. m.up) migrations)

abbrev pub down_all : List Statement
down_all = concat (map (λ m. m.down) (reverse migrations))

run-effects :
    (manager : SchemaManager) (statements : List Statement) (database next : manager.Database)
    → All IsDocumented statements
    → run manager statements database ≡ ok next
    → manager.tables next ≡ effects statements (manager.tables database)
run-effects manager [] database next d h = ap manager.tables (sym (ok-injective h))
run-effects manager (statement ∷ rest) database next d h =
    let (middle, first, then) = >>=-eq-ok (manager.execute statement database) _ h in
    let here = fun_ext (manager.documented statement database middle d.0 first) in
    run-effects manager rest middle next d.1 then ∙ ap (effects rest) here

-- A name is that of one of the two tables, or of neither.
decided :
    (tables : String → Option Table) (name : String) (transfers : Dec (name ≡ "token_transfers"))
    (blocks : Dec (name ≡ "blocks"))
    → tables "blocks" ≡ none
    → tables "token_transfers" ≡ none
    → (let first = ite blocks (or_else (tables name) blocks_table) (tables name) in
        let second = ite transfers (or_else first token_transfers_table) first in
        ite transfers none (ite blocks none second))
      ≡ tables name
decided tables name (yes e) blocks no_blocks no_transfers = sym (ap tables e ∙ no_transfers)
decided tables name (no other) (yes e) no_blocks no_transfers = sym (ap tables e ∙ no_blocks)
decided tables name (no other) (no another) no_blocks no_transfers = refl

reverted_tables :
    (tables : String → Option Table) (name : String)
    → tables "blocks" ≡ none
    → tables "token_transfers" ≡ none
    → effects down_all (effects up_all tables) name ≡ tables name
unfolding effect
reverted_tables tables name no_blocks no_transfers =
    decided tables name (String-discrete name "token_transfers") (String-discrete name "blocks")
      no_blocks no_transfers

up-IsDocumented : All IsDocumented up_all
up-IsDocumented = (
  inl refl,
  (
    inr (inl refl),
    (
      tt,
      (
        tt,
        (
          inr (inr (inl refl)),
          (inr (inr (inr (inl refl))), (inr (inr (inr (inr refl))), (tt, (tt, tt)))),
        ),
      ),
    ),
  ),
)

down-IsDocumented : All IsDocumented down_all
down-IsDocumented = (tt, (tt, (tt, (tt, tt))))

-- If a database has neither of the two tables and accepts all the migrations, it has both as they are
-- declared; and if it then accepts that they are reverted, it has by every name the table that it had
-- at first. The tables are those of the schema in which the migrations make theirs.
pub migrations-roundtrip :
    (manager : SchemaManager) (database migrated reverted : manager.Database)
    → manager.tables database "blocks" ≡ none
    → manager.tables database "token_transfers" ≡ none
    → run manager up_all database ≡ ok migrated
    → run manager down_all migrated ≡ ok reverted
    → (manager.tables migrated "blocks" ≡ some blocks_table)
      × (manager.tables migrated "token_transfers" ≡ some token_transfers_table)
      × ((name : String) → manager.tables reverted name ≡ manager.tables database name)
unfolding effect String-discrete
migrations-roundtrip manager database migrated reverted no_blocks no_transfers up down =
    let tables = manager.tables database in
    let upwards = run-effects manager up_all database migrated up-IsDocumented up in
    let downwards = run-effects manager down_all migrated reverted down-IsDocumented down in
    (
      ap (λ f. f "blocks") upwards ∙ ap (λ t. or_else t blocks_table) no_blocks,
      ap (λ f. f "token_transfers") upwards
          ∙ ap (λ t. or_else t token_transfers_table) no_transfers,
      λ name.
          ap (λ f. f name) downwards
          ∙ ap (λ f. effects down_all f name) upwards
          ∙ reverted_tables tables name no_blocks no_transfers,
    )
