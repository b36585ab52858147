-- ===== src/Api/Query.antt =====
-- api/src/db.rs: the statements that the API builds, as sea_orm's `Select` collects them.
-- `all` runs a statement; it belongs to sea_orm and the database, and is a parameter.
pub mod Meaning
use mathlib.Core.Option
use itihas.Api.{ApiError, Crates, Pagination, by_page, database_error, keyset}
use itihas.Dao.{Column, TokenTransfer}
use itihas.Prelude.{
  Bytes, List, Option, Result, String, [], if◌then◌else◌, ltb, map_err, none, ok, some, unwrap, ℕ,
  ℤ, ◌*◌, ◌++◌, ◌-◌, ◌>>=◌, ◌>>◌, ◌∷◌, ◌⊎◌,
}

-- A condition of the `WHERE` clause: `column.eq(bytes)`, `column.lt(time)`, `column.gt(time)`.
pub data Condition : Type 0 where
  equals : Column → Bytes → Condition
  less greater : Column → ℤ → Condition

pub data Order : Type 0 where
  asc desc : Order

pub record Select : Type 0 where
  pub filters : List Condition
  pub orders : List (Column × Order)
  pub offset : Option ℕ
  pub limit : Option ℕ

-- `Entity::find()`
abbrev pub find : Select
find = record { filters = []; orders = []; offset = none; limit = none }

-- `.filter(…)`, `.order_by(…)`: they come after those that are there.
abbrev pub filter : Select → Condition → Select
filter stmt c = record stmt { filters = stmt.filters ++ c ∷ [] }

abbrev pub order_by : Select → Column → Order → Select
order_by stmt column order = record stmt { orders = stmt.orders ++ (column, order) ∷ [] }

module _ {Date : Type 0} (crates : Crates Date) where
  abbrev before_filter : Select → Column → Option Date → Result ApiError Select
  before_filter stmt column none = ok stmt
  before_filter stmt column (some before) = do
    before_utc ← unwrap (crates.and_hms_opt before 23 59 59)
    ok (filter stmt (less column before_utc))

  abbrev after_filter : Select → Column → Option Date → Result ApiError Select
  after_filter stmt column none = ok stmt
  after_filter stmt column (some after) = do
    after_utc ← unwrap (crates.and_hms_opt after 0 0 0)
    ok (filter stmt (greater column after_utc))

  abbrev page_filter : Pagination Date → ℕ → Select → Column → Result ApiError Select
  page_filter (keyset before after) limit stmt column = do
    stmt' ← before_filter stmt column before
    after_filter stmt' column after
  page_filter (by_page page) limit stmt column =
      ok (if ltb 0 page then record stmt { offset = some ((page - 1) * limit) } else stmt)

  unfoldable pub paginate : Pagination Date → ℕ → Select → Column → Result ApiError Select
  paginate pagination limit stmt column = do
    stmt' ← page_filter pagination limit stmt column
    ok (record stmt' { limit = some limit })

pub data TransactionSortBy : Type 0 where
  created by_slot : TransactionSortBy

pub data TransactionSortDirection : Type 0 where
  ascending descending : TransactionSortDirection

pub record TransactionSorting : Type 0 where
  pub sort_by : TransactionSortBy
  pub sort_direction : Option TransactionSortDirection

-- `TransactionSorting::default()` and `TransactionSortDirection::default()`
abbrev pub default_direction : TransactionSortDirection
default_direction = descending

abbrev pub default_sorting : TransactionSorting
default_sorting = record { sort_by = by_slot; sort_direction = some default_direction }

abbrev sort_column : TransactionSortBy → Column
sort_column created = Column.block_time
sort_column by_slot = Column.slot

abbrev sort_order : TransactionSortDirection → Order
sort_order descending = desc
sort_order ascending = asc

unfoldable pub create_sorting : TransactionSorting → Order × Option Column
create_sorting sorting = (
  sort_order (Option.get_or sorting.sort_direction default_direction),
  some (sort_column sorting.sort_by),
)

-- `if let Some(address) = … { query = query.filter(column.eq(address)) }`
abbrev pub address_filter : Select → Column → Option Bytes → Select
address_filter stmt column none = stmt
address_filter stmt column (some address) = filter stmt (equals column address)

abbrev pub sorted : Select → Option Column → Order → Select
sorted stmt none direction = stmt
sorted stmt (some column) direction =
    order_by (order_by stmt column direction) Column.slot direction

-- `.all(db).await.map_err(…)`, on the text of the error.
abbrev rows_of :
    (Select → String ⊎ List TokenTransfer) → Select → Result ApiError (List TokenTransfer)
rows_of all stmt = map_err (all stmt) database_error

module _ {Date : Type 0} (crates : Crates Date) (all : Select → String ⊎ List TokenTransfer) where
  unfoldable pub get_transactions_by_address :
      Option Bytes
      → Option Bytes
      → Option Bytes
      → Pagination Date
      → ℕ
      → Order
      → Option Column
      → Result ApiError (List TokenTransfer)
  unfolding paginate
  get_transactions_by_address source destination mint pagination limit sort_direction sort_by = do
    let query = address_filter find Column.source_address source
    let query = address_filter query Column.destination_address destination
    let query = address_filter query Column.mint_address mint
    let query = sorted query sort_by sort_direction
    stmt ← paginate crates pagination limit query Column.block_time
    rows_of all stmt

  unfoldable pub get_transactions_by_mint :
      Bytes → Pagination Date → ℕ → Order → Option Column → Result ApiError (List TokenTransfer)
  unfolding paginate
  get_transactions_by_mint mint pagination limit sort_direction sort_by = do
    let query = filter find (equals Column.mint_address mint)
    let query = sorted query sort_by sort_direction
    stmt ← paginate crates pagination limit query Column.block_time
    rows_of all stmt
