-- ===== src/Api/Query/Meaning.antt =====
-- What a statement asks for, and the filters of the statements that the API builds.
use itihas.Api.{Crates, Pagination, by_page, database_error, keyset}
use itihas.Api.Query.{
  Condition, Order, Select, address_filter, after_filter, before_filter, equals, find,
  get_transactions_by_address, greater, less, page_filter, paginate, sorted,
}
use itihas.Dao.{Column, TokenTransfer}
use itihas.Prelude.{
  >>=-eq-ok, All, All-append, All-append_left, All-append_right, All-map, Bool-cases, Bytes, List,
  Option, String, eq_of_some, inl, inr, length, ltb, map_err-eq-ok, none, ok, ok-injective, refl,
  some, unwrap, ℕ, ℤ, ◌<ℤ◌, ◌≡◌, ◌≤◌, ◌⊎◌,
}

-- The text of a row in a column of bytes, unless it is null.
abbrev pub bytes_at : TokenTransfer → Column → Option Bytes
bytes_at row Column.signature = some row.signature
bytes_at row Column.source_address = some row.source_address
bytes_at row Column.program_id = some row.program_id
bytes_at row Column.destination_address = some row.destination_address
bytes_at row Column.source_ata = row.source_ata
bytes_at row Column.destination_ata = row.destination_ata
bytes_at row Column.mint_address = row.mint_address
bytes_at row _ = none

abbrev pub number_at : TokenTransfer → Column → Option ℤ
number_at row Column.slot = some row.slot
number_at row Column.amount = some row.amount
number_at row Column.block_time = some row.block_time
number_at row Column.created_at = some row.created_at
number_at row _ = none

-- A row meets a condition.
abbrev pub Holds : TokenTransfer → Condition → Type 0
Holds row (equals column bytes) = bytes_at row column ≡ some bytes
Holds row (less column bound) = (v : ℤ) × (number_at row column ≡ some v) × (v <ℤ bound)
Holds row (greater column bound) = (v : ℤ) × (number_at row column ≡ some v) × (bound <ℤ v)

-- What the documentation of `SELECT … WHERE … LIMIT n` promises of a run that succeeds: at most `n`
-- rows, and each of them meets every condition.
abbrev pub Selects : Select → List TokenTransfer → Type 0
Selects stmt rows =
    ((n : ℕ) → stmt.limit ≡ some n → length rows ≤ n)
    × All (λ row. All (Holds row) stmt.filters) rows

module _ {Date : Type 0} (crates : Crates Date) where
  before_filter_keeps :
      (query : Select) (column : Column) (date : Option Date) (row : TokenTransfer) {stmt : Select}
      → before_filter crates query column date ≡ ok stmt
      → All (Holds row) stmt.filters
      → All (Holds row) query.filters
  before_filter_keeps query column none row e h = rw (ok-injective e) h
  before_filter_keeps query column (some date) row e h =
      let (t, e1, e2) = >>=-eq-ok (unwrap (crates.and_hms_opt date 23 59 59)) _ e in
      All-append_left (Holds row) query.filters _ (rw (← ok-injective e2) at h)

  after_filter_keeps :
      (query : Select) (column : Column) (date : Option Date) (row : TokenTransfer) {stmt : Select}
      → after_filter crates query column date ≡ ok stmt
      → All (Holds row) stmt.filters
      → All (Holds row) query.filters
  after_filter_keeps query column none row e h = rw (ok-injective e) h
  after_filter_keeps query column (some date) row e h =
      let (t, e1, e2) = >>=-eq-ok (unwrap (crates.and_hms_opt date 0 0 0)) _ e in
      All-append_left (Holds row) query.filters _ (rw (← ok-injective e2) at h)

  page_filter_keeps :
      (pagination : Pagination Date) (limit : ℕ) (query : Select) (column : Column)
      (row : TokenTransfer) {stmt : Select}
      → page_filter crates pagination limit query column ≡ ok stmt
      → All (Holds row) stmt.filters
      → All (Holds row) query.filters
  page_filter_keeps (keyset before after) limit query column row e h =
      let (stmt', e1, e2) = >>=-eq-ok (before_filter crates query column before) _ e in
      before_filter_keeps query column before row e1
        (after_filter_keeps stmt' column after row e2 h)
  page_filter_keeps (by_page page) limit query column row e h = elim (Bool-cases (ltb 0 page)) [
    | inl e1 ↦ rw (← ok-injective (rw e1 at e)) at h
    | inr e1 ↦ rw (← ok-injective (rw e1 at e)) at h
  ]

  -- `paginate` keeps the filters that are there and sets the limit.
  pub paginate_keeps :
      (pagination : Pagination Date) (limit : ℕ) (query : Select) (column : Column) {stmt : Select}
      → paginate crates pagination limit query column ≡ ok stmt
      → (stmt.limit ≡ some limit)
        × ((row : TokenTransfer) → All (Holds row) stmt.filters → All (Holds row) query.filters)
  unfolding paginate
  paginate_keeps pagination limit query column h =
      let (stmt', e, h1) = >>=-eq-ok (page_filter crates pagination limit query column) _ h in
      rw (← ok-injective h1) (refl, λ row. page_filter_keeps pagination limit query column row e)

-- The rows that a query by addresses returns name the addresses that it was given.
abbrev pub NamesAddresses : Option Bytes → Option Bytes → Option Bytes → TokenTransfer → Type 0
NamesAddresses source destination mint row =
    ((a : Bytes) → source ≡ some a → row.source_address ≡ a)
    × ((a : Bytes) → destination ≡ some a → row.destination_address ≡ a)
    × ((a : Bytes) → mint ≡ some a → row.mint_address ≡ some a)

-- Adding an address's filter keeps the others and asks for the address.
address_filter_keeps :
    (stmt : Select) (column : Column) (address : Option Bytes) (row : TokenTransfer)
    → All (Holds row) (address_filter stmt column address).filters
    → All (Holds row) stmt.filters × ((a : Bytes) → address ≡ some a → bytes_at row column ≡ some a)
address_filter_keeps stmt column none row h = (h, λ a e. cc)
address_filter_keeps stmt column (some b) row h = (
  All-append_left (Holds row) stmt.filters _ h,
  λ a e. rw (← eq_of_some e) (All-append_right (Holds row) stmt.filters _ h).0,
)

-- A row that meets the conditions and has the address, if there is one, meets the conditions with the
-- address's filter.
pub address_filter_meets :
    (stmt : Select) (column : Column) (address : Option Bytes) (row : TokenTransfer)
    → All (Holds row) stmt.filters
    → ((a : Bytes) → address ≡ some a → bytes_at row column ≡ some a)
    → All (Holds row) (address_filter stmt column address).filters
address_filter_meets stmt column none row h named = h
address_filter_meets stmt column (some b) row h named =
    All-append (Holds row) stmt.filters _ h (named b refl, tt)

pub sorted_keeps :
    (stmt : Select) (column : Option Column) (direction : Order)
    → (sorted stmt column direction).filters ≡ stmt.filters
sorted_keeps stmt none direction = refl
sorted_keeps stmt (some column) direction = refl

-- The statement of a query by addresses, before it is paged.
abbrev pub by_address : Option Bytes → Option Bytes → Option Bytes → Select
by_address source destination mint =
    address_filter
      (address_filter (address_filter find Column.source_address source) Column.destination_address
        destination)
      Column.mint_address mint

by_address-NamesAddresses :
    (source destination mint : Option Bytes) (row : TokenTransfer)
    → All (Holds row) (by_address source destination mint).filters
    → NamesAddresses source destination mint row
by_address-NamesAddresses source destination mint row h =
    let q1 = address_filter find Column.source_address source in
    let q2 = address_filter q1 Column.destination_address destination in
    let (h2, m) = address_filter_keeps q2 Column.mint_address mint row h in
    let (h1, d) = address_filter_keeps q1 Column.destination_address destination row h2 in
    let (_, s) = address_filter_keeps find Column.source_address source row h1 in
    (λ a e. eq_of_some (s a e), λ a e. eq_of_some (d a e), m)

module _ {Date : Type 0} (crates : Crates Date) (all : Select → String ⊎ List TokenTransfer)
    (runs : (stmt : Select) (rows : List TokenTransfer)
      → all stmt ≡ inr rows
      → Selects stmt rows) where
  -- Over a database that runs statements as documented, a query returns at most `limit` rows, and
  -- each of them names the addresses that were asked for.
  pub get_transactions_by_address-NamesAddresses :
      (source destination mint : Option Bytes) (pagination : Pagination Date) (limit : ℕ)
      (direction : Order) (sort_by : Option Column) {rows : List TokenTransfer}
      → get_transactions_by_address crates all source destination mint pagination limit direction
          sort_by
        ≡ ok rows
      → (length rows ≤ limit) × All (NamesAddresses source destination mint) rows
  unfolding get_transactions_by_address
  get_transactions_by_address-NamesAddresses source destination mint pagination limit direction
        sort_by {rows} h =
      let query = by_address source destination mint in
      let (stmt, e, h1) =
        >>=-eq-ok
          (paginate crates pagination limit (sorted query sort_by direction) Column.block_time) _
          h in
      let (has_limit, keeps) =
        paginate_keeps crates pagination limit (sorted query sort_by direction) Column.block_time
          e in
      let (bounded, meets) = runs stmt rows (map_err-eq-ok (all stmt) database_error h1) in
      (
        bounded limit has_limit,
        All-map
            (λ row k.
              by_address-NamesAddresses source destination mint row
                (rw (← sorted_keeps query sort_by direction) (keeps row k)))
            rows meets,
      )
