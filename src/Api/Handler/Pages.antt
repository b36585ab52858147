-- ===== src/Api/Handler/Pages.antt =====
-- What the pages of a request hold together.
use mathlib.Core.List.{map-append}
use mathlib.Core.Option
use native.Mathlib.Nat.{mul-le-mul_right}
use itihas.Api.{Crates, by_page}
use itihas.Api.Handler.{
  GetTransactionsByAddress, TransactionList, address_bytes, build_transaction_response, from_model,
  get_transactions, names_nothing,
}
use itihas.Api.Query.{
  Condition, Order, Select, create_sorting, default_sorting, get_transactions_by_address, paginate,
  sorted,
}
use itihas.Api.Query.Meaning.{by_address}
use itihas.Api.Requests.{create_pagination, validate_pagination}
use itihas.Api.Requests.Limits.{validate_pagination_iff}
use itihas.Dao.{Column, TokenTransfer}
use itihas.Prelude.{
  Bool, Bytes, List, Option, String, [], ap, arith, concat, consecutive, false, drop, drop-drop,
  inr, ltb, map, none, ok, refl, some, suc, take, take-add, traverse, true, u32_mod, unwrap_or,
  zero, ℕ, ◌*◌, ◌+◌, ◌-◌, ◌<◌, ◌≡◌, ◌≤◌, ◌∷◌, ◌⊎◌,
}

-- `LIMIT` and `OFFSET` on the rows that a statement without them finds.
abbrev pub limited : Option ℕ → List TokenTransfer → List TokenTransfer
limited none rows = rows
limited (some n) rows = take n rows

abbrev pub skipped : Option ℕ → List TokenTransfer → List TokenTransfer
skipped none rows = rows
skipped (some n) rows = drop n rows

-- The request for a page of what another asks for.
abbrev pub at_page : GetTransactionsByAddress → ℕ → GetTransactionsByAddress
at_page payload page = record payload { page = some page; before = none; after = none }

module _ {Date : Type 0} (crates : Crates Date)
    (matching : List Condition → List (Column × Order) → List TokenTransfer)
    (all : Select → String ⊎ List TokenTransfer)
    (slices : (stmt : Select)
      → all stmt
        ≡ inr (limited stmt.limit (skipped stmt.offset (matching stmt.filters stmt.orders)))) where
  -- The rows that a request asks for, on all its pages.
  abbrev pub requested_rows :
      GetTransactionsByAddress → Option Bytes → Option Bytes → Option Bytes → List TokenTransfer
  requested_rows payload source destination mint =
      let (order, column) = create_sorting (Option.get_or payload.sort_by default_sorting) in
      let query = sorted (by_address source destination mint) column order in
      matching query.filters query.orders

  module _ (checks : Bool) (payload : GetTransactionsByAddress)
      {source destination mint : Option Bytes} (asks : names_nothing payload ≡ false)
      (source_read : address_bytes crates payload.source_address ≡ ok source)
      (destination_read : address_bytes crates payload.destination_address ≡ ok destination)
      (mint_read : address_bytes crates payload.mint_address ≡ ok mint)
      (bounded : unwrap_or payload.limit 1000 ≤ 1000) where
    abbrev room : ℕ
    room = unwrap_or payload.limit 1000

    abbrev page_rows : ℕ → List TokenTransfer
    page_rows offset = take room (drop offset (requested_rows payload source destination mint))

    abbrev sorting : Order × Option Column
    sorting = create_sorting (Option.get_or payload.sort_by default_sorting)

    valid_page :
        (page : ℕ)
        → page * room ≤ 500_000
        → validate_pagination crates checks payload.limit (some (suc page)) none none
          ≡ ok (record { limit = room; page = some (suc page); before = none; after = none })
    valid_page page within =
        let offset : (suc page - 1) * room ≡ page * room = ap (λ n. n * room) (omega arith) in
        (validate_pagination_iff crates checks payload.limit (some (suc page)) none none _
            (omega (arith, offset, within, u32_mod))).1
          (record {
            limit_bounded = bounded;
            page_allowed = (omega arith, refl, refl, omega (arith, offset, within));
            limit_kept = refl;
            page_kept = refl;
            before_read = refl;
            after_read = refl;
          })

    queried_page :
        (page : ℕ)
        → get_transactions_by_address crates all source destination mint
            (by_page (suc page))
            room
            sorting.0
            sorting.1
          ≡ ok (page_rows (page * room))
    unfolding get_transactions_by_address paginate
    queried_page page =
        let positive : ltb 0 (suc page) ≡ true = ground arith in
        let before : suc page - 1 ≡ page = omega arith in rw (positive, before, slices) refl

    get_transactions-page :
        (page : ℕ)
        → page * room ≤ 500_000
        → get_transactions crates checks all (at_page payload (suc page))
          ≡ ok (
              build_transaction_response crates
                (map (from_model crates) (page_rows (page * room)))
                room
                (by_page (suc page)))
    unfolding get_transactions create_pagination
    get_transactions-page page within =
        rw
          (
            get_transactions,
            asks,
            source_read,
            destination_read,
            mint_read,
            valid_page page within,
            queried_page page,
          )
          refl

    -- Pages one after the other hold what comes between their ends.
    pages_from :
        (count page : ℕ)
        → ((p : ℕ) → p < page + count → p * room ≤ 500_000)
        → (answers : List TransactionList) × (traverse
              (λ p. get_transactions crates checks all (at_page payload p))
              (consecutive count (suc page))
            ≡ ok answers)
          × (concat (map (λ a. a.items) answers)
              ≡ map (from_model crates) (
                  take
                    (count * room)
                    (drop (page * room) (requested_rows payload source destination mint))))
    unfolding consecutive take build_transaction_response
    pages_from zero page within =
        let nothing : 0 * room ≡ 0 = omega arith in ([], refl, rw nothing refl)
    pages_from (suc count) page within =
        let rows = requested_rows payload source destination mint in
        let first = get_transactions-page page (within page (omega arith)) in
        let (answers, e, items) =
          pages_from count (suc page) (λ p h. within p (omega (arith, h))) in
        let more : suc count * room ≡ room + count * room = omega arith in
        let next : page * room + room ≡ suc page * room = omega arith in
        (
          build_transaction_response crates (map (from_model crates) (page_rows (page * room))) room
                (by_page (suc page))
              ∷ answers,
          rw (first, e) refl,
          rw (more, take-add, map-append, drop-drop, next, items) refl,
        )

    -- Over a database that answers each statement with the rows of a `LIMIT` and an `OFFSET` among those
    -- of the same filters and order, in an order that stays as it is: for a request that names an
    -- address, with addresses that are read and a limit of at most 1000, the first pages are answered
    -- as long as the last of them has at most 500000 rows before it, and what they hold, one page
    -- after the other, are exactly the first rows that the request asks for, as many as the pages have
    -- room for: none is left out between two pages, and none comes twice.
    pub get_transactions-pages :
        (count : ℕ)
        → (count - 1) * room ≤ 500_000
        → (answers : List TransactionList) × (traverse
              (λ page. get_transactions crates checks all (at_page payload page))
              (consecutive count 1)
            ≡ ok answers)
          × (concat (map (λ answer. answer.items) answers)
              ≡ map
                  (from_model crates)
                  (take (count * room) (requested_rows payload source destination mint)))
    unfolding drop
    get_transactions-pages count within =
        let (answers, e, items) = pages_from count 0 (λ p h.
          omega
            (arith, within, mul-le-mul_right {m = p} {n = count - 1} room (omega (arith, h)))) in
        let start : 0 * room ≡ 0 = omega arith in (answers, e, rw start at items)
