-- ===== src/Api/Handler/Steps.antt =====
-- The steps by which the handler of api/src/spec/api_impl.rs comes to an answer, read off the answer.
use mathlib.Core.Option
use itihas.Api.{Crates, PageOptions, Pagination, database_error, fail_if}
use itihas.Api.Handler.{
  GetTransactionsByAddress, TransactionList, address_bytes, build_transaction_response, from_model,
  get_transactions, missing_address, names_nothing,
}
use itihas.Api.Query.{
  Order, Select, create_sorting, default_sorting, get_transactions_by_address, paginate,
}
use itihas.Api.Requests.{create_pagination, validate_pagination}
use itihas.Dao.{Column, TokenTransfer}
use itihas.Prelude.{
  >>=-eq-ok, Bool, Bytes, List, Option, String, ap, inr, map, map_err-eq-ok, ok, ok-injective, sym,
  ◌≡◌, ◌⊎◌,
}

-- The steps by which a request comes to its answer.
pub record IsAnswered {Date : Type 0} (crates : Crates Date)
    (all : Select → String ⊎ List TokenTransfer) (overflow_checks : Bool)
    (payload : GetTransactionsByAddress) (r : TransactionList) : Type 0 where
  pub asks : fail_if (names_nothing payload) missing_address ≡ ok tt
  pub source : Option Bytes
  pub destination : Option Bytes
  pub mint : Option Bytes
  pub page : PageOptions Date
  pub pagination : Pagination Date
  pub models : List TokenTransfer
  pub source_read : address_bytes crates payload.source_address ≡ ok source
  pub destination_read : address_bytes crates payload.destination_address ≡ ok destination
  pub mint_read : address_bytes crates payload.mint_address ≡ ok mint
  pub page_read :
      validate_pagination crates overflow_checks payload.limit payload.page payload.before
        payload.after
      ≡ ok page
  pub sorting : Order × Option Column
  pub queried :
      get_transactions_by_address crates all source destination mint pagination page.limit sorting.0
        sorting.1
      ≡ ok models
  pub answered :
      build_transaction_response crates (map (from_model crates) models) page.limit pagination ≡ r

pub get_transactions-IsAnswered :
    {Date : Type 0} (crates : Crates Date) (all : Select → String ⊎ List TokenTransfer)
    (overflow_checks : Bool) (payload : GetTransactionsByAddress) {r : TransactionList}
    → get_transactions crates overflow_checks all payload ≡ ok r
    → IsAnswered crates all overflow_checks payload r
unfolding get_transactions
get_transactions-IsAnswered crates all overflow_checks payload h =
    let (_, e0, h0) = >>=-eq-ok (fail_if (names_nothing payload) missing_address) _ h in
    let (source, es, h1) = >>=-eq-ok (address_bytes crates payload.source_address) _ h0 in
    let (destination, ed, h2) = >>=-eq-ok (address_bytes crates payload.destination_address) _ h1 in
    let (mint, em, h3) = >>=-eq-ok (address_bytes crates payload.mint_address) _ h2 in
    let (page, ev, h4) =
      >>=-eq-ok
        (validate_pagination crates overflow_checks payload.limit payload.page payload.before
          payload.after)
        _ h3 in
    let (pagination, ep, h5) = >>=-eq-ok (create_pagination page) _ h4 in
    let sorting = create_sorting (Option.get_or payload.sort_by default_sorting) in
    let (models, eq, h6) =
      >>=-eq-ok
        (get_transactions_by_address crates all source destination mint pagination page.limit
          sorting.0 sorting.1)
        _ h5 in
    record {
      asks = e0;
      source = source;
      destination = destination;
      mint = mint;
      page = page;
      pagination = pagination;
      models = models;
      source_read = es;
      destination_read = ed;
      mint_read = em;
      page_read = ev;
      sorting = sorting;
      queried = eq;
      answered = ok-injective h6;
    }

-- A list that answers a request has one item for each row of some statement that the database ran.
pub get_transactions-items :
    {Date : Type 0} (crates : Crates Date) (all : Select → String ⊎ List TokenTransfer)
    (overflow_checks : Bool) (payload : GetTransactionsByAddress) {r : TransactionList}
    → get_transactions crates overflow_checks all payload ≡ ok r
    → (stmt : Select) × (rows : List TokenTransfer) × (all stmt ≡ inr rows)
      × (r.items ≡ map (from_model crates) rows)
unfolding get_transactions_by_address build_transaction_response
get_transactions-items crates all overflow_checks payload h =
    let a = get_transactions-IsAnswered crates all overflow_checks payload h in
    let (stmt, _, e) = >>=-eq-ok (paginate crates a.pagination a.page.limit _ _) _ a.queried in
    (
      stmt,
      a.models,
      map_err-eq-ok (all stmt) database_error e,
      ap (λ answer. answer.items) (sym a.answered),
    )
