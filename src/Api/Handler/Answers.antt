-- ===== src/Api/Handler/Answers.antt =====
-- What the one query of the API answers.
use mathlib.Core.Option
use itihas.Api.{Crates, Pagination, fail_if}
use itihas.Api.Handler.Steps.{get_transactions-IsAnswered}
use itihas.Api.Handler.{
  GetTransactionsByAddress, Transaction, TransactionList, address_bytes, build_transaction_response,
  from_model, get_transactions, missing_address, names_nothing, validate_pubkey,
}
use itihas.Api.Query.{Select}
use itihas.Api.Query.Meaning.{NamesAddresses, Selects, get_transactions_by_address-NamesAddresses}
use itihas.Api.Requests.Limits.{validated_limit, validated_limit_kept}
use itihas.Dao.{TokenTransfer}
use itihas.Prelude.{
  >>=-eq-ok, All, All-map, All-of_map, Bool, Bytes, List, Option, String, ap, arith, eq_of_some,
  inr, length, length-map, map, none, ok, ok-injective, ok_or-eq-ok, some, sym, unwrap_or, ℕ, ◌∙◌,
  ◌≡◌, ◌≢◌, ◌≤◌, ◌⊎◌,
}

-- An item names the addresses of the request, as the request spells them.
abbrev pub NamesRequested : GetTransactionsByAddress → Transaction → Type 0
NamesRequested payload t =
    ((text : String) → payload.source_address ≡ some text → t.source_address ≡ text)
    × ((text : String) → payload.destination_address ≡ some text → t.destination_address ≡ text)
    × ((text : String) → payload.mint_address ≡ some text → t.mint_address ≡ some text)

-- What a list that answers a request is.
pub record IsAnswer (payload : GetTransactionsByAddress) (r : TransactionList) : Type 0 where
  pub asked :
      (payload.source_address ≢ none)
      ⊎ (payload.destination_address ≢ none)
      ⊎ (payload.mint_address ≢ none)
  pub counted : r.total ≡ length r.items
  pub within_limit : length r.items ≤ r.limit
  pub limit_bounded : r.limit ≤ 1000
  pub limit_kept : r.limit ≡ unwrap_or payload.limit 1000
  pub named : All (NamesRequested payload) r.items

named_something :
    (payload : GetTransactionsByAddress)
    → fail_if (names_nothing payload) missing_address ≡ ok tt
    → (payload.source_address ≢ none)
      ⊎ (payload.destination_address ≢ none)
      ⊎ (payload.mint_address ≢ none)
named_something payload h = ground arith

module _ {Date : Type 0} (crates : Crates Date) (all : Select → String ⊎ List TokenTransfer)
    (runs : (stmt : Select) (rows : List TokenTransfer) → all stmt ≡ inr rows → Selects stmt rows)
    (canonical : (text : String) (key : Bytes)
      → crates.pubkey_from_str text ≡ some key
      → crates.bs58_encode key ≡ text) where
  address_bytes_lem :
      (address : Option String) (bytes : Option Bytes) (text : String)
      → address_bytes crates address ≡ ok bytes
      → address ≡ some text
      → (key : Bytes) × (bytes ≡ some key) × (crates.bs58_encode key ≡ text)
  unfolding validate_pubkey
  address_bytes_lem none bytes text h e = cc
  address_bytes_lem (some t) bytes text h e =
      let (key, e1, e2) = >>=-eq-ok (validate_pubkey crates t) _ h in
      (
        key,
        sym (ok-injective e2),
        canonical t key (ok_or-eq-ok (crates.pubkey_from_str t) _ e1) ∙ eq_of_some e,
      )

  optional_named :
      (address : Option String) (bytes found : Option Bytes) (text : String)
      → address_bytes crates address ≡ ok bytes
      → ((a : Bytes) → bytes ≡ some a → found ≡ some a)
      → address ≡ some text
      → Option.map crates.bs58_encode found ≡ some text
  optional_named address bytes found text h named e =
      let (key, e1, e2) = address_bytes_lem address bytes text h e in rw (named key e1) (ap some e2)

  required_named :
      (address : Option String) (bytes : Option Bytes) (found : Bytes) (text : String)
      → address_bytes crates address ≡ ok bytes
      → ((a : Bytes) → bytes ≡ some a → found ≡ a)
      → address ≡ some text
      → crates.bs58_encode found ≡ text
  required_named address bytes found text h named e =
      let (key, e1, e2) = address_bytes_lem address bytes text h e in rw (named key e1) e2

  from_model-NamesRequested :
      (payload : GetTransactionsByAddress) (source destination mint : Option Bytes)
      → address_bytes crates payload.source_address ≡ ok source
      → address_bytes crates payload.destination_address ≡ ok destination
      → address_bytes crates payload.mint_address ≡ ok mint
      → (row : TokenTransfer) → NamesAddresses source destination mint row
      → NamesRequested payload (from_model crates row)
  unfolding from_model
  from_model-NamesRequested payload source destination mint hs hd hm row n = (
    λ text. required_named payload.source_address source row.source_address text hs n.0,
    λ text.
        required_named payload.destination_address destination row.destination_address text hd n.1,
    λ text. optional_named payload.mint_address mint row.mint_address text hm n.2,
  )

  build_transaction_response_bounds :
      (items : List Transaction) (limit : ℕ) (pagination : Pagination Date)
      → length items ≤ limit
      → limit ≤ 1000
      → let r = build_transaction_response crates items limit pagination in
        (r.total ≡ length r.items) × (length r.items ≤ r.limit) × (r.limit ≡ limit)
  unfolding build_transaction_response
  build_transaction_response_bounds items limit pagination few h =
      (omega arith, omega arith, omega arith)

  -- Over a database that runs statements as documented, and a base 58 text that is the only one of
  -- its key: a list that answers a request holds at most the requested number of items (1000 by
  -- default, and never more than 1000), says how many it holds, and each item names the addresses of
  -- the request as the request spells them.
  pub get_transactions-IsAnswer :
      (overflow_checks : Bool) (payload : GetTransactionsByAddress) {r : TransactionList}
      → get_transactions crates overflow_checks all payload ≡ ok r
      → IsAnswer payload r
  unfolding build_transaction_response
  get_transactions-IsAnswer overflow_checks payload h =
      let a = get_transactions-IsAnswered crates all overflow_checks payload h in
      let (few, named) =
        get_transactions_by_address-NamesAddresses crates all runs a.source a.destination a.mint
          a.pagination a.page.limit a.sorting.0 a.sorting.1 a.queried in
      let valid =
        validated_limit crates overflow_checks payload.limit payload.page payload.before
          payload.after a.page a.page_read in
      let kept =
        validated_limit_kept crates overflow_checks payload.limit payload.page payload.before
          payload.after a.page a.page_read in
      let (counted, within, same) =
        build_transaction_response_bounds (map (from_model crates) a.models) a.page.limit
          a.pagination (omega (arith, length-map (from_model crates) a.models, few, valid)) valid in
      rw (← a.answered) (record {
        asked = named_something payload a.asks;
        counted = counted;
        within_limit = within;
        limit_bounded = rw same valid;
        limit_kept = same ∙ kept;
        named = All-of_map (NamesRequested payload) (from_model crates) a.models (
            All-map
              (from_model-NamesRequested payload a.source a.destination a.mint a.source_read
                a.destination_read a.mint_read)
              a.models named);
      })
