-- ===== src/Api/Handler.antt =====
-- api/src/types.rs, api/src/spec and `Api::build_transaction_response`: the one query of the API.
pub mod Steps
pub mod Answers
pub mod Pages
use mathlib.Core.Option
use itihas.Api.{
  ApiError, Crates, Pagination, by_page, date_format, fail_if, invalid_input, keyset,
  pubkey_validation_error,
}
use itihas.Api.Query.{
  Select, TransactionSorting, create_sorting, default_sorting, get_transactions_by_address,
}
use itihas.Api.Requests.{create_pagination, validate_pagination}
use itihas.Dao.{TokenTransfer}
use itihas.Prelude.{
  Bool, Bytes, List, Option, Result, String, is_some, length, map, none, not, ok, ok_or, some,
  u32_mod, ℕ, ℤ, ◌%◌, ◌&&◌, ◌>>=◌, ◌>>◌, ◌⊎◌,
}

-- `types::Transaction`
pub record Transaction : Type 0 where
  pub signature : String
  pub program_address : String
  pub mint_address : Option String
  pub source_address : String
  pub destination_address : String
  pub source_ata : Option String
  pub destination_ata : Option String
  pub amount : ℤ
  pub slot : ℤ
  pub error : Option String
  pub block_time : ℤ

pub record GetTransactionsByAddress : Type 0 where
  pub source_address : Option String
  pub destination_address : Option String
  pub mint_address : Option String
  pub limit : Option ℕ
  pub page : Option ℕ
  pub before : Option String
  pub after : Option String
  pub sort_by : Option TransactionSorting

pub record TransactionList : Type 0 where
  pub total : ℕ
  pub limit : ℕ
  pub page : Option ℕ
  pub before : Option String
  pub after : Option String
  pub items : List Transaction

abbrev pub names_nothing : GetTransactionsByAddress → Bool
names_nothing payload =
    not (is_some payload.source_address)
    && not (is_some payload.destination_address)
    && not (is_some payload.mint_address)

abbrev pub missing_address : ApiError
missing_address =
    invalid_input "source_address, destination_address or mint_address must be provided"

module _ {Date : Type 0} (crates : Crates Date) where
  -- `Transaction::from`
  unfoldable pub from_model : TokenTransfer → Transaction
  from_model model = record {
    signature = crates.bs58_encode model.signature;
    program_address = crates.bs58_encode model.program_id;
    mint_address = Option.map crates.bs58_encode model.mint_address;
    source_address = crates.bs58_encode model.source_address;
    destination_address = crates.bs58_encode model.destination_address;
    source_ata = Option.map crates.bs58_encode model.source_ata;
    destination_ata = Option.map crates.bs58_encode model.destination_ata;
    amount = model.amount;
    slot = model.slot;
    error = model.error;
    block_time = model.block_time;
  }

  -- The page and the two dates of a response.
  abbrev page_fields : Pagination Date → Option ℕ × Option String × Option String
  page_fields (keyset before after) = (
    none,
    Option.map (λ date. crates.format date date_format) before,
    Option.map (λ date. crates.format date date_format) after,
  )
  page_fields (by_page page) = (some page, none, none)

  -- Casts to `u32` keep the low 32 bits.
  unfoldable pub build_transaction_response :
      List Transaction → ℕ → Pagination Date → TransactionList
  build_transaction_response transactions limit pagination = record {
    total = length transactions % u32_mod;
    limit = limit % u32_mod;
    page = Option.map (λ page. page % u32_mod) (page_fields pagination).0;
    before = (page_fields pagination).1;
    after = (page_fields pagination).2;
    items = transactions;
  }

  unfoldable pub validate_pubkey : String → Result ApiError Bytes
  validate_pubkey text = ok_or (crates.pubkey_from_str text) (pubkey_validation_error text)

  -- `if let Some(text) = … { Some(validate_pubkey(text)?.to_bytes().to_vec()) } else { None }`
  abbrev pub address_bytes : Option String → Result ApiError (Option Bytes)
  address_bytes none = ok none
  address_bytes (some text) = validate_pubkey text >>= λ key. ok (some key)

  unfoldable pub get_transactions :
      Bool
      → (Select → String ⊎ List TokenTransfer)
      → GetTransactionsByAddress
      → Result ApiError TransactionList
  unfolding validate_pubkey validate_pagination create_pagination create_sorting
      get_transactions_by_address from_model build_transaction_response
  get_transactions overflow_checks all payload = do
    fail_if (names_nothing payload) missing_address
    source ← address_bytes payload.source_address
    destination ← address_bytes payload.destination_address
    mint ← address_bytes payload.mint_address
    page ←
        validate_pagination crates overflow_checks payload.limit payload.page payload.before
          payload.after
    pagination ← create_pagination page
    let sorting = create_sorting (Option.get_or payload.sort_by default_sorting)
    models ←
        get_transactions_by_address crates all source destination mint pagination page.limit
          sorting.0 sorting.1
    ok (build_transaction_response (map (from_model) models) page.limit pagination)
