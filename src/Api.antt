-- ===== src/Api.antt =====
-- The crate `api`: api/src/error.rs, and the data of api/src/db.rs and api/src/spec/mod.rs.
-- `Date` is chrono's `NaiveDate`; a date and time in UTC stands for its seconds since the epoch.
-- `Encoded` and its functions come from the crates solana_sdk, bs58 and chrono.
pub mod Requests
pub mod Query
pub mod Handler
pub mod Server
pub mod Main
pub mod Tests
use itihas.Prelude.{Bool, Bytes, Option, Result, String, err, false, ok, true, ℕ, ℤ}

pub data ApiError : Type 0 where
  pagination_exceeded_error pagination_empty_error pagination_error : ApiError
  offset_limit_exceeded_error : ApiError
  server_start_error pubkey_validation_error configuration_error database_error : String → ApiError
  transaction_not_found invalid_date invalid_input : String → ApiError

-- What the crate takes from chrono, solana_sdk and bs58. A failure whose error is dropped is `none`.
pub record Crates (Date : Type 0) : Type 0 where
  pub parse_from_str : String → String → Option Date
  pub format : Date → String → String
  pub and_hms_opt : Date → ℕ → ℕ → ℕ → Option ℤ
  pub pubkey_from_str : String → Option Bytes
  pub bs58_encode : Bytes → String

abbrev pub date_format : String
date_format = "%d/%m/%Y"

pub record PageOptions (Date : Type 0) : Type 0 where
  pub limit : ℕ
  pub page : Option ℕ
  pub before : Option Date
  pub after : Option Date

pub data Pagination (Date : Type 0) : Type 0 where
  keyset : Option Date → Option Date → Pagination Date
  by_page : ℕ → Pagination Date

-- `if cond { return Err(error) }`
abbrev pub fail_if : Bool → ApiError → Result ApiError (Unit {0})
fail_if true e = err e
fail_if false e = ok tt
