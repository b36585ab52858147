-- ===== src/Api/Requests.antt =====
-- api/src/api.rs: `Api::validate_pagination` and `Api::create_pagination`.
pub mod Limits
use itihas.Api.{
  ApiError, Crates, PageOptions, Pagination, by_page, date_format, fail_if, invalid_date, keyset,
  offset_limit_exceeded_error, pagination_empty_error, pagination_error, pagination_exceeded_error,
}
use itihas.Prelude.{
  Bool, Option, Result, String, err, if◌then◌else◌, is_some, ltb, none, ok, panic, some, u32_mod,
  unwrap_or, ℕ, ◌%◌, ◌*◌, ◌-◌, ◌==◌, ◌>>=◌, ◌>>◌, ◌||◌,
}

-- `a * b` on `u32`: a build with overflow checks panics, any other wraps around.
abbrev pub mul_u32 : Bool → ℕ → ℕ → Result ApiError ℕ
mul_u32 overflow_checks a b =
    if ltb (a * b) u32_mod
    then ok (a * b)
    else if overflow_checks
    then panic
    else ok (a * b % u32_mod)

module _ {Date : Type 0} (crates : Crates Date) where
  abbrev check_limit : Option ℕ → Result ApiError (Unit {0})
  check_limit none = ok tt
  check_limit (some limit) = fail_if (ltb 1000 limit) pagination_exceeded_error

  abbrev check_page :
      Bool → Option ℕ → Option ℕ → Option String → Option String → Result ApiError (Unit {0})
  check_page overflow_checks limit none before after = ok tt
  check_page overflow_checks limit (some page) before after = do
    fail_if (page == 0) pagination_empty_error
    fail_if (is_some before || is_some after) pagination_error
    offset ← mul_u32 overflow_checks (page - 1) (unwrap_or limit 1000)
    fail_if (ltb 500_000 offset) offset_limit_exceeded_error

  abbrev check_date : String → Option String → Result ApiError (Option Date)
  check_date name none = ok none
  check_date name (some text) = elim (crates.parse_from_str text date_format) [
    | some date ↦ ok (some date)
    | none ↦ err (invalid_date name)
  ]

  -- `limit` and `page` are `u32` values.
  unfoldable pub validate_pagination :
      Bool
      → Option ℕ
      → Option ℕ
      → Option String
      → Option String
      → Result ApiError (PageOptions Date)
  validate_pagination overflow_checks limit page before after = do
    check_limit limit
    check_page overflow_checks limit page before after
    before_date ← check_date "before" before
    after_date ← check_date "after" after
    ok (record {
      limit = unwrap_or limit 1000;
      page = page;
      before = before_date;
      after = after_date;
    })

module _ {Date : Type 0} where
  abbrev choose_pagination :
      Option ℕ → Option Date → Option Date → Result ApiError (Pagination Date)
  choose_pagination none before after = ok (keyset before after)
  choose_pagination (some page) none none = ok (by_page page)
  choose_pagination (some page) _ _ = err pagination_error

  unfoldable pub create_pagination : PageOptions Date → Result ApiError (Pagination Date)
  create_pagination options = choose_pagination options.page options.before options.after
