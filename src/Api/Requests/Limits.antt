-- ===== src/Api/Requests/Limits.antt =====
-- The requests that `validate_pagination` of api/src/api.rs lets through.
use itihas.Api.{Crates, PageOptions, Pagination, by_page, date_format, keyset}
use itihas.Api.Requests.{
  check_date, check_limit, check_page, create_pagination, validate_pagination,
}
use itihas.Prelude.{
  >>=-eq-ok, Bool, Option, String, arith, false, none, ok, ok-injective, panic, refl, some, true,
  u32_mod, unwrap_or, ℕ, ◌%◌, ◌*◌, ◌-◌, ◌<◌, ◌↔◌, ◌≡◌, ◌≢◌, ◌≤◌,
}

-- What a request may ask for: a page that exists, with no date beside it, and at most 500000 rows
-- before it.
abbrev pub PageAllowed : Option ℕ → Option ℕ → Option String → Option String → Type 0
PageAllowed limit none before after = Unit {0}
PageAllowed limit (some page) before after =
    (0 < page) × (before ≡ none) × (after ≡ none) × ((page - 1) * unwrap_or limit 1000 ≤ 500_000)

-- The offset of the page is a `u32` value.
abbrev pub OffsetFits : Option ℕ → Option ℕ → Type 0
OffsetFits limit none = Unit {0}
OffsetFits limit (some page) = (page - 1) * unwrap_or limit 1000 < u32_mod

module _ {Date : Type 0} (crates : Crates Date) where
  -- The date that a text names, or none for no text.
  abbrev pub Reads : Option String → Option Date → Type 0
  Reads none date = date ≡ none
  Reads (some text) date = (crates.parse_from_str text date_format ≡ date) × (date ≢ none)

  -- The options that a valid request stands for.
  pub record IsAccepted (limit page : Option ℕ) (before after : Option String)
      (o : PageOptions Date) : Type 0 where
    pub limit_bounded : unwrap_or limit 1000 ≤ 1000
    pub page_allowed : PageAllowed limit page before after
    pub limit_kept : o.limit ≡ unwrap_or limit 1000
    pub page_kept : o.page ≡ page
    pub before_read : Reads before o.before
    pub after_read : Reads after o.after

  check_page-PageAllowed :
      (checks : Bool) (limit page : Option ℕ) (before after : Option String)
      → OffsetFits limit page
      → check_page crates checks limit page before after ≡ ok tt
      → PageAllowed limit page before after
  check_page-PageAllowed checks limit none before after f h = tt
  check_page-PageAllowed checks limit (some page) before after f h = ground arith

  PageAllowed-check_page :
      (checks : Bool) (limit page : Option ℕ) (before after : Option String)
      → PageAllowed limit page before after
      → check_page crates checks limit page before after ≡ ok tt
  PageAllowed-check_page checks limit none before after a = refl
  PageAllowed-check_page checks limit (some page) before after a = ground arith

  check_limit_bounded :
      (limit : Option ℕ) → (check_limit crates limit ≡ ok tt) ↔ (unwrap_or limit 1000 ≤ 1000)
  check_limit_bounded none = (λ _. omega arith, λ _. refl)
  check_limit_bounded (some limit) = ground arith

  check_date-Reads :
      (name : String) (text : Option String) (date : Option Date)
      → (check_date crates name text ≡ ok date) ↔ Reads text date
  check_date-Reads name none date = ground arith
  check_date-Reads name (some text) date = ground arith

  -- For a page whose offset does not overflow, the validation accepts exactly the requests with a
  -- limit of at most 1000, dates that parse, and either no page or a page from 1 on, with no date
  -- beside it, that has at most 500000 rows before it, so that the first row of a page may be the one
  -- after the 500000th; and it returns the limit (1000 by default),
  -- the page and the dates that the request names.
  pub validate_pagination_iff :
      (checks : Bool) (limit page : Option ℕ) (before after : Option String) (o : PageOptions Date)
      → OffsetFits limit page
      → (validate_pagination crates checks limit page before after ≡ ok o)
        ↔ IsAccepted limit page before after o
  unfolding validate_pagination
  validate_pagination_iff checks limit page before after o fits = (accepted, returned)
    where
      accepted :
          validate_pagination crates checks limit page before after ≡ ok o
          → IsAccepted limit page before after o
      accepted h =
          let (_, e1, h1) = >>=-eq-ok (check_limit crates limit) _ h in
          let (_, e2, h2) = >>=-eq-ok (check_page crates checks limit page before after) _ h1 in
          let (b, e3, h3) = >>=-eq-ok (check_date crates "before" before) _ h2 in
          let (a, e4, h4) = >>=-eq-ok (check_date crates "after" after) _ h3 in
          rw (← ok-injective h4) (record {
            limit_bounded = (check_limit_bounded limit).0 e1;
            page_allowed = check_page-PageAllowed checks limit page before after fits e2;
            limit_kept = refl;
            page_kept = refl;
            before_read = (check_date-Reads "before" before b).0 e3;
            after_read = (check_date-Reads "after" after a).0 e4;
          })

      returned :
          IsAccepted limit page before after o
          → validate_pagination crates checks limit page before after ≡ ok o
      returned v = rw (
        validate_pagination,
        (check_limit_bounded limit).1 v.limit_bounded,
        PageAllowed-check_page checks limit page before after v.page_allowed,
        (check_date-Reads "before" before o.before).1 v.before_read,
        (check_date-Reads "after" after o.after).1 v.after_read,
        ← v.limit_kept,
        ← v.page_kept,
      )

  -- Where the offset of the page overflows 32 bits and its remainder is at most 500000, a build
  -- without overflow checks accepts the page, though it starts beyond the first 500000 rows, and a
  -- build with overflow checks panics.
  pub validate_pagination-wraps :
      (limit page : ℕ)
      → 0 < page
      → limit ≤ 1000
      → u32_mod ≤ (page - 1) * limit
      → (page - 1) * limit % u32_mod ≤ 500_000
      → (validate_pagination crates false (some limit) (some page) none none
          ≡ ok (record { limit = limit; page = some page; before = none; after = none }))
        × (validate_pagination crates true (some limit) (some page) none none ≡ panic)
        × (500_000 < (page - 1) * limit)
  unfolding validate_pagination
  validate_pagination-wraps limit page p l w r = ground arith

  paged_without_dates :
      (checks : Bool) (limit : Option ℕ) (page : ℕ) (before after : Option String)
      → check_page crates checks limit (some page) before after ≡ ok tt
      → (0 < page) × (before ≡ none) × (after ≡ none)
  paged_without_dates checks limit page before after h = ground arith

  -- The pagination that a validated request stands for.
  abbrev pub Chooses : PageOptions Date → Pagination Date → Type 0
  Chooses o (keyset before after) = (o.page ≡ none) × (before ≡ o.before) × (after ≡ o.after)
  Chooses o (by_page page) =
      (o.page ≡ some page) × (0 < page) × (o.before ≡ none) × (o.after ≡ none)

  -- What every accepted request has gone through, with or without an overflow.
  validated :
      (checks : Bool) (limit page : Option ℕ) (before after : Option String) (o : PageOptions Date)
      → validate_pagination crates checks limit page before after ≡ ok o
      → (check_page crates checks limit page before after ≡ ok tt)
        × (o.page ≡ page)
        × Reads before o.before
        × Reads after o.after
        × (o.limit ≤ 1000)
        × (o.limit ≡ unwrap_or limit 1000)
  unfolding validate_pagination
  validated checks limit page before after o h =
      let (_, e1, h1) = >>=-eq-ok (check_limit crates limit) _ h in
      let (_, e2, h2) = >>=-eq-ok (check_page crates checks limit page before after) _ h1 in
      let (b, e3, h3) = >>=-eq-ok (check_date crates "before" before) _ h2 in
      let (a, e4, h4) = >>=-eq-ok (check_date crates "after" after) _ h3 in
      rw (← ok-injective h4) (
        e2,
        refl,
        (check_date-Reads "before" before b).0 e3,
        (check_date-Reads "after" after a).0 e4,
        (check_limit_bounded limit).0 e1,
        refl,
      )

  -- A validated limit is at most 1000, also where the offset overflows.
  pub validated_limit :
      (checks : Bool) (limit page : Option ℕ) (before after : Option String) (o : PageOptions Date)
      → validate_pagination crates checks limit page before after ≡ ok o
      → o.limit ≤ 1000
  validated_limit checks limit page before after o h =
      (validated checks limit page before after o h).4

  pub validated_limit_kept :
      (checks : Bool) (limit page : Option ℕ) (before after : Option String) (o : PageOptions Date)
      → validate_pagination crates checks limit page before after ≡ ok o
      → o.limit ≡ unwrap_or limit 1000
  validated_limit_kept checks limit page before after o h =
      (validated checks limit page before after o h).5

  -- The options of a validated request always make a pagination: by dates, if the request names no
  -- page, and else by its page, which is at least 1 and stands without dates.
  create_pagination-validated :
      (checks : Bool) (limit page : Option ℕ) (before after : Option String) (o : PageOptions Date)
      → validate_pagination crates checks limit page before after ≡ ok o
      → (p : Pagination Date) × (create_pagination o ≡ ok p) × Chooses o p
  unfolding create_pagination
  create_pagination-validated checks limit none before after o h =
      let (_, hp, _, _, _, _) = validated checks limit none before after o h in
      (keyset o.before o.after, rw (hp, create_pagination), (hp, refl, refl))
  create_pagination-validated checks limit (some page) before after o h =
      let (e, hp, hb, ha, _, _) = validated checks limit (some page) before after o h in
      let (positive, no_before, no_after) = paged_without_dates checks limit page before after e in
      let eb : o.before ≡ none = rw no_before at hb in
      let ea : o.after ≡ none = rw no_after at ha in
      (by_page page, rw (create_pagination, hp, eb, ea), (hp, positive, eb, ea))
