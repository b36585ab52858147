-- ===== src/Api/Tests.antt =====
-- Requests over a database of one row, with toy versions of the crates' functions.
use text.Mathlib.Text.{◌==◌ as ◌is◌}
use text.Mathlib.TextEquality.{eq_iff}
use itihas.Api.{Crates}
use itihas.Api.Handler.{GetTransactionsByAddress, TransactionList, get_transactions, from_model}
use itihas.Api.Handler.Answers.{IsAnswer, get_transactions-IsAnswer}
use itihas.Api.Handler.Pages.{at_page, get_transactions-pages, limited, skipped}
use itihas.Api.Query.{Condition, Select, equals, less, greater}
use itihas.Api.Query.Meaning.{Holds, Selects}
use itihas.Api.Requests.{validate_pagination}
use itihas.Api.Requests.Limits.{IsAccepted, validate_pagination-wraps, validate_pagination_iff}
use itihas.Dao.{Column, TokenTransfer}
use itihas.Prelude.{
  map, concat, consecutive, take, traverse, sym, suc, zero, eq_of_some, Bool-cases, Bytes, All,
  List, Option, String, [], arith, false, if◌then◌else◌, inl, inr, length, none, ok, panic, pos,
  refl, some, true, ℕ, ◌*◌, ◌-◌, ◌<◌, ◌↔◌, ◌≡◌, ◌≤◌, ◌⊎◌, ◌∷◌,
}

-- Dates are days; one text names a date, and one an address.
abbrev pub toy : Crates ℕ
toy = record {
  parse_from_str = λ text format. if text is "02/01/1970" then some 1 else none;
  format = λ date format. "02/01/1970";
  and_hms_opt = λ date h m s. some (pos (date * 86400));
  pubkey_from_str = λ text. if text is "alice" then some (10 ∷ []) else none;
  bs58_encode = λ bytes. "alice";
}

validate_pagination_iff_example :
    (validate_pagination toy true (some 10) (some 3) none none
      ≡ ok (record { limit = 10; page = some 3; before = none; after = none }))
    ↔ IsAccepted toy
        (some 10)
        (some 3)
        none
        none
        (record { limit = 10; page = some 3; before = none; after = none })
validate_pagination_iff_example =
    validate_pagination_iff toy true (some 10) (some 3) none none
      (record { limit = 10; page = some 3; before = none; after = none }) (omega arith)

-- Page 4294969 of 1000 rows each: the offset is 2^32 + 704.
validate_pagination-wraps_example :
    (validate_pagination toy false (some 1000) (some 4_294_969) none none
      ≡ ok (record { limit = 1000; page = some 4_294_969; before = none; after = none }))
    × (validate_pagination toy true (some 1000) (some 4_294_969) none none ≡ panic)
    × (500_000 < (4_294_969 - 1) * 1000)
validate_pagination-wraps_example =
    validate_pagination-wraps toy 1000 4_294_969 (omega arith) (omega arith) (omega arith)
      (omega arith)

abbrev row : Bytes → TokenTransfer
row source = record {
  signature = 5 ∷ [];
  source_address = source;
  program_id = 1 ∷ [];
  destination_address = 11 ∷ [];
  source_ata = none;
  destination_ata = none;
  mint_address = none;
  slot = pos 7;
  amount = pos 7;
  error = none;
  block_time = pos 100;
  created_at = pos 200;
}

Column-discrete : Discrete Column
Column-discrete = hlevel

-- A table with one row for each source address; statements that ask for more find nothing.
abbrev matching : List Condition → Option ℕ → List TokenTransfer
matching (equals column source ∷ []) (some (suc n)) =
    elim (Column-discrete column Column.source_address) [ yes _ ↦ row source ∷ [] | no _ ↦ [] ]
matching filters limit = []

abbrev all : Select → String ⊎ List TokenTransfer
all stmt = inr (matching stmt.filters stmt.limit)

matching-Selects :
    (filters : List Condition) (limit : Option ℕ)
    → ((n : ℕ) → limit ≡ some n → length (matching filters limit) ≤ n)
      × All (λ r. All (Holds r) filters) (matching filters limit)
matching-Selects [] limit = (λ n e. omega arith, tt)
matching-Selects (equals column source ∷ []) none = (λ n e. omega arith, tt)
matching-Selects (equals column source ∷ []) (some zero) = (λ n e. omega arith, tt)
matching-Selects (equals column source ∷ []) (some (suc n)) =
    elim (Column-discrete column Column.source_address)
      as (λ d.
        ((m : ℕ)
          → some (suc n) ≡ some m
          → length (elim d as (λ _. List TokenTransfer) [ yes _ ↦ row source ∷ [] | no _ ↦ [] ])
            ≤ m)
        × All (λ r. All (Holds r) (equals column source ∷ []))
            (elim d [ yes _ ↦ row source ∷ [] | no _ ↦ [] ])) [
              | yes same ↦ (λ m e. omega (arith, eq_of_some e), ((rw same refl, tt), tt))
              | no _ ↦ (λ m e. omega arith, tt)
            ]
matching-Selects (equals column source ∷ f ∷ fs) limit = (λ n e. omega arith, tt)
matching-Selects (less column bound ∷ fs) limit = (λ n e. omega arith, tt)
matching-Selects (greater column bound ∷ fs) limit = (λ n e. omega arith, tt)

runs : (stmt : Select) (rows : List TokenTransfer) → all stmt ≡ inr rows → Selects stmt rows
runs stmt rows e =
    let same : matching stmt.filters stmt.limit ≡ rows = cc in
    rw (← same) (matching-Selects stmt.filters stmt.limit)

-- Only one text names an address.
canonical :
    (text : String) (key : Bytes) → toy.pubkey_from_str text ≡ some key → toy.bs58_encode key ≡ text
canonical text key h = elim (Bool-cases (text is "alice")) [
  | inl same ↦ sym ((eq_iff text "alice").0 same)
  | inr other ↦ let nothing : none ≡ some key = rw other at h in cc
]

abbrev pub request : GetTransactionsByAddress
request = record {
  source_address = some "alice";
  destination_address = none;
  mint_address = none;
  limit = some 5;
  page = none;
  before = none;
  after = none;
  sort_by = none;
}

abbrev answer : TransactionList
answer = record {
  total = 1;
  limit = 5;
  page = none;
  before = none;
  after = none;
  items = from_model toy (row (10 ∷ [])) ∷ [];
}

get_transactions-IsAnswer_example : IsAnswer request answer
unfolding get_transactions Column-discrete
get_transactions-IsAnswer_example =
    get_transactions-IsAnswer toy all runs canonical true request {r = answer} refl

-- A table of three rows, in one order, that each request asks for, and pages of two.
abbrev three_rows : List TokenTransfer
three_rows = row (10 ∷ []) ∷ row (11 ∷ []) ∷ row (12 ∷ []) ∷ []

abbrev sliced : Select → String ⊎ List TokenTransfer
sliced stmt = inr (limited stmt.limit (skipped stmt.offset three_rows))

abbrev two_each : GetTransactionsByAddress
two_each = record request { limit = some 2 }

get_transactions-pages_example :
    (answers : List TransactionList) × (traverse
        (λ page. get_transactions toy true sliced (at_page two_each page))
        (1 ∷ 2 ∷ [])
      ≡ ok answers)
    × (concat (map (λ answer. answer.items) answers) ≡ map (from_model toy) three_rows)
unfolding consecutive take get_transactions
get_transactions-pages_example =
    get_transactions-pages toy (λ filters orders. three_rows) sliced (λ stmt. refl) true two_each
      refl refl refl refl (omega arith) 2 (omega arith)
