-- ===== src/Indexer/Parser/Lookup.antt =====
-- Lookups of account indices, and what a successful lookup says.
use itihas.Indexer.Parser.{checked_account}
use itihas.Indexer.Types.{IndexerError, Pubkey}
use itihas.Prelude.{
  Bool-cases, List, String, [], arith, get_elem?, index, inl, inr, leb, length, ok, panic, some,
  suc, zero, ℕ, ◌<◌, ◌∷◌, ◌≡◌, ◌≢◌,
}

pub index-eq-ok {ℓ} :
    {E : Type 0} {A : Type ℓ} (xs : List A) (i : ℕ) {a : A}
    → index {E = E} xs i ≡ ok a
    → get_elem? xs i ≡ some a
index-eq-ok [] i h = cc
index-eq-ok (x ∷ xs) zero h = cc
index-eq-ok {E = E} (x ∷ xs) (suc i) h = index-eq-ok {E = E} xs i h

pub index-ne-panic {ℓ} :
    {A : Type ℓ} (E : Type 0) (xs : List A) (i : ℕ) → i < length xs → index {E = E} xs i ≢ panic
index-ne-panic E [] i h = λ p. elim h [ ]
index-ne-panic E (x ∷ xs) zero h = λ p. cc
index-ne-panic E (x ∷ xs) (suc i) h = index-ne-panic E xs i (omega arith)

pub get_elem?-lt {ℓ} :
    {A : Type ℓ} (xs : List A) (i : ℕ) {a : A} → get_elem? xs i ≡ some a → i < length xs
get_elem?-lt [] i h = cc
get_elem?-lt (x ∷ xs) zero h = omega arith
get_elem?-lt (x ∷ xs) (suc i) h = omega (arith, get_elem?-lt xs i h)

pub checked_account-eq-ok :
    (accounts : List Pubkey) (text : String) (i : ℕ) {a : Pubkey}
    → checked_account accounts text i ≡ ok a
    → get_elem? accounts i ≡ some a
unfolding checked_account
checked_account-eq-ok accounts text i h = elim (Bool-cases (leb (length accounts) i)) [
  | inl out ↦ cc (rw out at h)
  | inr within ↦ index-eq-ok {E = IndexerError} accounts i (rw within at h)
]

pub checked_account-ne-panic :
    (accounts : List Pubkey) (text : String) (i : ℕ) → checked_account accounts text i ≢ panic
unfolding checked_account
checked_account-ne-panic accounts text i = elim (Bool-cases (leb (length accounts) i)) [
  | inl out ↦ rw out (λ p. cc)
  | inr within ↦ rw within (index-ne-panic IndexerError accounts i (ground arith))
]
