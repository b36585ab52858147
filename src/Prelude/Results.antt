-- ===== src/Prelude/Results.antt =====
-- Rust's `Result` joined with the panic that aborts a task: `ok`, `err` and `panic`.
use Prim.Native.Nat.{suc, zero, ℕ}
use Prim.Native.String.{String}
use mathlib.Core.List.{List, [], ◌∷◌}
use mathlib.Core.Logic.{inl, inr, ◌≢◌, ◌⊎◌}
use mathlib.Core.Option.{Option, none, some}
use mathlib.Core.Path.{refl, ◌≡◌}
use itihas.Prelude.Lists.{All}

pub data Result {ℓ} (E : Type 0) (A : Type ℓ) : Type ℓ where
  ok : A → Result E A
  err : E → Result E A
  panic : Result E A

-- `?`, which passes on an error and a panic.
infixl 5 ◌>>=◌
abbrev pub ◌>>=◌ {ℓ κ} :
    {E : Type 0} {A : Type ℓ} {B : Type κ} → Result E A → (A → Result E B) → Result E B
ok a >>= f = f a
err e >>= f = err e
panic >>= f = panic

infixl 5 ◌>>◌
abbrev pub ◌>>◌ {ℓ} : {E : Type 0} {B : Type ℓ} → Result E (Unit {0}) → Result E B → Result E B
m >> k = m >>= λ _. k

module _ {ℓ} {E : Type 0} {A : Type ℓ} where
  -- `Option::ok_or`
  abbrev pub ok_or : Option A → E → Result E A
  ok_or none e = err e
  ok_or (some a) e = ok a

  -- `Option::unwrap`
  abbrev pub unwrap : Option A → Result E A
  unwrap none = panic
  unwrap (some a) = ok a

  -- A fallible call of another crate, given by the text of its error, under `map_err`.
  abbrev pub map_err : String ⊎ A → (String → E) → Result E A
  map_err (inl text) f = err (f text)
  map_err (inr a) f = ok a

  -- `slice[i]`, which panics out of range.
  abbrev pub index : List A → ℕ → Result E A
  index [] i = panic
  index (x ∷ xs) zero = ok x
  index (x ∷ xs) (suc i) = index xs i

-- `iter().map(f).collect::<Result<Vec<_>, _>>()`, which stops at the first error.
module _ {ℓ κ} {E : Type 0} {A : Type ℓ} {B : Type κ} (f : A → Result E B) where
  abbrev pub traverse : List A → Result E (List B)
  traverse [] = ok []
  traverse (x ∷ xs) = f x >>= λ y. traverse xs >>= λ ys. ok (y ∷ ys)

-- Where a bind succeeds, so did its first part, and the rest ran on the value of it.
pub >>=-eq-ok {ℓ κ} :
    {E : Type 0} {A : Type ℓ} {B : Type κ} (first : Result E A) (rest : A → Result E B) {r : B}
    → (first >>= rest) ≡ ok r
    → (x : A) × (first ≡ ok x) × (rest x ≡ ok r)
>>=-eq-ok panic rest e = cc
>>=-eq-ok (err failure) rest e = cc
>>=-eq-ok (ok x) rest e = (x, refl, e)

-- A bind does not panic if neither part does.
pub >>=-ne-panic {ℓ κ} :
    {E : Type 0} {A : Type ℓ} {B : Type κ} (m : Result E A) (f : A → Result E B)
    → m ≢ panic
    → ((a : A) → m ≡ ok a → f a ≢ panic)
    → (m >>= f) ≢ panic
>>=-ne-panic (ok a) f h k = k a refl
>>=-ne-panic (err e) f h k = λ p. cc
>>=-ne-panic panic f h k = λ p. h refl

pub Result-cases {ℓ} :
    {E : Type 0} {A : Type ℓ} (r : Result E A)
    → ((a : A) × (r ≡ ok a)) ⊎ ((e : E) × (r ≡ err e)) ⊎ (r ≡ panic)
Result-cases (ok a) = inl (a, refl)
Result-cases (err e) = inr (inl (e, refl))
Result-cases panic = inr (inr refl)

module _ {ℓ κ} {E : Type 0} {A : Type ℓ} {B : Type κ} (f : A → Result E B) where
  pub traverse-cons-eq-ok :
      (x : A) (xs : List A) {r : List B}
      → traverse f (x ∷ xs) ≡ ok r
      → (y : B) × (ys : List B) × (f x ≡ ok y) × (traverse f xs ≡ ok ys) × (r ≡ y ∷ ys)
  traverse-cons-eq-ok x xs h =
      let (y, hy, h1) = >>=-eq-ok (f x) _ h in
      let (ys, hys, h2) = >>=-eq-ok (traverse f xs) _ h1 in (y, ys, hy, hys, cc)

  pub traverse-ne-panic-All : (xs : List A) → All (λ x. f x ≢ panic) xs → traverse f xs ≢ panic
  traverse-ne-panic-All [] h = λ p. cc
  traverse-ne-panic-All (x ∷ xs) h =
      >>=-ne-panic (f x) _ h.0
        λ y _. >>=-ne-panic (traverse f xs) _ (traverse-ne-panic-All xs h.1) (λ ys _ p. cc)

  pub traverse-ne-panic : ((x : A) → f x ≢ panic) → (xs : List A) → traverse f xs ≢ panic
  traverse-ne-panic h [] = λ p. cc
  traverse-ne-panic h (x ∷ xs) =
      >>=-ne-panic (f x) _ (h x)
        λ y _. >>=-ne-panic (traverse f xs) _ (traverse-ne-panic h xs) (λ ys _ p. cc)

pub ok-injective {ℓ} :
    {E : Type 0} {A : Type ℓ} {a b : A} → ◌≡◌ {A = Result E A} (ok a) (ok b) → a ≡ b
ok-injective h = cc

module _ {ℓ} {E : Type 0} {A : Type ℓ} where
  pub ok_or-ne-panic : (o : Option A) (e : E) → ok_or o e ≢ panic
  ok_or-ne-panic none e = λ p. cc
  ok_or-ne-panic (some a) e = λ p. cc

  pub map_err-ne-panic : (r : String ⊎ A) (f : String → E) → map_err r f ≢ panic
  map_err-ne-panic (inl text) f = λ p. cc
  map_err-ne-panic (inr a) f = λ p. cc

  pub ok_or-eq-ok : (o : Option A) (e : E) {a : A} → ok_or o e ≡ ok a → o ≡ some a
  ok_or-eq-ok none e h = cc
  ok_or-eq-ok (some a) e h = cc

  pub map_err-eq-ok : (r : String ⊎ A) (f : String → E) {a : A} → map_err r f ≡ ok a → r ≡ inr a
  map_err-eq-ok (inl text) f h = cc
  map_err-eq-ok (inr a) f h = cc
