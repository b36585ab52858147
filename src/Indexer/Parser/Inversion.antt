-- ===== src/Indexer/Parser/Inversion.antt =====
-- What a successful run of a parser's steps says of the accounts and the loop.
use itihas.Indexer.Parser.Spec
use mathlib.Core.Option
use native.Mathlib.Omega.{arith}
use itihas.Indexer.Parser.{flatten, push, push_each, unless_empty}
use itihas.Indexer.Types.{InstructionGroup, Transaction}
use itihas.Prelude.{
  >>=-eq-ok, >>=-ne-panic, All, List, Option, Result, [], ap, filter_map, get_elem?, length, map,
  none, ok, ok-injective, panic, some, suc, traverse, traverse-cons-eq-ok, zero, ℕ, ◌++◌, ◌∷◌, ◌≡◌,
  ◌≢◌,
}

module _ {E A B : Type 0} (f : A → Result E B) (key_of : A → Option B)
    (reads : (a : A) (b : B) → f a ≡ ok b → key_of a ≡ some b) where
  -- The element at a position of a traversed list.
  pub get_elem?-traverse :
      (xs : List A) {ys : List B}
      → traverse f xs ≡ ok ys
      → (n : ℕ) → get_elem? ys n ≡ Spec.◌>>=◌ (get_elem? xs n) key_of
  get_elem?-traverse [] h n = ground arith
  get_elem?-traverse (x ∷ xs) h zero =
      let (y, ys, hy, hys, e) = traverse-cons-eq-ok f x xs h in rw (e, reads x y hy)
  get_elem?-traverse (x ∷ xs) h (suc n) =
      let (y, ys, hy, hys, e) = traverse-cons-eq-ok f x xs h in rw e (get_elem?-traverse xs hys n)

-- A loop that pushes yields what a partial function picks, if each round agrees with it.
module _ {E A B C : Type 0} (body : A → Result E (Option B)) (view : B → C) (pick : A → Option C)
    (agrees : (x : A) (y : Option B) → body x ≡ ok y → Option.map view y ≡ pick x) where
  pub map-push_each :
      (xs : List A) {ys : List B} → push_each body xs ≡ ok ys → map view ys ≡ filter_map pick xs
  map-push_each [] h = rw (← ok-injective h)
  map-push_each (x ∷ xs) h =
      let (y, hy, h1) = >>=-eq-ok (body x) _ h in
      let (ys, hys, h2) = >>=-eq-ok (push_each body xs) _ h1 in
      rw (← ok-injective h2) (pushed x y xs ys (agrees x y hy) (map-push_each xs hys))
    where
      pushed :
          (x : A) (y : Option B) (xs : List A) (ys : List B)
          → Option.map view y ≡ pick x
          → map view ys ≡ filter_map pick xs
          → map view (push y ys) ≡ filter_map pick (x ∷ xs)
      pushed x none xs ys e f = rw (← e, filter_map) f
      pushed x (some y) xs ys e f = rw (← e, filter_map) (ap (◌∷◌ (view y)) f)

-- A property of all that a loop pushes, and one of all that it has gone through.
module _ {E A B : Type 0} (body : A → Result E (Option B)) where
  pub All-push_each :
      (P : B → Type 0)
      → ((x : A) (y : B) → body x ≡ ok (some y) → P y)
      → (xs : List A) {ys : List B} → push_each body xs ≡ ok ys
      → All P ys
  All-push_each P holds [] h = rw (← ok-injective h) tt
  All-push_each P holds (x ∷ xs) h =
      let (y, hy, h1) = >>=-eq-ok (body x) _ h in
      let (ys, hys, h2) = >>=-eq-ok (push_each body xs) _ h1 in
      rw (← ok-injective h2) (pushed x y ys hy (All-push_each P holds xs hys))
    where
      pushed : (x : A) (y : Option B) (ys : List B) → body x ≡ ok y → All P ys → All P (push y ys)
      pushed x none ys e k = k
      pushed x (some y) ys e k = (holds x y e, k)

  pub push_each-All :
      (P : A → Type 0)
      → ((x : A) (y : Option B) → body x ≡ ok y → P x)
      → (xs : List A) {ys : List B} → push_each body xs ≡ ok ys
      → All P xs
  push_each-All P holds [] h = tt
  push_each-All P holds (x ∷ xs) h =
      let (y, hy, h1) = >>=-eq-ok (body x) _ h in
      let (ys, hys, h2) = >>=-eq-ok (push_each body xs) _ h1 in
      (holds x y hy, push_each-All P holds xs hys)

  pub push_each-ne-panic : (xs : List A) → All (λ x. body x ≢ panic) xs → push_each body xs ≢ panic
  push_each-ne-panic [] h = λ p. cc
  push_each-ne-panic (x ∷ xs) h =
      >>=-ne-panic (body x) _ h.0
        λ y _. >>=-ne-panic (push_each body xs) _ (push_each-ne-panic xs h.1) (λ ys _ p. cc)

  -- A round that panics makes the loop panic, unless an earlier round returned an error.
  push_each-panic :
      (xs ys : List A) (x : A) {zs : List B}
      → push_each body xs ≡ ok zs
      → body x ≡ panic
      → push_each body (xs ++ x ∷ ys) ≡ panic
  push_each-panic [] ys x h e = rw e
  push_each-panic (w ∷ xs) ys x h e =
      let (y, hy, h1) = >>=-eq-ok (body w) _ h in
      let (ws, hws, h2) = >>=-eq-ok (push_each body xs) _ h1 in
      rw (hy, push_each-panic xs ys x hws e)

pub All-traverse :
    {E A B : Type 0} (f : A → Result E B) (P : A → Type 0)
    → ((x : A) (y : B) → f x ≡ ok y → P x)
    → (xs : List A) {ys : List B} → traverse f xs ≡ ok ys
    → All P xs
All-traverse f P holds [] h = tt
All-traverse f P holds (x ∷ xs) h =
    let (y, ys, hy, hys, e) = traverse-cons-eq-ok f x xs h in
    (holds x y hy, All-traverse f P holds xs hys)

pub length-traverse :
    {E A B : Type 0} (f : A → Result E B) (xs : List A) {ys : List B}
    → traverse f xs ≡ ok ys
    → length ys ≡ length xs
length-traverse f [] h = rw (← ok-injective h)
length-traverse f (x ∷ xs) h =
    let (y, ys, hy, hys, e) = traverse-cons-eq-ok f x xs h in
    rw e (ap suc (length-traverse f xs hys))

-- A property of all the results that a traversal keeps.
pub All-flatten :
    {E A B : Type 0} (f : A → Result E (Option B)) (P : B → Type 0)
    → ((x : A) (y : B) → f x ≡ ok (some y) → P y)
    → (xs : List A) {ys : List (Option B)} → traverse f xs ≡ ok ys
    → All P (flatten ys)
All-flatten f P holds [] h = rw (← ok-injective h) tt
All-flatten {A} {B} f P holds (x ∷ xs) h =
    let (y, ys, hy, hys, e) = traverse-cons-eq-ok f x xs h in
    rw e (kept x y ys hy (All-flatten f P holds xs hys))
  where
    kept :
        (x : A) (y : Option B) (ys : List (Option B))
        → f x ≡ ok y
        → All P (flatten ys)
        → All P (flatten (y ∷ ys))
    kept x none ys e k = k
    kept x (some y) ys e k = (holds x y e, k)

-- The early return on an empty list of groups keeps a transaction that holds one.
pub unless_empty-some :
    (groups : List InstructionGroup) (tx t : Transaction)
    → unless_empty groups tx ≡ some t
    → (groups ≢ []) × (tx ≡ t)
unless_empty-some [] tx t h = cc
unless_empty-some (g ∷ gs) tx t h = (λ p. cc, cc)
