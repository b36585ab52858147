-- ===== src/Prelude/Totals.antt =====
-- The total of a weight over a list, by which lists are compared as bags: two lists with the same
-- total for every weight hold the same elements equally often.
use Prim.Native.Nat.{ℕ, ◌+◌, ◌<◌}
use mathlib.Core.List.Perm
use mathlib.Core.List.{Perm, perm_middle, List, [], ◌∷◌, ◌++◌, Permᴰ, map}
use mathlib.Core.Logic.{if_neg, if_pos, ite}
use mathlib.Core.Path.{◌≡◌, ap, refl, ◌∙◌}
use native.Mathlib.Omega.{arith}
use itihas.Prelude.Chunks.{concat}

module _ {ℓ} {A : Type ℓ} (weight : A → ℕ) where
  abbrev pub total : List A → ℕ
  total [] = 0
  total (x ∷ xs) = weight x + total xs

  pub total-append : (xs ys : List A) → total (xs ++ ys) ≡ total xs + total ys
  total-append [] ys = omega arith
  total-append (x ∷ xs) ys = omega (arith, total-append xs ys)

  pub total-Permᴰ : {xs ys : List A} → Permᴰ xs ys → total xs ≡ total ys
  total-Permᴰ Permᴰ.nil = refl
  total-Permᴰ (Permᴰ.cons e p) = rw (e, total-Permᴰ p)
  total-Permᴰ (Permᴰ.swap {a} {b} {a'} {b'} {l} e f) = rw (e, f) (omega arith)
  total-Permᴰ (Permᴰ.trans p q) = total-Permᴰ p ∙ total-Permᴰ q

pub total-concat {ℓ} :
    {A : Type ℓ} (weight : A → ℕ) (xss : List (List A))
    → total weight (concat xss) ≡ total (total weight) xss
total-concat weight [] = refl
total-concat weight (xs ∷ xss) =
    omega (arith, total-append weight xs (concat xss), total-concat weight xss)

pub total-map {ℓ κ} :
    {A : Type ℓ} {B : Type κ} (weight : B → ℕ) (f : A → B) (xs : List A)
    → total weight (map f xs) ≡ total (λ x. weight (f x)) xs
total-map weight f [] = refl
total-map weight f (x ∷ xs) = ap (λ rest. weight (f x) + rest) (total-map weight f xs)

module _ {A : Type 0} (same : Discrete A) where
  abbrev indicator : A → A → ℕ
  indicator x y = ite (same x y) 1 0

  found :
      (x : A) (ys : List A)
      → 0 < total (indicator x) ys
      → (left : List A) × (right : List A) × (ys ≡ left ++ x ∷ right)
  found x [] h = absurd (omega arith)
  found x (y ∷ ys) h = elim (same x y) [
    | yes e ↦ ([], ys, rw e)
    | no other ↦
        let none_here = if_neg {C = ℕ} (same x y) other 1 0 in
        let (left, right, e) = found x ys (omega (arith, h, none_here)) in
        (y ∷ left, right, ap (λ rest. y ∷ rest) e)
  ]

  without :
      (weight : A → ℕ) (x : A) (xs ys left right : List A)
      → ys ≡ left ++ x ∷ right
      → total weight (x ∷ xs) ≡ total weight ys
      → total weight xs ≡ total weight (left ++ right)
  without weight x xs ys left right e h = omega (
    arith,
    h,
    ap (total weight) e,
    total-append weight left (x ∷ right),
    total-append weight left right,
  )

  -- Lists that weigh the same by every weight are permutations of each other.
  pub Perm-of_totals :
      (xs ys : List A) → ((weight : A → ℕ) → total weight xs ≡ total weight ys) → Perm xs ys
  Perm-of_totals [] [] h = Perm.nil
  Perm-of_totals [] (y ∷ ys) h = absurd (omega (arith, h (λ _. 1)))
  Perm-of_totals (x ∷ xs) ys h =
      let here = if_pos {C = ℕ} (same x x) refl 1 0 in
      let (left, right, e) = found x ys (omega (arith, h (indicator x), here)) in
      let rest =
        Perm-of_totals xs (left ++ right)
          (λ weight. without weight x xs ys left right e (h weight)) in
      rw e (Perm.trans (Perm.cons x rest) (Perm.symm (perm_middle left right)))
