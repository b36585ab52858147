-- ===== src/Prelude/Chunks.antt =====
-- Slices cut into chunks.
use Prim.Native.Nat.{suc, zero, ℕ, ◌-◌, ◌<◌, ◌≤◌}
use mathlib.Core.List.{List, [], ◌∷◌, ◌++◌}
use mathlib.Core.Path.{◌≡◌, ap, refl}
use native.Mathlib.Omega.{arith}
use itihas.Prelude.Lists.{All, All-append_left, All-append_right, length}

-- `flatten` of a list of lists.
abbrev pub concat {ℓ} : {A : Type ℓ} → List (List A) → List A
concat [] = []
concat (xs ∷ xss) = xs ++ concat xss

pub All-of_concat {ℓ κ} :
    {A : Type ℓ} (P : A → Type κ) (xss : List (List A)) → All P (concat xss) → All (All P) xss
All-of_concat P [] h = tt
All-of_concat P (xs ∷ xss) h = (
  All-append_left P xs (concat xss) h,
  All-of_concat P xss (All-append_right P xs (concat xss) h),
)

module _ {ℓ} {A : Type ℓ} (size : ℕ) where
  -- What of a list goes into the open chunk, which has this room left, and the chunks after it.
  unfoldable pub fill : ℕ → List A → List A × List (List A)
  fill room [] = ([], [])
  fill zero (x ∷ xs) = let (chunk, chunks) = fill (size - 1) xs in ([], (x ∷ chunk) ∷ chunks)
  fill (suc room) (x ∷ xs) = let (chunk, chunks) = fill room xs in (x ∷ chunk, chunks)

  -- `slice::chunks`
  unfoldable pub chunks : List A → List (List A)
  unfolding fill
  chunks xs = (fill 0 xs).1

  -- A chunk is not empty, and no longer than the size.
  abbrev pub IsChunk : List A → Type 0
  IsChunk chunk = (0 < length chunk) × (length chunk ≤ size)

  fill-concat : (room : ℕ) (xs : List A) → (fill room xs).0 ++ concat (fill room xs).1 ≡ xs
  unfolding fill
  fill-concat zero [] = refl
  fill-concat (suc room) [] = refl
  fill-concat zero (x ∷ xs) = ap (λ rest. x ∷ rest) (fill-concat (size - 1) xs)
  fill-concat (suc room) (x ∷ xs) = ap (λ rest. x ∷ rest) (fill-concat room xs)

  fill-IsChunk :
      (room : ℕ) (xs : List A)
      → 0 < size
      → (length (fill room xs).0 ≤ room) × All IsChunk (fill room xs).1
  unfolding fill
  fill-IsChunk zero [] h = (omega arith, tt)
  fill-IsChunk (suc room) [] h = (omega arith, tt)
  fill-IsChunk zero (x ∷ xs) h =
      let (short, rest) = fill-IsChunk (size - 1) xs h in
      (omega arith, ((omega arith, omega arith), rest))
  fill-IsChunk (suc room) (x ∷ xs) h =
      let (short, rest) = fill-IsChunk room xs h in (omega arith, rest)

  -- The empty list at the front is no part of the result.
  fill-zero : (xs : List A) → (fill 0 xs).0 ≡ []
  unfolding fill
  fill-zero [] = refl
  fill-zero (x ∷ xs) = refl

  pub chunks-concat : (xs : List A) → concat (chunks xs) ≡ xs
  unfolding chunks fill
  chunks-concat [] = refl
  chunks-concat (x ∷ xs) = fill-concat 0 (x ∷ xs)

  pub chunks-IsChunk : (xs : List A) → 0 < size → All IsChunk (chunks xs)
  unfolding chunks
  chunks-IsChunk xs h = (fill-IsChunk 0 xs h).1
