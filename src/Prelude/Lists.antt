-- ===== src/Prelude/Lists.antt =====
-- Lists measured by native numbers, and predicates over lists by recursion.
use Prim.Native.Nat.{ℕ, zero, suc, ◌+◌, ◌<◌}
use mathlib.Core.Path.{◌≡◌}
use mathlib.Core.List.{List, [], ◌∷◌, ◌++◌}
use native.Mathlib.Omega.{arith}

module _ {ℓ} {A : Type ℓ} where
  abbrev pub length : List A → ℕ
  length [] = 0
  length (x ∷ xs) = suc (length xs)

  pub length-append : (xs ys : List A) → length (xs ++ ys) ≡ length xs + length ys
  length-append [] ys = omega arith
  length-append (x ∷ xs) ys = omega (arith, length-append xs ys)

module _ {ℓ κ} {A : Type ℓ} where
  -- Every item has the property.
  abbrev pub All : (A → Type κ) → List A → Type κ
  All P [] = Unit
  All P (x ∷ xs) = P x × All P xs

  pub All-append : (P : A → Type κ) (xs ys : List A) → All P xs → All P ys → All P (xs ++ ys)
  All-append P [] ys a b = b
  All-append P (x ∷ xs) ys a b = (a.0, All-append P xs ys a.1 b)

  -- Every two items, in the order of the list, are related.
  abbrev pub Pairs : (A → A → Type κ) → List A → Type κ
  Pairs R [] = Unit
  Pairs R (x ∷ xs) = All (R x) xs × Pairs R xs

module _ {ℓ κ μ} {A : Type ℓ} where
  pub All-imp :
      (P : A → Type κ) (Q : A → Type μ)
      → ((x : A) → P x → Q x)
      → (xs : List A) → All P xs
      → All Q xs
  All-imp P Q h [] a = tt
  All-imp P Q h (x ∷ xs) a = (h x a.0, All-imp P Q h xs a.1)

-- i, i + 1, ..., i + n - 1
abbrev pub range_from : ℕ → ℕ → List ℕ
range_from i zero = []
range_from i (suc n) = i ∷ range_from (suc i) n

-- range(n)
abbrev pub range : ℕ → List ℕ
range n = range_from 0 n

range_from-lt : (i n m : ℕ) → i + n ≡ m → All (λ k. k < m) (range_from i n)
range_from-lt i zero m e = tt
range_from-lt i (suc n) m e = (omega arith, range_from-lt (suc i) n m (omega arith))

pub range-lt : (n : ℕ) → All (λ k. k < n) (range n)
range-lt n = range_from-lt 0 n n (omega arith)

module _ {ℓ} {A : Type ℓ} where
  -- enumerate(xs), from the index `i` on
  abbrev pub enumerate_from : ℕ → List A → List (ℕ × A)
  enumerate_from i [] = []
  enumerate_from i (x ∷ xs) = (i, x) ∷ enumerate_from (suc i) xs

  pub enumerate_from-lt :
      (i : ℕ) (xs : List A) → All (λ e. e.0 < i + length xs) (enumerate_from i xs)
  enumerate_from-lt i [] = tt
  enumerate_from-lt i (x ∷ xs) = (
    omega arith,
    All-imp _ _ (λ e h. omega arith) (enumerate_from (suc i) xs) (enumerate_from-lt (suc i) xs),
  )

module _ {ℓ κ} {A : Type ℓ} {B : Type κ} where
  -- for x in xs: entries.extend(f(x))
  abbrev pub gather : (A → List B) → List A → List B
  gather f [] = []
  gather f (x ∷ xs) = f x ++ gather f xs

  pub All-gather {μ ν} :
      (P : A → Type μ) (Q : B → Type ν) (f : A → List B)
      → ((x : A) → P x → All Q (f x))
      → (xs : List A) → All P xs
      → All Q (gather f xs)
  All-gather P Q f h [] a = tt
  All-gather P Q f h (x ∷ xs) a =
      All-append Q (f x) (gather f xs) (h x a.0) (All-gather P Q f h xs a.1)
