-- ===== src/Prelude/Sums.antt =====
-- Sums over lists.
use Prim.Native.Nat.{ℕ, zero, suc, ◌+◌, ◌≤◌}
use mathlib.Core.Path.{◌≡◌, refl}
use mathlib.Core.List.{List, [], ◌∷◌, ◌++◌, map}
use mathlib.Core.Option.{some}
use native.Mathlib.Omega.{arith}
use trapchat.Prelude.Lists.{get_elem?, set}

-- The sum of a weight over a list.
abbrev pub sum_by {ℓ} : {A : Type ℓ} → (A → ℕ) → List A → ℕ
sum_by w [] = 0
sum_by w (x ∷ xs) = w x + sum_by w xs

module _ {ℓ} {A : Type ℓ} (w : A → ℕ) where
  pub sum_by-append : (xs ys : List A) → sum_by w (xs ++ ys) ≡ sum_by w xs + sum_by w ys
  sum_by-append [] ys = omega arith
  sum_by-append (x ∷ xs) ys = omega (arith, sum_by-append xs ys)

  pub sum_by-middle : (xs ys : List A) (x : A) → sum_by w (xs ++ x ∷ ys) ≡ w x + sum_by w (xs ++ ys)
  sum_by-middle [] ys x = refl
  sum_by-middle (z ∷ xs) ys x = omega (arith, sum_by-middle xs ys x)

  pub sum_by-set :
      (xs : List A) (i : ℕ) (x y : A)
      → get_elem? xs i ≡ some x
      → sum_by w (set xs i y) + w x ≡ sum_by w xs + w y
  sum_by-set [] i x y h = cc
  sum_by-set (z ∷ xs) zero x y h = ground arith
  sum_by-set (z ∷ xs) (suc i) x y h = omega (arith, sum_by-set xs i x y h)

  pub le-sum_by : (xs : List A) (i : ℕ) (x : A) → get_elem? xs i ≡ some x → w x ≤ sum_by w xs
  le-sum_by [] i x h = cc
  le-sum_by (z ∷ xs) zero x h = ground arith
  le-sum_by (z ∷ xs) (suc i) x h = omega (arith, le-sum_by xs i x h)

module _ {ℓ κ} {A : Type ℓ} {B : Type κ} (w : B → ℕ) (v : A → ℕ) (f : A → B) where
  pub sum_by-map : ((a : A) → w (f a) ≡ v a) → (xs : List A) → sum_by w (map f xs) ≡ sum_by v xs
  sum_by-map h [] = refl
  sum_by-map h (x ∷ xs) = omega (arith, h x, sum_by-map h xs)
