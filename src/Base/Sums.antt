-- ===== src/Base/Sums.antt =====
-- A number summed over a list, and how the list operations change the sum.
use Prim.Native.Nat.{ℕ, zero, suc, ◌+◌, ◌<◌, ◌≤◌}
use mathlib.Core.Path.{◌≡◌}
use mathlib.Core.List.{List, [], ◌∷◌, ◌++◌}
use mathlib.Core.Option.{some}
use native.Mathlib.Omega.{arith}
use forgetty.Base.Lists.{get_elem?, set, remove_at, insert_at, length}

abbrev pub sum_by {ℓ} : {A : Type ℓ} → (A → ℕ) → List A → ℕ
sum_by f [] = 0
sum_by f (x ∷ xs) = f x + sum_by f xs

module _ {ℓ} {A : Type ℓ} (f : A → ℕ) where
  pub sum_by-append : (xs ys : List A) → sum_by f (xs ++ ys) ≡ sum_by f xs + sum_by f ys
  sum_by-append [] ys = omega arith
  sum_by-append (x ∷ xs) ys = omega (arith, sum_by-append xs ys)

  pub sum_by-set :
      (xs : List A) (i : ℕ) (x y : A)
      → get_elem? xs i ≡ some x
      → sum_by f (set xs i y) + f x ≡ sum_by f xs + f y
  sum_by-set [] i x y e = cc
  sum_by-set (z ∷ zs) zero x y e = let e' : f z ≡ f x = cc in omega arith
  sum_by-set (z ∷ zs) (suc i) x y e = omega (arith, sum_by-set zs i x y e)

  pub sum_by-remove_at :
      (xs : List A) (i : ℕ) (x : A)
      → get_elem? xs i ≡ some x
      → sum_by f (remove_at xs i) + f x ≡ sum_by f xs
  sum_by-remove_at [] i x e = cc
  sum_by-remove_at (z ∷ zs) zero x e = let e' : f z ≡ f x = cc in omega arith
  sum_by-remove_at (z ∷ zs) (suc i) x e = omega (arith, sum_by-remove_at zs i x e)

  pub sum_by-insert_at :
      (xs : List A) (i : ℕ) (x : A) → sum_by f (insert_at xs i x) ≡ sum_by f xs + f x
  sum_by-insert_at xs zero x = omega arith
  sum_by-insert_at [] (suc i) x = omega arith
  sum_by-insert_at (z ∷ zs) (suc i) x = omega (arith, sum_by-insert_at zs i x)

  pub le-sum_by : (xs : List A) (i : ℕ) (x : A) → get_elem? xs i ≡ some x → f x ≤ sum_by f xs
  le-sum_by xs i x e = omega (arith, sum_by-remove_at xs i x e)

module _ {ℓ} {A : Type ℓ} where
  pub length-remove_at :
      (xs : List A) (i : ℕ) → i < length xs → length (remove_at xs i) + 1 ≡ length xs
  length-remove_at [] i h = absurd (omega arith)
  length-remove_at (x ∷ xs) zero h = omega arith
  length-remove_at (x ∷ xs) (suc i) h = omega (arith, length-remove_at xs i (omega arith))

  pub length-insert_at : (xs : List A) (i : ℕ) (x : A) → length (insert_at xs i x) ≡ length xs + 1
  length-insert_at xs zero x = omega arith
  length-insert_at [] (suc i) x = omega arith
  length-insert_at (y ∷ ys) (suc i) x = omega (arith, length-insert_at ys i x)

  pub get_elem?-lt : (xs : List A) (i : ℕ) (x : A) → get_elem? xs i ≡ some x → i < length xs
  get_elem?-lt [] i x e = cc
  get_elem?-lt (y ∷ ys) zero x e = omega arith
  get_elem?-lt (y ∷ ys) (suc i) x e = omega (arith, get_elem?-lt ys i x e)
