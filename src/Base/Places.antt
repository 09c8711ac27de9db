-- ===== src/Base/Places.antt =====
-- Which element stands at an index after an insertion or a removal.
use Prim.Native.Nat.{ℕ, zero, suc, ◌<◌, ◌≤◌}
use mathlib.Core.Path.{◌≡◌, refl}
use mathlib.Core.List.{List, [], ◌∷◌}
use mathlib.Core.Option.{none, some}
use native.Mathlib.Omega.{arith}
use forgetty.Base.Lists.{get_elem?, remove_at, insert_at, length}

module _ {ℓ} {A : Type ℓ} where
  pub get_elem?-remove_at_lt :
      (xs : List A) (i j : ℕ) → j < i → get_elem? (remove_at xs i) j ≡ get_elem? xs j
  get_elem?-remove_at_lt [] i j h = refl
  get_elem?-remove_at_lt (x ∷ xs) zero j h = absurd (omega arith)
  get_elem?-remove_at_lt (x ∷ xs) (suc i) zero h = refl
  get_elem?-remove_at_lt (x ∷ xs) (suc i) (suc j) h = get_elem?-remove_at_lt xs i j (omega arith)

  pub get_elem?-remove_at_ge :
      (xs : List A) (i j : ℕ) → i ≤ j → get_elem? (remove_at xs i) j ≡ get_elem? xs (suc j)
  get_elem?-remove_at_ge [] i j h = refl
  get_elem?-remove_at_ge (x ∷ xs) zero j h = refl
  get_elem?-remove_at_ge (x ∷ xs) (suc i) zero h = absurd (omega arith)
  get_elem?-remove_at_ge (x ∷ xs) (suc i) (suc j) h = get_elem?-remove_at_ge xs i j (omega arith)

  pub get_elem?-insert_at_lt :
      (xs : List A) (i j : ℕ) (x : A)
      → i ≤ length xs
      → j < i
      → get_elem? (insert_at xs i x) j ≡ get_elem? xs j
  get_elem?-insert_at_lt xs zero j x k h = absurd (omega arith)
  get_elem?-insert_at_lt [] (suc i) j x k h = absurd (omega arith)
  get_elem?-insert_at_lt (y ∷ ys) (suc i) zero x k h = refl
  get_elem?-insert_at_lt (y ∷ ys) (suc i) (suc j) x k h =
      get_elem?-insert_at_lt ys i j x (omega arith) (omega arith)

  pub get_elem?-insert_at_ge :
      (xs : List A) (i j : ℕ) (x : A)
      → i ≤ length xs
      → i ≤ j
      → get_elem? (insert_at xs i x) (suc j) ≡ get_elem? xs j
  get_elem?-insert_at_ge xs zero j x k h = refl
  get_elem?-insert_at_ge [] (suc i) j x k h = absurd (omega arith)
  get_elem?-insert_at_ge (y ∷ ys) (suc i) zero x k h = absurd (omega arith)
  get_elem?-insert_at_ge (y ∷ ys) (suc i) (suc j) x k h =
      get_elem?-insert_at_ge ys i j x (omega arith) (omega arith)

  pub get_elem?-insert_at_self :
      (xs : List A) (i : ℕ) (x : A) → i ≤ length xs → get_elem? (insert_at xs i x) i ≡ some x
  get_elem?-insert_at_self xs zero x k = refl
  get_elem?-insert_at_self [] (suc i) x k = absurd (omega arith)
  get_elem?-insert_at_self (y ∷ ys) (suc i) x k = get_elem?-insert_at_self ys i x (omega arith)

  pub get_elem?-none_lt : (xs : List A) (i : ℕ) → i < length xs → get_elem? xs i ≡ none → ⊥
  get_elem?-none_lt [] i h e = absurd (omega arith)
  get_elem?-none_lt (x ∷ xs) zero h e = cc
  get_elem?-none_lt (x ∷ xs) (suc i) h e = get_elem?-none_lt xs i (omega arith) e

  -- Two lists with the same element at every index are equal.
  pub get_elem?-ext : (xs ys : List A) → ((i : ℕ) → get_elem? xs i ≡ get_elem? ys i) → xs ≡ ys
  get_elem?-ext [] [] h = refl
  get_elem?-ext [] (y ∷ ys) h = let e = h 0 in cc
  get_elem?-ext (x ∷ xs) [] h = let e = h 0 in cc
  get_elem?-ext (x ∷ xs) (y ∷ ys) h =
      let e = h 0 in let rest : xs ≡ ys = get_elem?-ext xs ys (λ i. h (suc i)) in cc
