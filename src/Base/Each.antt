-- ===== src/Base/Each.antt =====
-- A predicate on every element of a list, kept by the list operations.
use Prim.Native.Nat.{ℕ, zero, suc}
use mathlib.Core.Path.{◌≡◌, subst}
use mathlib.Core.List.{List, [], ◌∷◌, ◌++◌}
use mathlib.Core.Option.{some}
use forgetty.Base.Lists.{get_elem?, set, remove_at, insert_at}

abbrev pub All {ℓ κ} : {A : Type ℓ} → (A → Type κ) → List A → Type κ
All P [] = Unit
All P (x ∷ xs) = P x × All P xs

module _ {ℓ κ} {A : Type ℓ} (P : A → Type κ) where
  pub All-append : (xs ys : List A) → All P xs → All P ys → All P (xs ++ ys)
  All-append [] ys h k = k
  All-append (x ∷ xs) ys h k = (h.0, All-append xs ys h.1 k)

  pub All-get : (xs : List A) (i : ℕ) (x : A) → All P xs → get_elem? xs i ≡ some x → P x
  All-get [] i x h e = cc
  All-get (y ∷ ys) zero x h e = subst P (cc) h.0
  All-get (y ∷ ys) (suc i) x h e = All-get ys i x h.1 e

  pub All-set : (xs : List A) (i : ℕ) (x : A) → All P xs → P x → All P (set xs i x)
  All-set [] i x h p = h
  All-set (y ∷ ys) zero x h p = (p, h.1)
  All-set (y ∷ ys) (suc i) x h p = (h.0, All-set ys i x h.1 p)

  pub All-remove_at : (xs : List A) (i : ℕ) → All P xs → All P (remove_at xs i)
  All-remove_at [] i h = h
  All-remove_at (y ∷ ys) zero h = h.1
  All-remove_at (y ∷ ys) (suc i) h = (h.0, All-remove_at ys i h.1)

  pub All-insert_at : (xs : List A) (i : ℕ) (x : A) → All P xs → P x → All P (insert_at xs i x)
  All-insert_at xs zero x h p = (p, h)
  All-insert_at [] (suc i) x h p = (p, h)
  All-insert_at (y ∷ ys) (suc i) x h p = (h.0, All-insert_at ys i x h.1 p)
