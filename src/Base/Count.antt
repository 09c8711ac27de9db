-- ===== src/Base/Count.antt =====
-- Occurrences of an identifier in a list, and `retain(|&p| p != id)`.
use Prim.Native.Nat.{ℕ, ◌+◌}
use mathlib.Core.Path.{◌≡◌, refl}
use mathlib.Core.List.{List, [], ◌∷◌, ◌++◌}
use native.Mathlib.Omega.{arith}
use forgetty.Base.Tests.{◌==◌, if◌then◌else◌, to_nat}

abbrev pub count : ℕ → List ℕ → ℕ
count a [] = 0
count a (x ∷ xs) = to_nat (x == a) + count a xs

-- `Vec::retain(|&p| p != id)`
unfoldable pub retain_ne : ℕ → List ℕ → List ℕ
retain_ne id [] = []
retain_ne id (x ∷ xs) = let rest = retain_ne id xs in if x == id then rest else x ∷ rest

pub count-append :
    (a : ℕ) (front back : List ℕ) → count a (front ++ back) ≡ count a front + count a back
count-append a [] back = omega arith
count-append a (id ∷ front) back = let rest = count-append a front back in omega (arith, rest)

pub count-retain_ne :
    (id a : ℕ) (xs : List ℕ) → count a (retain_ne id xs) ≡ (if id == a then 0 else count a xs)
unfolding retain_ne
count-retain_ne id a [] = ground arith
count-retain_ne id a (x ∷ xs) = ground (arith, count-retain_ne id a xs)

pub retain_ne_absent : (id : ℕ) (xs : List ℕ) → count id xs ≡ 0 → retain_ne id xs ≡ xs
unfolding retain_ne
retain_ne_absent id [] h = refl
retain_ne_absent id (x ∷ xs) h = ground (arith, retain_ne_absent id xs)
