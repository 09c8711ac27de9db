-- ===== src/Base/Dict.antt =====
-- A `HashMap` keyed by identifiers, as an association list.
use Prim.Native.Nat.{ℕ}
use mathlib.Core.Path.{◌≡◌, refl}
use mathlib.Core.Bool.{Bool, true, false}
use mathlib.Core.List.{List, [], ◌∷◌}
use mathlib.Core.Option.{Option, none, some}
use native.Mathlib.Omega.{arith}
use forgetty.Base.Tests.{◌==◌, if◌then◌else◌, is_some}

module _ {ℓ} {V : Type ℓ} where
  unfoldable pub lookup : ℕ → List (ℕ × V) → Option V
  lookup k [] = none
  lookup k ((j, v) ∷ m) = if j == k then some v else lookup k m

  -- `HashMap::insert`: a value that stands at the key is replaced.
  unfoldable pub insert : ℕ → V → List (ℕ × V) → List (ℕ × V)
  insert k v [] = (k, v) ∷ []
  insert k v (entry ∷ rest) = if entry.0 == k then (k, v) ∷ rest else entry ∷ insert k v rest

  -- `HashMap::remove`
  unfoldable pub remove : ℕ → List (ℕ × V) → List (ℕ × V)
  remove k [] = []
  remove k ((j, v) ∷ m) = let rest = remove k m in if j == k then rest else (j, v) ∷ rest

  -- `if let Some(v) = map.get_mut(&k) { … }`
  unfoldable pub modify : ℕ → (V → V) → List (ℕ × V) → List (ℕ × V)
  modify k f [] = []
  modify k f ((j, v) ∷ m) = if j == k then (j, f v) ∷ m else (j, v) ∷ modify k f m

  -- `HashMap::contains_key`
  abbrev pub has : ℕ → List (ℕ × V) → Bool
  has k m = is_some (lookup k m)

  pub lookup-cons :
      (k j : ℕ) (v : V) (m : List (ℕ × V))
      → lookup k ((j, v) ∷ m) ≡ (if j == k then some v else lookup k m)
  unfolding lookup
  lookup-cons k j v m = refl

  pub lookup-insert :
      (written read : ℕ) (v : V) (rest : List (ℕ × V))
      → lookup read (insert written v rest) ≡ (if written == read then some v else lookup read rest)
  unfolding lookup insert
  lookup-insert written read v [] = refl
  lookup-insert written read v ((i, w) ∷ rest) = ground (arith, lookup-insert written read v rest)

  pub lookup-remove :
      (k j : ℕ) (m : List (ℕ × V)) → lookup j (remove k m) ≡ (if k == j then none else lookup j m)
  unfolding lookup remove
  lookup-remove k j [] = ground arith
  lookup-remove k j ((i, w) ∷ m) = ground (arith, lookup-remove k j m)

  pub lookup-modify :
      (k j : ℕ) (f : V → V) (m : List (ℕ × V))
      → lookup j (modify k f m)
        ≡ (if k == j then elim (lookup j m) [ none ↦ none | some v ↦ some (f v) ] else lookup j m)
  unfolding lookup modify
  lookup-modify k j f [] = ground arith
  lookup-modify k j f ((i, w) ∷ m) = ground (arith, lookup-modify k j f m)

  pub has-nil : (k : ℕ) (m : List (ℕ × V)) → m ≡ [] → has k m ≡ false
  unfolding lookup
  has-nil k [] h = refl
  has-nil k (p ∷ m) h = cc

  pub has-insert :
      (k j : ℕ) (v : V) (m : List (ℕ × V))
      → has j (insert k v m) ≡ (if k == j then true else has j m)
  has-insert k j v m = ground (arith, lookup-insert k j v m)

  pub has-remove :
      (k j : ℕ) (m : List (ℕ × V)) → has j (remove k m) ≡ (if k == j then false else has j m)
  has-remove k j m = ground (arith, lookup-remove k j m)

  pub has-modify : (k j : ℕ) (f : V → V) (m : List (ℕ × V)) → has j (modify k f m) ≡ has j m
  has-modify k j f m = ground (arith, lookup-modify k j f m)

  pub remove_absent : (k : ℕ) (m : List (ℕ × V)) → lookup k m ≡ none → remove k m ≡ m
  unfolding lookup remove
  remove_absent k [] h = refl
  remove_absent k ((i, w) ∷ m) h = ground (arith, remove_absent k m)

  pub remove-insert :
      (k : ℕ) (v : V) (m : List (ℕ × V)) → lookup k m ≡ none → remove k (insert k v m) ≡ m
  unfolding lookup remove insert
  remove-insert k v [] h = ground arith
  remove-insert k v ((i, w) ∷ m) h = ground (arith, remove-insert k v m)
