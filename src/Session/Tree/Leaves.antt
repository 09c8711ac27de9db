-- ===== src/Session/Tree/Leaves.antt =====
-- What the tree helpers do to the leaves of a tree.
use forgetty.Base.{
  ℕ, ◌+◌, ◌≤◌, ◌≡◌, refl, List, [], ◌∷◌, ◌++◌, Bool, true, false, String, arith, ◌==◌,
  if◌then◌else◌, to_nat, count, count-append, ltb, append_assoc, ◌⊎◌,
}
use forgetty.Session.Tree.{
  PaneTreeLayout, leaf, split, replace_leaf_with_ratio, leftmost_leaf_id, update_ratio_for_pane,
  pane_tree_contains_leaf, collect_pane_ids,
}

-- The leaves of a tree from left to right.
unfoldable pub leaves : PaneTreeLayout → List ℕ
leaves (leaf pane_id) = pane_id ∷ []
leaves (split d r first second) = leaves first ++ leaves second

pub collect_pane_ids-leaves :
    (tree : PaneTreeLayout) (out : List ℕ) → collect_pane_ids tree out ≡ out ++ leaves tree
unfolding collect_pane_ids leaves
collect_pane_ids-leaves (leaf pane_id) out = refl
collect_pane_ids-leaves (split d r first second) out =
    rw (collect_pane_ids-leaves first out, collect_pane_ids-leaves second (out ++ leaves first))
      (append_assoc out (leaves first) (leaves second))

-- How often a pane occurs in a tree.
abbrev pub occurs : ℕ → PaneTreeLayout → ℕ
occurs a tree = count a (leaves tree)

pub occurs-split :
    (a : ℕ) (d : String) (r : ℕ) (first second : PaneTreeLayout)
    → occurs a (split d r first second) ≡ occurs a first + occurs a second
unfolding leaves
occurs-split a d r first second = count-append a (leaves first) (leaves second)

-- The search finds exactly the leaves.
pub contains_leaf-occurs :
    (tree : PaneTreeLayout) (a : ℕ)
    → ((pane_tree_contains_leaf tree a ≡ true) × (1 ≤ occurs a tree))
      ⊎ ((pane_tree_contains_leaf tree a ≡ false) × (occurs a tree ≡ 0))
unfolding pane_tree_contains_leaf leaves
contains_leaf-occurs (leaf pane_id) a = ground arith
contains_leaf-occurs (split d r first second) a = ground (
  arith,
  contains_leaf-occurs first a,
  contains_leaf-occurs second a,
  count-append a (leaves first) (leaves second),
)

module _ (target new_pane : ℕ) (direction : String) (ratio : ℕ) where
  abbrev replace : PaneTreeLayout → PaneTreeLayout × Bool
  replace tree = replace_leaf_with_ratio tree target new_pane direction ratio

  pub replace-contains :
      (tree : PaneTreeLayout) → (replace tree).1 ≡ pane_tree_contains_leaf tree target
  unfolding replace_leaf_with_ratio pane_tree_contains_leaf
  replace-contains (leaf pane_id) = ground arith
  replace-contains (split d r first second) =
      ground (arith, replace-contains first, replace-contains second)

  pub replace_absent : (tree : PaneTreeLayout) → (replace tree).1 ≡ false → (replace tree).0 ≡ tree
  unfolding replace_leaf_with_ratio
  replace_absent (leaf pane_id) h = ground arith
  replace_absent (split d r first second) h =
      ground (arith, replace_absent first, replace_absent second)

  -- A replacement adds the new pane once and keeps every other leaf.
  pub occurs-replace :
      (tree : PaneTreeLayout) (a : ℕ)
      → occurs a (replace tree).0
        ≡ occurs a tree + (if (replace tree).1 then to_nat (new_pane == a) else 0)
  unfolding replace_leaf_with_ratio leaves
  occurs-replace (leaf pane_id) a = ground arith
  occurs-replace (split d r first second) a = ground (
    arith,
    occurs-replace first a,
    occurs-replace second a,
    count-append a (leaves first) (leaves second),
    count-append a (leaves (replace first).0) (leaves second),
    count-append a (leaves (replace first).0) (leaves (replace second).0),
  )

  pub leftmost-replace :
      (tree : PaneTreeLayout) → leftmost_leaf_id (replace tree).0 ≡ leftmost_leaf_id tree
  unfolding replace_leaf_with_ratio leftmost_leaf_id
  leftmost-replace (leaf pane_id) = ground arith
  leftmost-replace (split d r first second) = ground (arith, leftmost-replace first)

-- A ratio update keeps every leaf in its place.
pub leaves-update_ratio :
    (tree : PaneTreeLayout) (target ratio : ℕ)
    → leaves (update_ratio_for_pane tree target ratio).0 ≡ leaves tree
unfolding update_ratio_for_pane leaves
leaves-update_ratio (leaf pane_id) target ratio = refl
leaves-update_ratio (split d r first second) target ratio =
    ground (arith, leaves-update_ratio first target ratio, leaves-update_ratio second target ratio)

-- The new pane directly after the first occurrence of the target.
unfoldable pub insert_after : ℕ → ℕ → List ℕ → List ℕ
insert_after target new_pane [] = []
insert_after target new_pane (x ∷ xs) =
    let rest = insert_after target new_pane xs in
    if x == target then x ∷ new_pane ∷ xs else x ∷ rest

insert_after-append :
    (target new_pane : ℕ) (xs ys : List ℕ)
    → insert_after target new_pane (xs ++ ys) ≡ (
        if ltb 0 (count target xs)
        then insert_after target new_pane xs ++ ys
        else xs ++ insert_after target new_pane ys)
unfolding insert_after
insert_after-append target new_pane [] ys = ground arith
insert_after-append target new_pane (x ∷ xs) ys =
    ground (arith, insert_after-append target new_pane xs ys)

-- A split puts the new pane directly to the right of the first leaf of the target pane, in the order
-- of the leaves from left to right; every other leaf keeps its place, and without such a leaf none
-- is added.
leaves-replace :
    (target new_pane : ℕ) (direction : String) (ratio : ℕ) (tree : PaneTreeLayout)
    → leaves (replace_leaf_with_ratio tree target new_pane direction ratio).0
      ≡ insert_after target new_pane (leaves tree)
unfolding replace_leaf_with_ratio leaves insert_after
leaves-replace target new_pane direction ratio (leaf pane_id) = ground arith
leaves-replace target new_pane direction ratio (split d r first second) = ground (
  arith,
  leaves-replace target new_pane direction ratio first,
  leaves-replace target new_pane direction ratio second,
  insert_after-append target new_pane (leaves first) (leaves second),
  replace-contains target new_pane direction ratio first,
  replace_absent target new_pane direction ratio first,
  contains_leaf-occurs first target,
)
