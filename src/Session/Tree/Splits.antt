-- ===== src/Session/Tree/Splits.antt =====
-- The ratio update of manager.rs, and the splits of a tree in the order of its search.
use forgetty.Base.{
  Bool-cases, inl, inr, ℕ, ◌≡◌, refl, Bool, true, false, Option, String, arith, if◌then◌else◌, List,
  [], ◌∷◌, ◌++◌,
}
use forgetty.Session.Tree.{
  PaneTreeLayout, leaf, split, leftmost_leaf_id, is_pane, update_ratio_for_pane,
}

-- The splits of a tree from the root down and from left to right, each as the pane that its first
-- subtree begins with and its ratio: what a client reports and what the update is keyed by.
unfoldable pub splits : PaneTreeLayout → List (Option ℕ × ℕ)
splits (leaf pane_id) = []
splits (split d r first second) = (leftmost_leaf_id first, r) ∷ splits first ++ splits second

-- The first entry with the pane as its key gets the ratio, and the others stay.
unfoldable pub write_first : ℕ → ℕ → List (Option ℕ × ℕ) → List (Option ℕ × ℕ) × Bool
write_first target ratio [] = ([], false)
write_first target ratio ((key, r) ∷ rest) =
    let (rest', done) = write_first target ratio rest in
    if is_pane key target then ((key, ratio) ∷ rest, true) else ((key, r) ∷ rest', done)

pub write_first-append :
    (target ratio : ℕ) (xs ys : List (Option ℕ × ℕ))
    → write_first target ratio (xs ++ ys) ≡ (
        if (write_first target ratio xs).1
        then ((write_first target ratio xs).0 ++ ys, true)
        else (xs ++ (write_first target ratio ys).0, (write_first target ratio ys).1))
unfolding write_first
write_first-append target ratio [] ys = refl
write_first-append target ratio ((key, r) ∷ xs) ys =
    ground (arith, write_first-append target ratio xs ys)

leftmost-update :
    (tree : PaneTreeLayout) (target ratio : ℕ)
    → leftmost_leaf_id (update_ratio_for_pane tree target ratio).0 ≡ leftmost_leaf_id tree
unfolding update_ratio_for_pane leftmost_leaf_id
leftmost-update (leaf pane_id) target ratio = refl
leftmost-update (split d r first second) target ratio =
    ground (arith, leftmost-update first target ratio)

update_absent :
    (tree : PaneTreeLayout) (target ratio : ℕ)
    → (update_ratio_for_pane tree target ratio).1 ≡ false
    → (update_ratio_for_pane tree target ratio).0 ≡ tree
unfolding update_ratio_for_pane
update_absent (leaf pane_id) target ratio h = refl
update_absent (split d r first second) target ratio h =
    ground (arith, update_absent first target ratio, update_absent second target ratio)

-- `update_ratio_for_pane` writes the first split, from the root down and from left to right, whose
-- first subtree begins with the pane; no other ratio changes, and it reports whether there is one.
splits-update_ratio :
    (tree : PaneTreeLayout) (target ratio : ℕ)
    → (
      splits (update_ratio_for_pane tree target ratio).0,
      (update_ratio_for_pane tree target ratio).1,
    )
      ≡ write_first target ratio (splits tree)
unfolding splits write_first update_ratio_for_pane
splits-update_ratio (leaf pane_id) target ratio = refl
splits-update_ratio (split d r first second) target ratio = ground (
  arith,
  splits-update_ratio first target ratio,
  splits-update_ratio second target ratio,
  write_first-append target ratio (splits first) (splits second),
  leftmost-update first target ratio,
  update_absent first target ratio,
)

-- An update keyed by a pane wrote `new_ratio` into the outer split, and left the inner one as it was.
pub data OuterWritten (d e : String) (r q new_ratio : ℕ) (x y z : PaneTreeLayout)
    : PaneTreeLayout × Bool → Type 0 where
  outer : OuterWritten d e r q new_ratio x y z (split d new_ratio (split e q x y) z, true)

-- The ratios of both splits are the old ones; the subtrees below may have changed.
pub data BothKept (d e : String) (r q : ℕ) : PaneTreeLayout × Bool → Type 0 where
  kept :
      (x y z : PaneTreeLayout) (written : Bool)
      → BothKept d e r q (split d r (split e q x y) z, written)

-- Two splits that begin with the same pane: no update, whichever pane is its key, writes the ratio of
-- the inner one. An update whose key is the pane that both begin with writes the outer one and changes
-- nothing else; one with any other key leaves the ratios of both.
pub update_ratio_nested :
    (d e : String) (r q new_ratio key : ℕ) (x y z : PaneTreeLayout)
    → let updated = update_ratio_for_pane (split d r (split e q x y) z) key new_ratio in
      if is_pane (leftmost_leaf_id x) key
      then OuterWritten d e r q new_ratio x y z updated
      else BothKept d e r q updated
unfolding update_ratio_for_pane leftmost_leaf_id
update_ratio_nested d e r q new_ratio key x y z =
    let (x', in_x) = update_ratio_for_pane x key new_ratio in
    let (y', in_y) = update_ratio_for_pane y key new_ratio in
    let (z', in_z) = update_ratio_for_pane z key new_ratio in
    elim (Bool-cases (is_pane (leftmost_leaf_id x) key)) [
      | inl begins ↦ rw begins outer
      | inr other ↦ rw other (elim (Bool-cases in_x) [
        | inl there ↦ rw there (kept x' y z true)
        | inr not_x ↦ rw not_x (elim (Bool-cases in_y) [
          | inl there ↦ rw there (kept x' y' z true)
          | inr not_y ↦ rw not_y (kept x' y' z' in_z)
        ])
      ])
    ]
