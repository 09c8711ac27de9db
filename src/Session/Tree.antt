-- ===== src/Session/Tree.antt =====
-- The pane tree of a tab, `PaneTreeLayout` of crates/forgetty-session/src/workspace.rs, and the
-- tree helpers at the end of crates/forgetty-session/src/manager.rs. A pane id, a UUID in the
-- source, is a number; a ratio is the bit pattern of its `f32` (Ratio.antt of this folder).
pub mod Ratio
pub mod Leaves
pub mod Splits
use forgetty.Base.{
  ℕ, String, List, [], ◌∷◌, ◌++◌, Bool, true, false, ◌||◌, Option, none, some, ◌==◌, if◌then◌else◌,
}
use Ratio.{half}

pub data PaneTreeLayout : Type 0 where
  leaf : ℕ → PaneTreeLayout
  split : String → ℕ → PaneTreeLayout → PaneTreeLayout → PaneTreeLayout

-- The tree after the call, and whether the replacement was made. The second subtree is searched
-- only if the first one had no match.
unfoldable pub replace_leaf_with_ratio : PaneTreeLayout → ℕ → ℕ → String → ℕ → PaneTreeLayout × Bool
replace_leaf_with_ratio (leaf pane_id) target new_pane direction ratio =
    if pane_id == target
    then (split direction ratio (leaf target) (leaf new_pane), true)
    else (leaf pane_id, false)
replace_leaf_with_ratio (split d r first second) target new_pane direction ratio =
    let (first', in_first) = replace_leaf_with_ratio first target new_pane direction ratio in
    let (second', in_second) = replace_leaf_with_ratio second target new_pane direction ratio in
    if in_first then (split d r first' second, true) else (split d r first' second', in_second)

pub replace_leaf : PaneTreeLayout → ℕ → ℕ → String → PaneTreeLayout × Bool
replace_leaf tree target new_pane direction =
    replace_leaf_with_ratio tree target new_pane direction half

-- It goes down the first subtrees, so it always finds a leaf.
unfoldable pub leftmost_leaf_id : PaneTreeLayout → Option ℕ
leftmost_leaf_id (leaf pane_id) = some pane_id
leftmost_leaf_id (split d r first second) = leftmost_leaf_id first

-- `Option<PaneId> == Some(target)`
abbrev pub is_pane : Option ℕ → ℕ → Bool
is_pane none target = false
is_pane (some pane_id) target = pane_id == target

-- The tree after the call, and whether a ratio was written.
unfoldable pub update_ratio_for_pane : PaneTreeLayout → ℕ → ℕ → PaneTreeLayout × Bool
update_ratio_for_pane (leaf pane_id) target new_ratio = (leaf pane_id, false)
update_ratio_for_pane (split d r first second) target new_ratio =
    let (first', in_first) = update_ratio_for_pane first target new_ratio in
    let (second', in_second) = update_ratio_for_pane second target new_ratio in
    if is_pane (leftmost_leaf_id first) target
    then (split d new_ratio first second, true)
    else (if in_first
        then (split d r first' second, true)
        else (split d r first' second', in_second))

unfoldable pub pane_tree_contains_leaf : PaneTreeLayout → ℕ → Bool
pane_tree_contains_leaf (leaf pane_id) target = pane_id == target
pane_tree_contains_leaf (split d r first second) target =
    pane_tree_contains_leaf first target || pane_tree_contains_leaf second target

-- The ids are pushed onto `out`, those of the first subtree before those of the second.
unfoldable pub collect_pane_ids : PaneTreeLayout → List ℕ → List ℕ
collect_pane_ids (leaf pane_id) out = out ++ pane_id ∷ []
collect_pane_ids (split d r first second) out = collect_pane_ids second (collect_pane_ids first out)
