-- ===== src/Session/Placement.antt =====
-- The split of a leaf in manager.rs, described by where the leaf stands and apart from the search for it.
use forgetty.Base.{
  ℕ, ◌≡◌, String, List, ◌∷◌, Bool, true, some, arith, [], Option-cases, Bool-cases, inl, inr, subst,
  ◌==◌, ==_iff, sym,
}
use forgetty.Session.Tree.{PaneTreeLayout, leaf, split, replace_leaf_with_ratio}
use forgetty.Session.Tree.Leaves.{replace_absent}
use forgetty.Session.State.{SessionTab, SessionWorkspace}
use forgetty.Session.Panes.{split_in_tabs, split_in_workspaces}

module _ (target new_pane_id : ℕ) (direction : String) (ratio : ℕ) where
  -- One leaf with the target became a split of the direction and the ratio, with the target first and
  -- the new pane second; the rest of the tree is the same.
  pub data LeafSplit : PaneTreeLayout → PaneTreeLayout → Type 0 where
    here : LeafSplit (leaf target) (split direction ratio (leaf target) (leaf new_pane_id))
    in_first :
        (d : String) (r : ℕ) (x x' y : PaneTreeLayout)
        → LeafSplit x x'
        → LeafSplit (split d r x y) (split d r x' y)
    in_second :
        (d : String) (r : ℕ) (x y y' : PaneTreeLayout)
        → LeafSplit y y'
        → LeafSplit (split d r x y) (split d r x y')

  -- One tab, the one with the id, has the leaf split; it keeps all else, and so do the other tabs.
  pub data TabSplit (tab_id : ℕ) : List SessionTab → List SessionTab → Type 0 where
    this_tab :
        (tab : SessionTab) (tree : PaneTreeLayout) (tabs : List SessionTab)
        → tab.id ≡ tab_id
        → LeafSplit tab.pane_tree tree
        → TabSplit tab_id (tab ∷ tabs) (record tab { pane_tree = tree } ∷ tabs)
    later_tab :
        (tab : SessionTab) (tabs tabs' : List SessionTab)
        → TabSplit tab_id tabs tabs'
        → TabSplit tab_id (tab ∷ tabs) (tab ∷ tabs')

  -- One workspace has that tab; the others are the same.
  pub data LayoutSplit (tab_id : ℕ) : List SessionWorkspace → List SessionWorkspace → Type 0 where
    this_workspace :
        (ws : SessionWorkspace) (tabs : List SessionTab) (workspaces : List SessionWorkspace)
        → TabSplit tab_id ws.tabs tabs
        → LayoutSplit tab_id (ws ∷ workspaces) (record ws { tabs = tabs } ∷ workspaces)
    later_workspace :
        (ws : SessionWorkspace) (workspaces workspaces' : List SessionWorkspace)
        → LayoutSplit tab_id workspaces workspaces'
        → LayoutSplit tab_id (ws ∷ workspaces) (ws ∷ workspaces')

  abbrev replace : PaneTreeLayout → PaneTreeLayout × Bool
  replace tree = replace_leaf_with_ratio tree target new_pane_id direction ratio

  replace_leaf-LeafSplit :
      (tree : PaneTreeLayout) → (replace tree).1 ≡ true → LeafSplit tree (replace tree).0
  unfolding replace_leaf_with_ratio
  replace_leaf-LeafSplit (leaf pane_id) hit = elim (Bool-cases (pane_id == target)) [
    | inl same ↦ rw same (
        subst
          (λ (p : ℕ). LeafSplit (leaf p) (split direction ratio (leaf target) (leaf new_pane_id)))
          (sym ((==_iff pane_id target).0 same)) here)
    | inr other ↦ absurd (ground (arith, hit, other))
  ]
  replace_leaf-LeafSplit (split d r first second) hit = elim (Bool-cases (replace first).1) [
    | inl found ↦ rw found (in_first d r first _ second (replace_leaf-LeafSplit first found))
    | inr missing ↦
        let second_hit : (replace second).1 ≡ true = ground (arith, hit, missing) in
        let same = replace_absent target new_pane_id direction ratio first missing in
        rw (missing, same) (in_second d r first second _ (replace_leaf-LeafSplit second second_hit))
  ]

  split_in_tabs-TabSplit :
      (tab_id : ℕ) (tabs : List SessionTab)
      → (split_in_tabs target new_pane_id direction ratio tabs).1 ≡ some tab_id
      → TabSplit tab_id tabs (split_in_tabs target new_pane_id direction ratio tabs).0
  unfolding split_in_tabs
  split_in_tabs-TabSplit tab_id [] hit = cc
  split_in_tabs-TabSplit tab_id (tab ∷ tabs) hit = elim (Bool-cases (replace tab.pane_tree).1) [
    | inl found ↦ rw found (
        this_tab tab _ tabs (ground (arith, hit, found))
          (replace_leaf-LeafSplit tab.pane_tree found))
    | inr missing ↦
        rw missing
          (later_tab tab tabs _ (split_in_tabs-TabSplit tab_id tabs (ground (arith, hit, missing))))
  ]

  pub split_in_workspaces-LayoutSplit :
      (tab_id : ℕ) (workspaces : List SessionWorkspace)
      → (split_in_workspaces target new_pane_id direction ratio workspaces).1 ≡ some tab_id
      → LayoutSplit tab_id workspaces
          (split_in_workspaces target new_pane_id direction ratio workspaces).0
  unfolding split_in_workspaces
  split_in_workspaces-LayoutSplit tab_id [] hit = cc
  split_in_workspaces-LayoutSplit tab_id (ws ∷ workspaces) hit =
      elim (Option-cases (split_in_tabs target new_pane_id direction ratio ws.tabs).1) [
        | inr (id, found) ↦
            rw (found, split_in_workspaces)
              (this_workspace ws _ workspaces
                (split_in_tabs-TabSplit tab_id ws.tabs (ground (arith, hit, found))))
        | inl missing ↦
            rw (missing, split_in_workspaces)
              (later_workspace ws workspaces _
                (split_in_workspaces-LayoutSplit tab_id workspaces (ground (arith, hit, missing))))
      ]
