-- ===== src/Daemon/Graft.antt =====
-- A leaf of the layout replaced by a tree: what one split does, and what a restored tree amounts to.
use forgetty.Base.{
  ℕ, ◌≤◌, ◌≡◌, refl, String, List, [], ◌∷◌, false, some, arith, ◌==◌, if◌then◌else◌, count-append,
  sum_by, Option-cases, inl, inr,
}
use forgetty.Session.Tree.{PaneTreeLayout, leaf, split, replace_leaf_with_ratio}
use forgetty.Session.Tree.Leaves.{
  leaves, occurs, replace-contains, replace_absent, contains_leaf-occurs,
}
use forgetty.Session.State.{SessionTab, SessionWorkspace}
use forgetty.Session.Panes.{split_in_tabs, split_in_workspaces}
use forgetty.Session.Invariant.Splits.{tabs_missing}
use forgetty.Session.Invariant.{tab_occurs, layout_occurs}

-- The tree with `sub` at every leaf of the pane.
unfoldable pub graft : ℕ → PaneTreeLayout → PaneTreeLayout → PaneTreeLayout
graft a sub (leaf p) = if p == a then sub else leaf p
graft a sub (split d r first second) = split d r (graft a sub first) (graft a sub second)

unfoldable pub graft_tabs : ℕ → PaneTreeLayout → List SessionTab → List SessionTab
unfolding graft
graft_tabs a sub [] = []
graft_tabs a sub (tab ∷ tabs) =
    record tab { pane_tree = graft a sub tab.pane_tree } ∷ graft_tabs a sub tabs

unfoldable pub graft_all : ℕ → PaneTreeLayout → List SessionWorkspace → List SessionWorkspace
unfolding graft_tabs
graft_all a sub [] = []
graft_all a sub (ws ∷ wss) = record ws { tabs = graft_tabs a sub ws.tabs } ∷ graft_all a sub wss

pub graft_absent : (a : ℕ) (sub tree : PaneTreeLayout) → occurs a tree ≡ 0 → graft a sub tree ≡ tree
unfolding graft leaves
graft_absent a sub (leaf p) h = ground arith
graft_absent a sub (split d r first second) h =
    let both = count-append a (leaves first) (leaves second) in
    rw (graft_absent a sub first (omega arith), graft_absent a sub second (omega arith)) refl

pub graft_tabs_absent :
    (a : ℕ) (sub : PaneTreeLayout) (tabs : List SessionTab)
    → sum_by (tab_occurs a) tabs ≡ 0
    → graft_tabs a sub tabs ≡ tabs
unfolding graft_tabs
graft_tabs_absent a sub [] h = refl
graft_tabs_absent a sub (tab ∷ tabs) h =
    rw (graft_absent a sub tab.pane_tree (omega arith), graft_tabs_absent a sub tabs (omega arith))
      refl

pub graft_all_absent :
    (a : ℕ) (sub : PaneTreeLayout) (wss : List SessionWorkspace)
    → layout_occurs a wss ≡ 0
    → graft_all a sub wss ≡ wss
unfolding graft_all
graft_all_absent a sub [] h = refl
graft_all_absent a sub (ws ∷ wss) h =
    rw (graft_tabs_absent a sub ws.tabs (omega arith), graft_all_absent a sub wss (omega arith))
      refl

graft_leaf : (a : ℕ) (tree : PaneTreeLayout) → graft a (leaf a) tree ≡ tree
unfolding graft
graft_leaf a (leaf p) = ground arith
graft_leaf a (split d r first second) = rw (graft_leaf a first, graft_leaf a second) refl

graft_tabs_leaf : (a : ℕ) (tabs : List SessionTab) → graft_tabs a (leaf a) tabs ≡ tabs
unfolding graft_tabs
graft_tabs_leaf a [] = refl
graft_tabs_leaf a (tab ∷ tabs) = rw (graft_leaf a tab.pane_tree, graft_tabs_leaf a tabs) refl

-- A leaf in its own place changes nothing.
pub graft_all_leaf : (a : ℕ) (wss : List SessionWorkspace) → graft_all a (leaf a) wss ≡ wss
unfolding graft_all
graft_all_leaf a [] = refl
graft_all_leaf a (ws ∷ wss) = rw (graft_tabs_leaf a ws.tabs, graft_all_leaf a wss) refl

module _ (a b : ℕ) (x y : PaneTreeLayout) where
  -- Two grafts one after the other, where the second pane stands nowhere but in what was put in.
  graft-graft :
      (tree : PaneTreeLayout)
      → ((a == b) ≡ false → occurs b tree ≡ 0)
      → graft b y (graft a x tree) ≡ graft a (graft b y x) tree
  unfolding graft leaves
  graft-graft (leaf p) h = ground (arith, graft_absent b y (leaf p))
  graft-graft (split d r first second) h =
      let both = count-append b (leaves first) (leaves second) in
      rw
        (
          graft-graft first (λ e. ground (arith, h e)),
          graft-graft second (λ e. ground (arith, h e)),
        )
        refl

  graft_tabs-graft :
      (tabs : List SessionTab)
      → ((a == b) ≡ false → sum_by (tab_occurs b) tabs ≡ 0)
      → graft_tabs b y (graft_tabs a x tabs) ≡ graft_tabs a (graft b y x) tabs
  unfolding graft_tabs
  graft_tabs-graft [] h = refl
  graft_tabs-graft (tab ∷ tabs) h =
      rw
        (
          graft-graft tab.pane_tree (λ e. ground (arith, h e)),
          graft_tabs-graft tabs (λ e. ground (arith, h e)),
        )
        refl

  pub graft_all-graft :
      (wss : List SessionWorkspace)
      → ((a == b) ≡ false → layout_occurs b wss ≡ 0)
      → graft_all b y (graft_all a x wss) ≡ graft_all a (graft b y x) wss
  unfolding graft_all
  graft_all-graft [] h = refl
  graft_all-graft (ws ∷ wss) h =
      rw
        (
          graft_tabs-graft ws.tabs (λ e. ground (arith, h e)),
          graft_all-graft wss (λ e. ground (arith, h e)),
        )
        refl

module _ (target new_pane : ℕ) (direction : String) (ratio : ℕ) where
  abbrev pair : PaneTreeLayout
  pair = split direction ratio (leaf target) (leaf new_pane)

  replace-graft :
      (tree : PaneTreeLayout)
      → occurs target tree ≤ 1
      → (replace_leaf_with_ratio tree target new_pane direction ratio).0 ≡ graft target pair tree
  unfolding replace_leaf_with_ratio graft leaves
  replace-graft (leaf p) h = ground arith
  replace-graft (split d r first second) h =
      let both = count-append target (leaves first) (leaves second) in
      ground (
        arith,
        replace-graft first (omega arith),
        replace-graft second (omega arith),
        replace-contains target new_pane direction ratio first,
        contains_leaf-occurs first target,
        graft_absent target pair second,
      )

  -- A split that reports a tab found the target there.
  occurs-in_tabs_found :
      (tabs : List SessionTab) (tab_id : ℕ)
      → (split_in_tabs target new_pane direction ratio tabs).1 ≡ some tab_id
      → 1 ≤ sum_by (tab_occurs target) tabs
  unfolding split_in_tabs
  occurs-in_tabs_found [] tab_id h = cc
  occurs-in_tabs_found (tab ∷ tabs) tab_id h = ground (
    arith,
    occurs-in_tabs_found tabs tab_id,
    replace-contains target new_pane direction ratio tab.pane_tree,
    contains_leaf-occurs tab.pane_tree target,
  )

  split_in_tabs-graft :
      (tabs : List SessionTab)
      → sum_by (tab_occurs target) tabs ≤ 1
      → (split_in_tabs target new_pane direction ratio tabs).0 ≡ graft_tabs target pair tabs
  unfolding split_in_tabs graft_tabs
  split_in_tabs-graft [] h = refl
  split_in_tabs-graft (tab ∷ tabs) h = ground (
    arith,
    split_in_tabs-graft tabs (omega arith),
    replace-graft tab.pane_tree (omega arith),
    replace-contains target new_pane direction ratio tab.pane_tree,
    replace_absent target new_pane direction ratio tab.pane_tree,
    contains_leaf-occurs tab.pane_tree target,
    graft_tabs_absent target pair tabs,
  )

  -- A split of a pane that stands once in the layout is a graft.
  pub split_in_workspaces-graft :
      (wss : List SessionWorkspace)
      → layout_occurs target wss ≤ 1
      → (split_in_workspaces target new_pane direction ratio wss).0 ≡ graft_all target pair wss
  unfolding split_in_workspaces graft_all
  split_in_workspaces-graft [] h = refl
  split_in_workspaces-graft (ws ∷ wss) h =
      let tabs = split_in_tabs-graft ws.tabs (omega arith) in
      let rest = split_in_workspaces-graft wss (omega arith) in
      elim (Option-cases (split_in_tabs target new_pane direction ratio ws.tabs).1) [
        | inl miss ↦
            let absent = tabs_missing target new_pane direction ratio ws.tabs miss in
            rw (miss, split_in_workspaces, rest, graft_tabs_absent target pair ws.tabs absent.1)
              refl
        | inr (tab_id, hit) ↦
            let found = occurs-in_tabs_found ws.tabs tab_id hit in
            rw (hit, split_in_workspaces, tabs, graft_all_absent target pair wss (omega arith)) refl
      ]
