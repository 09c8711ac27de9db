-- ===== src/Session/Invariant/Splits.antt =====
-- Well-formedness of the state after the split operations of manager.rs, whose search goes through tabs and
-- workspaces.
use forgetty.Base.{
  ℕ, ◌+◌, ◌≡◌, refl, String, List, [], ◌∷◌, Bool, Option, none, some, arith, length, to_nat, ◌==◌,
  if◌then◌else◌, All, sum_by, is_some, Bool-cases, Option-cases, inl, inr,
}
use forgetty.Session.Tree.{PaneTreeLayout, replace_leaf_with_ratio}
use forgetty.Session.Tree.Leaves.{contains_leaf-occurs, replace-contains, occurs-replace}
use forgetty.Session.State.{SessionTab, SessionWorkspace}
use forgetty.Session.Panes.{split_in_tabs, split_in_workspaces}
use forgetty.Session.Invariant.{
  tab_occurs, layout_occurs, tab_has_id, layout_tab_ids, InTree, IsFocused, WsIsValid,
}

module _ (target new_pane_id : ℕ) (direction : String) (ratio : ℕ) where
  abbrev in_tabs : List SessionTab → List SessionTab × Option ℕ
  in_tabs = split_in_tabs target new_pane_id direction ratio

  abbrev in_workspaces : List SessionWorkspace → List SessionWorkspace × Option ℕ
  in_workspaces = split_in_workspaces target new_pane_id direction ratio

  -- What the split adds to the occurrences of a pane.
  abbrev added : ℕ → Option ℕ → ℕ
  added a found = if is_some found then to_nat (new_pane_id == a) else 0

  abbrev replaced : SessionTab → PaneTreeLayout × Bool
  replaced tab = replace_leaf_with_ratio tab.pane_tree target new_pane_id direction ratio

  occurs-in_tabs :
      (a : ℕ) (tabs : List SessionTab)
      → sum_by (tab_occurs a) (in_tabs tabs).0
        ≡ sum_by (tab_occurs a) tabs + added a (in_tabs tabs).1
  unfolding split_in_tabs
  occurs-in_tabs a [] = omega arith
  occurs-in_tabs a (tab ∷ tabs) = ground (
    arith,
    occurs-in_tabs a tabs,
    occurs-replace target new_pane_id direction ratio tab.pane_tree a,
  )

  pub tabs_missing :
      (tabs : List SessionTab)
      → (in_tabs tabs).1 ≡ none
      → ((in_tabs tabs).0 ≡ tabs) × (sum_by (tab_occurs target) tabs ≡ 0)
  unfolding split_in_tabs
  tabs_missing [] h = (refl, omega arith)
  tabs_missing (tab ∷ tabs) h = ground (
    arith,
    tabs_missing tabs,
    replace-contains target new_pane_id direction ratio tab.pane_tree,
    contains_leaf-occurs tab.pane_tree target,
  )

  ids-in_tabs :
      (t : ℕ) (tabs : List SessionTab)
      → (sum_by (tab_has_id t) (in_tabs tabs).0 ≡ sum_by (tab_has_id t) tabs)
        × (length (in_tabs tabs).0 ≡ length tabs)
  unfolding split_in_tabs
  ids-in_tabs t [] = (refl, refl)
  ids-in_tabs t (tab ∷ tabs) = ground (arith, ids-in_tabs t tabs)

  InTree-replace :
      (focus : Option ℕ) (tree : PaneTreeLayout)
      → InTree focus tree
      → InTree focus (replace_leaf_with_ratio tree target new_pane_id direction ratio).0
  InTree-replace none tree h = tt
  InTree-replace (some p) tree h =
      omega (arith, occurs-replace target new_pane_id direction ratio tree p)

  IsFocused-in_tabs : (tabs : List SessionTab) → All IsFocused tabs → All IsFocused (in_tabs tabs).0
  unfolding split_in_tabs
  IsFocused-in_tabs [] h = tt
  IsFocused-in_tabs (tab ∷ tabs) h = elim (Bool-cases (replaced tab).1) [
    | inl hit ↦ rw hit (InTree-replace tab.active_pane_id tab.pane_tree h.0, h.1)
    | inr miss ↦ rw miss (h.0, IsFocused-in_tabs tabs h.1)
  ]

  pub occurs-in_workspaces :
      (a : ℕ) (workspaces : List SessionWorkspace)
      → layout_occurs a (in_workspaces workspaces).0
        ≡ layout_occurs a workspaces + added a (in_workspaces workspaces).1
  unfolding split_in_workspaces
  occurs-in_workspaces a [] = omega arith
  occurs-in_workspaces a (ws ∷ workspaces) =
      ground (arith, occurs-in_workspaces a workspaces, occurs-in_tabs a ws.tabs)

  -- A pane that is a leaf somewhere is found; otherwise the layout is left alone.
  pub workspaces_missing :
      (workspaces : List SessionWorkspace)
      → (in_workspaces workspaces).1 ≡ none
      → ((in_workspaces workspaces).0 ≡ workspaces) × (layout_occurs target workspaces ≡ 0)
  unfolding split_in_workspaces
  workspaces_missing [] h = (refl, omega arith)
  workspaces_missing (ws ∷ workspaces) h =
      ground (arith, workspaces_missing workspaces, tabs_missing ws.tabs)

  pub ids-in_workspaces :
      (t : ℕ) (workspaces : List SessionWorkspace)
      → (layout_tab_ids t (in_workspaces workspaces).0 ≡ layout_tab_ids t workspaces)
        × (length (in_workspaces workspaces).0 ≡ length workspaces)
  unfolding split_in_workspaces
  ids-in_workspaces t [] = (refl, refl)
  ids-in_workspaces t (ws ∷ workspaces) =
      ground (arith, ids-in_workspaces t workspaces, ids-in_tabs t ws.tabs)

  pub valid-in_workspaces :
      (workspaces : List SessionWorkspace)
      → All WsIsValid workspaces
      → All WsIsValid (in_workspaces workspaces).0
  unfolding split_in_workspaces
  valid-in_workspaces [] h = tt
  valid-in_workspaces (ws ∷ workspaces) h = elim (Option-cases (in_tabs ws.tabs).1) [
    | inl miss ↦ rw (miss, split_in_workspaces) (h.0, valid-in_workspaces workspaces h.1)
    | inr (tab_id, hit) ↦
        rw (hit, split_in_workspaces)
          (
            record {
              active = omega (arith, h.0.active, (ids-in_tabs 0 ws.tabs).1);
              focused = IsFocused-in_tabs ws.tabs h.0.focused;
            },
            h.1,
          )
  ]
