-- ===== src/Session/Tabs/Search.antt =====
-- What the search for a tab by its id finds.
use forgetty.Base.{
  ℕ, suc, ◌+◌, ◌≡◌, sym, ap, ◌∙◌, List, [], ◌∷◌, some, arith, get_elem?, ◌==◌, Bool-cases,
  Option-cases, inl, inr,
}
use forgetty.Session.State.{SessionTab, SessionWorkspace}
use forgetty.Session.Tabs.{Found, position, find_tab}

-- Where a tab was found: at its place in its workspace, under its id.
pub record IsFound (tab_id : ℕ) (workspaces : List SessionWorkspace) (f : Found) : Type 0 where
  pub at_ws : get_elem? workspaces f.ws_idx ≡ some f.ws
  pub place : get_elem? f.ws.tabs f.tab_idx ≡ some f.tab
  pub named : f.tab.id ≡ tab_id

pub position_found :
    (i tab_id : ℕ) (tabs : List SessionTab) (j : ℕ) (tab : SessionTab)
    → position i tab_id tabs ≡ some (j, tab)
    → (k : ℕ) × (j ≡ i + k) × (get_elem? tabs k ≡ some tab) × (tab.id ≡ tab_id)
unfolding position
position_found i tab_id [] j tab e = cc
position_found i tab_id (x ∷ xs) j tab e = elim (Bool-cases (x.id == tab_id)) [
  | inl here ↦ (0, ground arith, ground arith, ground arith)
  | inr there ↦
      let (k, at, got, named) = position_found (suc i) tab_id xs j tab (ground arith) in
      (suc k, omega arith, got, named)
]

pub position_zero :
    (tab_id : ℕ) (tabs : List SessionTab) (j : ℕ) (tab : SessionTab)
    → position 0 tab_id tabs ≡ some (j, tab)
    → (get_elem? tabs j ≡ some tab) × (tab.id ≡ tab_id)
position_zero tab_id tabs j tab e =
    let (k, at, got, named) = position_found 0 tab_id tabs j tab e in
    let same : k ≡ j = omega arith in (ap (get_elem? tabs) (sym same) ∙ got, named)

pub find_tab_found :
    (i tab_id : ℕ) (workspaces : List SessionWorkspace) (f : Found)
    → find_tab i tab_id workspaces ≡ some f
    → (k : ℕ) × (f.ws_idx ≡ i + k)
      × (get_elem? workspaces k ≡ some f.ws)
      × (get_elem? f.ws.tabs f.tab_idx ≡ some f.tab)
      × (f.tab.id ≡ tab_id)
unfolding find_tab
find_tab_found i tab_id [] f e = cc
find_tab_found i tab_id (ws ∷ workspaces) f e = elim (Option-cases (position 0 tab_id ws.tabs)) [
  | inl there ↦
      let (k, at, got, place, named) =
        find_tab_found (suc i) tab_id workspaces f (rw (there, find_tab) at e) in
      (suc k, omega arith, got, place, named)
  | inr ((j, tab), here) ↦
      let (k, at, got, named) = position_found 0 tab_id ws.tabs j tab here in
      (0, ground arith, ground arith, ground arith, ground arith)
]

-- The search from the first workspace finds the tab at its place, under its id.
pub find_tab-IsFound :
    (tab_id : ℕ) (workspaces : List SessionWorkspace) (f : Found)
    → find_tab 0 tab_id workspaces ≡ some f
    → IsFound tab_id workspaces f
find_tab-IsFound tab_id workspaces f e =
    let (k, at, got, place, named) = find_tab_found 0 tab_id workspaces f e in
    let same : k ≡ f.ws_idx = omega arith in
    record { at_ws = ap (get_elem? workspaces) (sym same) ∙ got; place = place; named = named }
