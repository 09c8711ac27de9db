-- ===== src/Session/Invariant/Shrink.antt =====
-- Well-formedness of the state after `close_pane` loops of manager.rs and a change of the layout that drops their leaves.
use forgetty.Base.{
  ℕ, ◌+◌, ◌≤◌, ◌≡◌, ap, List, [], some, arith, length, length-set, length-remove_at, get_elem?,
  get_elem?-lt, set, remove_at, count, All, All-get, All-set, All-remove_at, sum_by-set,
  sum_by-remove_at,
}
use forgetty.Session.Tree.{collect_pane_ids}
use forgetty.Session.Tree.Leaves.{collect_pane_ids-leaves}
use forgetty.Session.State.{SessionTab, SessionWorkspace, SessionManagerInner, set_workspaces}
use forgetty.Session.Tabs.{Found, keep_tabs, close_tab_panes}
use forgetty.Session.Tabs.Search.{IsFound}
use forgetty.Session.Invariant.Removal.{Removed, close_tab_panes-Removed}
use forgetty.Session.Invariant.{
  tab_occurs, ws_occurs, tab_has_id, ws_tab_ids, IsFocused, WsIsValid, IsValid, IsFresh,
}

module _ (idx : ℕ) (s t : SessionManagerInner) (ws ws' : SessionWorkspace) (pids : List ℕ) where
  -- One workspace lost the leaves `pids`, and their panes were removed.
  pub record Shrinks : Type 0 where
    pub at_ws : get_elem? s.workspaces idx ≡ some ws
    pub valid : WsIsValid ws'
    pub leaves : (a : ℕ) → ws_occurs a ws' + count a pids ≡ ws_occurs a ws
    pub ids : (i : ℕ) → ws_tab_ids i ws' ≤ ws_tab_ids i ws
    pub removed : Removed pids (set_workspaces (set s.workspaces idx ws') s) t

  pub Shrinks-IsValid : Shrinks → IsValid s → IsValid t
  unfolding set_workspaces
  Shrinks-IsValid h v = record {
    active = rw (h.removed.layout, length-set s.workspaces idx ws') v.active;
    each = rw (h.removed.layout) (All-set WsIsValid s.workspaces idx ws' v.each h.valid);
    ordered = λ a. ground (arith, v.ordered a, h.removed.registered a, h.removed.order a);
    placed = λ a. rw (h.removed.layout) (
        ground (
          arith,
          v.placed a,
          h.removed.registered a,
          h.leaves a,
          sum_by-set (ws_occurs a) s.workspaces idx ws ws' h.at_ws,
        ));
    once = λ a. rw (h.removed.layout) (
        omega
          (arith, v.once a, h.leaves a, sum_by-set (ws_occurs a) s.workspaces idx ws ws' h.at_ws));
    tab_once = λ i. rw (h.removed.layout) (
        omega (
          arith,
          v.tab_once i,
          h.ids i,
          sum_by-set (ws_tab_ids i) s.workspaces idx ws ws' h.at_ws,
        ));
  }

  pub Shrinks-IsFresh : (p q : ℕ) → Shrinks → IsFresh p q s → IsFresh p q t
  unfolding set_workspaces
  Shrinks-IsFresh p q h f = record {
    new_pane = rw (h.removed.layout) (
        omega (
          arith,
          f.new_pane,
          h.leaves p,
          sum_by-set (ws_occurs p) s.workspaces idx ws ws' h.at_ws,
        ));
    new_tab = rw (h.removed.layout) (
        omega
          (arith, f.new_tab, h.ids q, sum_by-set (ws_tab_ids q) s.workspaces idx ws ws' h.at_ws));
  }

pub keep_tabs-WsIsValid :
    (tabs : List SessionTab) (ws : SessionWorkspace)
    → length tabs + 1 ≡ length ws.tabs
    → All IsFocused tabs
    → WsIsValid ws
    → WsIsValid (keep_tabs tabs ws)
unfolding keep_tabs
keep_tabs-WsIsValid tabs ws len focused w = record { active = ground arith; focused = focused }

-- The tab that was found is removed, and its panes with it.
pub close_found-Shrinks :
    (tab_id : ℕ) (s : SessionManagerInner) (f : Found)
    → IsFound tab_id s.workspaces f
    → IsValid s
    → let ws' = keep_tabs (remove_at f.ws.tabs f.tab_idx) f.ws in
      let pids = collect_pane_ids f.tab.pane_tree [] in
      Shrinks f.ws_idx s
        (close_tab_panes pids (set_workspaces (set s.workspaces f.ws_idx ws') s))
        f.ws
        ws'
        pids
unfolding keep_tabs
close_found-Shrinks tab_id s f found v =
    let w = All-get WsIsValid s.workspaces f.ws_idx f.ws v.each found.at_ws in
    let tabs = remove_at f.ws.tabs f.tab_idx in
    record {
      at_ws = found.at_ws;
      valid =
          keep_tabs-WsIsValid tabs f.ws
            (length-remove_at f.ws.tabs f.tab_idx
              (get_elem?-lt f.ws.tabs f.tab_idx f.tab found.place))
            (All-remove_at IsFocused f.ws.tabs f.tab_idx w.focused) w;
      leaves = λ a. omega (
        arith,
        sum_by-remove_at (tab_occurs a) f.ws.tabs f.tab_idx f.tab found.place,
        ap (count a) (collect_pane_ids-leaves f.tab.pane_tree []),
      );
      ids =
          λ i. omega (arith, sum_by-remove_at (tab_has_id i) f.ws.tabs f.tab_idx f.tab found.place);
      removed = close_tab_panes-Removed (collect_pane_ids f.tab.pane_tree []) _;
    }
