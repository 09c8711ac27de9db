-- ===== src/Session/Invariant/Growth.antt =====
-- Well-formedness of the state after `create_pane` of manager.rs and a change of the layout that adds its leaf.
use forgetty.Base.{
  ℕ, ◌+◌, ◌≤◌, ◌≡◌, refl, ap, List, [], ◌∷◌, some, arith, length, length-append, length-set,
  get_elem?, set, count-append, to_nat, ◌==◌, All, All-append, All-set, sum_by, sum_by-append,
  sum_by-set,
}
use forgetty.Session.Tree.Leaves.{leaves}
use forgetty.Session.State.{PaneState, SessionWorkspace, SessionManagerInner, set_workspaces}
use forgetty.Session.Registry.{register, leaf_tab}
use forgetty.Session.Tabs.{push_tab}
use forgetty.Session.Invariant.{
  tab_occurs, ws_occurs, layout_occurs, tab_has_id, ws_tab_ids, layout_tab_ids, IsFocused,
  WsIsValid, IsValid, IsFresh, has-register,
}

-- The layout got one leaf more, that of a pane which was in no tree.
pub grow-IsValid :
    (pane_id : ℕ) (pane : PaneState) (s : SessionManagerInner) (workspaces : List SessionWorkspace)
    → length workspaces ≡ length s.workspaces
    → All WsIsValid workspaces
    → ((a : ℕ) → layout_occurs a workspaces ≡ layout_occurs a s.workspaces + to_nat (pane_id == a))
    → ((t : ℕ) → layout_tab_ids t workspaces ≤ 1)
    → layout_occurs pane_id s.workspaces ≡ 0
    → IsValid s
    → IsValid (set_workspaces workspaces (register pane_id pane s))
unfolding set_workspaces register
grow-IsValid pane_id pane s workspaces len each occ ids fresh v = record {
  active = omega (arith, v.active, len);
  each = each;
  ordered = λ a. ground (
    arith,
    v.ordered a,
    v.placed a,
    v.placed pane_id,
    count-append a s.pane_order (pane_id ∷ []),
    has-register pane_id a pane s,
  );
  placed = λ a. ground (arith, v.placed a, occ a, has-register pane_id a pane s);
  once = λ a. ground (arith, v.once a, occ a);
  tab_once = ids;
}

pub leaf_tab-IsFocused : (tab_id pane_id : ℕ) → IsFocused (leaf_tab tab_id pane_id)
unfolding leaf_tab
leaf_tab-IsFocused tab_id pane_id = tt

pub occurs-leaf_tab :
    (tab_id pane_id a : ℕ) → tab_occurs a (leaf_tab tab_id pane_id) ≡ to_nat (pane_id == a)
unfolding leaf_tab leaves
occurs-leaf_tab tab_id pane_id a = omega arith

pub has_id-leaf_tab :
    (tab_id pane_id t : ℕ) → tab_has_id t (leaf_tab tab_id pane_id) ≡ to_nat (tab_id == t)
unfolding leaf_tab
has_id-leaf_tab tab_id pane_id t = refl

-- What a new tab at the end of a workspace does to the workspace.
pub push_tab-WsIsValid :
    (tab_id pane_id : ℕ) (ws : SessionWorkspace)
    → WsIsValid ws
    → WsIsValid (push_tab (leaf_tab tab_id pane_id) ws)
push_tab-WsIsValid tab_id pane_id ws w = record {
  active = omega (arith, w.active, length-append ws.tabs (leaf_tab tab_id pane_id ∷ []));
  focused =
      All-append IsFocused ws.tabs (leaf_tab tab_id pane_id ∷ []) w.focused
        (leaf_tab-IsFocused tab_id pane_id, tt);
}

pub ws_occurs-push_tab :
    (tab_id pane_id a : ℕ) (ws : SessionWorkspace)
    → ws_occurs a (push_tab (leaf_tab tab_id pane_id) ws) ≡ ws_occurs a ws + to_nat (pane_id == a)
ws_occurs-push_tab tab_id pane_id a ws = omega (
  arith,
  sum_by-append (tab_occurs a) ws.tabs (leaf_tab tab_id pane_id ∷ []),
  occurs-leaf_tab tab_id pane_id a,
)

pub ws_tab_ids-push_tab :
    (tab_id pane_id t : ℕ) (ws : SessionWorkspace)
    → ws_tab_ids t (push_tab (leaf_tab tab_id pane_id) ws) ≡ ws_tab_ids t ws + to_nat (tab_id == t)
ws_tab_ids-push_tab tab_id pane_id t ws = omega (
  arith,
  sum_by-append (tab_has_id t) ws.tabs (leaf_tab tab_id pane_id ∷ []),
  has_id-leaf_tab tab_id pane_id t,
)

-- A new tab with a new pane, in a workspace that exists; `ws'` may set another active tab.
pub add_tab-IsValid :
    (idx tab_id pane_id : ℕ) (pane : PaneState) (s : SessionManagerInner)
    (ws ws' : SessionWorkspace)
    → get_elem? s.workspaces idx ≡ some ws
    → ws'.tabs ≡ (push_tab (leaf_tab tab_id pane_id) ws).tabs
    → WsIsValid ws'
    → IsFresh pane_id tab_id s
    → IsValid s
    → IsValid (set_workspaces (set s.workspaces idx ws') (register pane_id pane s))
add_tab-IsValid idx tab_id pane_id pane s ws ws' e added w fresh v =
    grow-IsValid pane_id pane s (set s.workspaces idx ws') (length-set s.workspaces idx ws')
      (All-set WsIsValid s.workspaces idx ws' v.each w)
      (λ a. omega (
        arith,
        sum_by-set (ws_occurs a) s.workspaces idx ws ws' e,
        ap (sum_by (tab_occurs a)) added,
        ws_occurs-push_tab tab_id pane_id a ws,
      ))
      (λ t. ground (
        arith,
        sum_by-set (ws_tab_ids t) s.workspaces idx ws ws' e,
        ap (sum_by (tab_has_id t)) added,
        ws_tab_ids-push_tab tab_id pane_id t ws,
        v.tab_once t,
        fresh.new_tab,
      ))
      fresh.new_pane v
