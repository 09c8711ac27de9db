-- ===== src/Session/Invariant/Closing.antt =====
-- Well-formedness of the state after `close_pane` of manager.rs.
use forgetty.Base.{
  ℕ, ◌+◌, ◌≤◌, ◌≡◌, refl, ap, subst, List, [], ◌∷◌, true, false, arith, length, has, count,
  count-retain_ne, to_nat, ◌==◌, All, sum_by, Bool-cases, Option-cases, inl, inr,
}
use forgetty.Session.Tree.{PaneTreeLayout, leaf, split}
use forgetty.Session.Tree.Leaves.{leaves, occurs}
use forgetty.Session.State.{
  SessionTab, SessionWorkspace, SessionManagerInner, Env, send, set_workspaces, pane_closed,
}
use forgetty.Session.Registry.{forget_pane}
use forgetty.Session.Panes.{is_leaf_of, retain_tabs, drop_leaf_tab, close_pane}
use forgetty.Session.Tabs.{keep_tabs}
use forgetty.Session.Invariant.Shrink.{keep_tabs-WsIsValid}
use forgetty.Session.Invariant.Tabs.{DrawsFresh, seed_if_empty-IsValid}
use forgetty.Session.Invariant.{
  tab_occurs, layout_occurs, tab_has_id, layout_tab_ids, IsFocused, WsIsValid, IsValid, IsFresh,
  has-forget_pane, forget_pane_rest,
}

occurs-leaf_of :
    (id a : ℕ) (tree : PaneTreeLayout)
    → is_leaf_of id tree ≡ true
    → occurs a tree ≡ to_nat (id == a)
unfolding leaves
occurs-leaf_of id a (leaf pane_id) h = ground arith
occurs-leaf_of id a (split d r first second) h = cc

module _ (id : ℕ) where
  -- Only tabs whose one leaf is the pane go.
  retain_bounds :
      (tabs : List SessionTab)
      → (length (retain_tabs id tabs) ≤ length tabs)
        × (length tabs ≤ length (retain_tabs id tabs) + sum_by (tab_occurs id) tabs)
  unfolding retain_tabs
  retain_bounds [] = (omega arith, omega arith)
  retain_bounds (tab ∷ tabs) =
      ground (arith, retain_bounds tabs, occurs-leaf_of id id tab.pane_tree)

  occurs-retain :
      (a : ℕ) (tabs : List SessionTab)
      → (sum_by (tab_occurs a) (retain_tabs id tabs) ≤ sum_by (tab_occurs a) tabs)
        × ((id == a) ≡ false
            → sum_by (tab_occurs a) (retain_tabs id tabs) ≡ sum_by (tab_occurs a) tabs)
  unfolding retain_tabs
  occurs-retain a [] = (omega arith, λ h. refl)
  occurs-retain a (tab ∷ tabs) =
      let rest = occurs-retain a tabs in
      (ground (arith, rest.0), λ h. ground (arith, rest.1 h, occurs-leaf_of id a tab.pane_tree))

  ids-retain :
      (t : ℕ) (tabs : List SessionTab)
      → sum_by (tab_has_id t) (retain_tabs id tabs) ≤ sum_by (tab_has_id t) tabs
  unfolding retain_tabs
  ids-retain t [] = omega arith
  ids-retain t (tab ∷ tabs) = ground (arith, ids-retain t tabs)

  IsFocused-retain :
      (tabs : List SessionTab) → All IsFocused tabs → All IsFocused (retain_tabs id tabs)
  unfolding retain_tabs
  IsFocused-retain [] h = tt
  IsFocused-retain (tab ∷ tabs) h = elim (Bool-cases (is_leaf_of id tab.pane_tree)) [
    | inl gone ↦ rw gone (IsFocused-retain tabs h.1)
    | inr kept ↦ rw kept (h.0, IsFocused-retain tabs h.1)
  ]

  abbrev dropped : ℕ → List SessionWorkspace → List SessionWorkspace
  dropped i wss = (drop_leaf_tab i id wss).0

  length-dropped : (i : ℕ) (wss : List SessionWorkspace) → length (dropped i wss) ≡ length wss
  unfolding drop_leaf_tab
  length-dropped i [] = refl
  length-dropped i (ws ∷ wss) = ground (arith, length-dropped (i + 1) wss)

  pub occurs-dropped :
      (i a : ℕ) (wss : List SessionWorkspace)
      → (layout_occurs a (dropped i wss) ≤ layout_occurs a wss)
        × ((id == a) ≡ false → layout_occurs a (dropped i wss) ≡ layout_occurs a wss)
  unfolding drop_leaf_tab
  occurs-dropped i a [] = (omega arith, λ h. refl)
  occurs-dropped i a (ws ∷ wss) =
      let rest = occurs-dropped (i + 1) a wss in
      let here = occurs-retain a ws.tabs in
      (ground (arith, rest.0, here.0), λ h. ground (arith, rest.1 h, here.1 h))

  ids-dropped :
      (i t : ℕ) (wss : List SessionWorkspace)
      → layout_tab_ids t (dropped i wss) ≤ layout_tab_ids t wss
  unfolding drop_leaf_tab
  ids-dropped i t [] = omega arith
  ids-dropped i t (ws ∷ wss) = ground (arith, ids-dropped (i + 1) t wss, ids-retain t ws.tabs)

  valid-dropped :
      (i : ℕ) (wss : List SessionWorkspace)
      → layout_occurs id wss ≤ 1
      → All WsIsValid wss
      → All WsIsValid (dropped i wss)
  unfolding drop_leaf_tab
  valid-dropped i [] once h = tt
  valid-dropped i (ws ∷ wss) once h =
      let tabs = retain_tabs id ws.tabs in
      elim (Bool-cases (length ws.tabs == length tabs)) [
        | inl same ↦
            let e : ws ∷ dropped (i + 1) wss ≡ dropped i (ws ∷ wss) = ground arith in
            subst (All WsIsValid) e (h.0, valid-dropped (i + 1) wss (omega arith) h.1)
        | inr fewer ↦
            let e : keep_tabs tabs ws ∷ wss ≡ dropped i (ws ∷ wss) = ground arith in
            subst (All WsIsValid) e (
              keep_tabs-WsIsValid tabs ws (ground (arith, retain_bounds ws.tabs))
                  (IsFocused-retain ws.tabs h.0.focused) h.0,
              h.1,
            )
      ]

-- The registry, the order and the layout after `close_pane`, before a default tab is added.
closed_state : ℕ → SessionManagerInner → SessionManagerInner
closed_state id s =
    send (pane_closed id) (set_workspaces (dropped id 0 s.workspaces) (forget_pane id s))

closed_state-IsValid : (id : ℕ) (s : SessionManagerInner) → IsValid s → IsValid (closed_state id s)
unfolding closed_state send set_workspaces
closed_state-IsValid id s v =
    let frame = forget_pane_rest id s in
    record {
      active = rw (frame.0, length-dropped id 0 s.workspaces) v.active;
      each = valid-dropped id 0 s.workspaces (v.once id) v.each;
      ordered = λ a. ground (
        arith,
        v.ordered a,
        has-forget_pane id a s,
        ap (count a) frame.2,
        count-retain_ne id a s.pane_order,
      );
      placed = λ a.
          ground
            (arith, v.placed a, has-forget_pane id a s, (occurs-dropped id 0 a s.workspaces).1);
      once = λ a. omega (arith, v.once a, (occurs-dropped id 0 a s.workspaces).0);
      tab_once = λ t. omega (arith, v.tab_once t, ids-dropped id 0 t s.workspaces);
    }

closed_state-IsFresh :
    (id p q : ℕ) (s : SessionManagerInner) → IsFresh p q s → IsFresh p q (closed_state id s)
unfolding closed_state send set_workspaces
closed_state-IsFresh id p q s f = record {
  new_pane = omega (arith, f.new_pane, (occurs-dropped id 0 p s.workspaces).0);
  new_tab = omega (arith, f.new_tab, ids-dropped id 0 q s.workspaces);
}

pub close_pane-IsValid :
    (env : Env) (id : ℕ) (s : SessionManagerInner)
    → DrawsFresh env s
    → IsValid s
    → IsValid (close_pane env id s)
unfolding close_pane closed_state
close_pane-IsValid env id s fresh v =
    let closed = closed_state-IsValid id s v in
    elim (Bool-cases (has id s.panes)) [
      | inr gone ↦ rw gone v
      | inl there ↦ elim (Option-cases (drop_leaf_tab 0 id s.workspaces).1) [
        | inl left ↦ rw (there, left, close_pane) closed
        | inr (idx, emptied) ↦
            rw (there, emptied, close_pane)
              (seed_if_empty-IsValid env idx (closed_state id s)
                (closed_state-IsFresh id (env.new_pane_id 0) (env.new_uuid 0) s fresh) closed)
      ]
    ]
