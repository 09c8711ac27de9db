-- ===== src/Session/Closing.antt =====
-- manager.rs: `close_pane` for a pane that shares its tab with other panes.
use forgetty.Base.{
  ℕ, ◌+◌, ◌≡◌, refl, ap, List, [], ◌∷◌, true, false, none, some, arith, length, has, ◌==◌, All,
}
use forgetty.Session.State.{
  SessionTab, SessionWorkspace, SessionLayout, SessionManagerInner, Env, send, set_workspaces,
  pane_closed,
}
use forgetty.Session.Registry.{forget_pane}
use forgetty.Session.Panes.{is_leaf_of, retain_tabs, drop_leaf_tab, close_pane}
use forgetty.Session.Tabs.{seed_if_empty}
use forgetty.Session.Invariant.{layout_occurs, has-forget_pane, forget_pane_rest, IsValid}

-- No tab consists of the pane alone.
abbrev pub IsShared : ℕ → List SessionWorkspace → Type 0
IsShared id = All (λ ws. All (λ tab. is_leaf_of id tab.pane_tree ≡ false) ws.tabs)

retain_tabs_shared :
    (id : ℕ) (tabs : List SessionTab)
    → All (λ tab. is_leaf_of id tab.pane_tree ≡ false) tabs
    → retain_tabs id tabs ≡ tabs
unfolding retain_tabs
retain_tabs_shared id [] h = refl
retain_tabs_shared id (tab ∷ tabs) h = rw (h.0, retain_tabs_shared id tabs h.1) refl

drop_leaf_tab_shared :
    (i id : ℕ) (wss : List SessionWorkspace)
    → IsShared id wss
    → drop_leaf_tab i id wss ≡ (wss, none)
unfolding drop_leaf_tab
drop_leaf_tab_shared i id [] h = refl
drop_leaf_tab_shared i id (ws ∷ wss) h =
    let same : (length ws.tabs == length ws.tabs) ≡ true = ground arith in
    rw (retain_tabs_shared id ws.tabs h.0, same, drop_leaf_tab_shared (i + 1) id wss h.1) refl

close_pane_only :
    (env : Env) (id : ℕ) (s : SessionManagerInner)
    → has id s.panes ≡ true
    → IsShared id s.workspaces
    → close_pane env id s ≡ send (pane_closed id) (set_workspaces s.workspaces (forget_pane id s))
unfolding close_pane
close_pane_only env id s there shared =
    let e = drop_leaf_tab_shared 0 id s.workspaces shared in
    rw (there, close_pane)
      (λ i. elim ((e i).1) [
        | none ↦ send (pane_closed id) (set_workspaces ((e i).0) (forget_pane id s))
        | some idx ↦
            seed_if_empty env idx
              (send (pane_closed id) (set_workspaces ((e i).0) (forget_pane id s)))
      ])

-- A registered pane that is one of several leaves of its tab leaves the registry when it is closed,
-- but its leaf stays: the layout is the same as before, and still shows the pane once.
pub close_pane_shared :
    (env : Env) (id : ℕ) (s : SessionManagerInner)
    → IsValid s
    → has id s.panes ≡ true
    → IsShared id s.workspaces
    → let t = close_pane env id s in
      (has id t.panes ≡ false) × (t.layout ≡ s.layout) × (layout_occurs id t.workspaces ≡ 1)
unfolding send set_workspaces
close_pane_shared env id s v there shared =
    let frame = (forget_pane_rest id s).0 in
    rw (close_pane_only env id s there shared) (
      ground (arith, has-forget_pane id id s),
      ap (λ (l : SessionLayout). record l { workspaces = s.workspaces }) frame,
      ground (arith, v.placed id, v.once id),
    )
