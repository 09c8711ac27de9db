-- ===== src/Session/Tabs.antt =====
-- manager.rs: the operations on tabs.
pub mod Search
use forgetty.Base.{
  ℕ, suc, ◌+◌, ◌-◌, min, String, List, [], ◌∷◌, ◌++◌, Bool, true, false, ◌&&◌, Option, none, some,
  length, get_elem?, set, remove_at, insert_at, lookup, has, leb, ltb, ◌==◌, if◌then◌else◌,
  unwrap_or,
}
use forgetty.Session.Tree.{PaneTreeLayout, pane_tree_contains_leaf, collect_pane_ids}
use forgetty.Session.State.{
  PtySize, PtyBridge, SessionTab, SessionWorkspace, SessionManagerInner, Env, Result, ok, err,
  Error, Outcome, at_workspace, tab_out_of_bounds, tab_not_found, pane_not_leaf, pane_created,
  pane_closed, tab_created, tab_closed, tab_moved, active_tab_changed, active_pane_changed, send,
  set_workspaces,
}
use forgetty.Session.Registry.{
  spawn_bridge, new_pane, register, leaf_tab, spawn_drain_task, forget_pane,
}

-- `ws.tabs.push(tab)`
abbrev pub push_tab : SessionTab → SessionWorkspace → SessionWorkspace
push_tab tab ws = record ws { tabs = ws.tabs ++ tab ∷ [] }

-- The bounds check stands before the spawn, and the drain task is spawned last.
unfoldable pub create_tab_with_pane_id :
    Env
    → ℕ
    → Option String
    → PtySize
    → Option (List String)
    → ℕ
    → SessionManagerInner
    → Outcome (ℕ × ℕ)
unfolding send set_workspaces register
create_tab_with_pane_id env idx cwd size command pane_id s = at_workspace idx s λ ws.
    elim (spawn_bridge env 0 size cwd command none true) [
      | err e ↦ (s, err e)
      | ok bridge ↦
          let pane = new_pane pane_id bridge (unwrap_or cwd env.home_dir_fallback) size in
          let tab_id = env.new_uuid 0 in
          let s1 =
            set_workspaces (set s.workspaces idx (push_tab (leaf_tab tab_id pane_id) ws))
              (register pane_id pane s) in
          let s2 = send (tab_created idx tab_id pane_id) (send (pane_created pane_id) s1) in
          (spawn_drain_task env pane_id s2, ok (pane_id, tab_id))
    ]

unfoldable pub create_tab :
    Env → ℕ → Option String → PtySize → Option (List String) → SessionManagerInner → Outcome (ℕ × ℕ)
create_tab env idx cwd size command s =
    create_tab_with_pane_id env idx cwd size command (env.new_pane_id 0) s

-- A tab, and where it was found.
pub record Found : Type 0 where
  pub ws_idx : ℕ
  pub tab_idx : ℕ
  pub ws : SessionWorkspace
  pub tab : SessionTab

-- `tabs.iter().position(|t| t.id == tab_id)`, with the tab; `i` is the index of the first one.
unfoldable pub position : ℕ → ℕ → List SessionTab → Option (ℕ × SessionTab)
position i tab_id [] = none
position i tab_id (tab ∷ tabs) =
    if tab.id == tab_id then some (i, tab) else position (suc i) tab_id tabs

-- The search over the workspaces, which ends at the first one that has the tab.
unfoldable pub find_tab : ℕ → ℕ → List SessionWorkspace → Option Found
unfolding position
find_tab i tab_id [] = none
find_tab i tab_id (ws ∷ workspaces) =
    let rest = find_tab (suc i) tab_id workspaces in
    elim (position 0 tab_id ws.tabs) [
      | some (tab_idx, tab) ↦ some (record { ws_idx = i; tab_idx = tab_idx; ws = ws; tab = tab })
      | none ↦ rest
    ]

-- The tabs that are left, and `active_tab` clamped to them.
unfoldable pub keep_tabs : List SessionTab → SessionWorkspace → SessionWorkspace
keep_tabs tabs ws = record ws {
  tabs = tabs;
  active_tab =
      if leb (length tabs) ws.active_tab && ltb 0 (length tabs)
      then length tabs - 1
      else ws.active_tab;
}

-- One round of the loop of `close_tab`: the event is sent only for a pane in the registry.
unfoldable pub close_tab_pane : ℕ → SessionManagerInner → SessionManagerInner
unfolding send
close_tab_pane pid s =
    if has pid s.panes then send (pane_closed pid) (forget_pane pid s) else forget_pane pid s

unfoldable pub close_tab_panes : List ℕ → SessionManagerInner → SessionManagerInner
unfolding close_tab_pane
close_tab_panes [] s = s
close_tab_panes (pid ∷ pids) s = close_tab_panes pids (close_tab_pane pid s)

-- The size of the cold restart.
abbrev pub default_size : PtySize
default_size = record { rows = 24; cols = 80; pixel_width = 0; pixel_height = 0 }

unfoldable pub auto_seed_default_tab : Env → ℕ → PtySize → SessionManagerInner → Outcome (ℕ × ℕ)
unfolding send set_workspaces register
auto_seed_default_tab env idx size s = at_workspace idx s λ ws.
    elim (spawn_bridge env 0 size none none none true) [
      | err e ↦ (s, err e)
      | ok bridge ↦
          let pane_id = env.new_pane_id 0 in
          let tab_id = env.new_uuid 0 in
          let seeded = record (push_tab (leaf_tab tab_id pane_id) ws) { active_tab = 0 } in
          let s1 =
            set_workspaces (set s.workspaces idx seeded)
              (register pane_id (new_pane pane_id bridge env.home_dir_fallback size) s) in
          (
            send (tab_created idx tab_id pane_id) (send (pane_created pane_id) s1),
            ok (pane_id, tab_id),
          )
    ]

-- The end of `close_tab` and `close_pane`: a workspace that became empty gets a default tab, unless
-- it is the only one; a failure leaves it empty. The drain task is spawned after the lock.
unfoldable pub seed_if_empty : Env → ℕ → SessionManagerInner → SessionManagerInner
unfolding auto_seed_default_tab
seed_if_empty env idx s =
    if ltb 1 (length s.workspaces)
    then (let (s1, seeded) = auto_seed_default_tab env idx default_size s in
        elim seeded [ ok (pane_id, tab_id) ↦ spawn_drain_task env pane_id s1 | err e ↦ s1 ])
    else s

abbrev pub is_empty : List SessionTab → Bool
is_empty [] = true
is_empty (tab ∷ tabs) = false

unfoldable pub close_tab : Env → ℕ → SessionManagerInner → Outcome (Unit {0})
unfolding send set_workspaces find_tab keep_tabs
close_tab env tab_id s = elim (find_tab 0 tab_id s.workspaces) [
  | none ↦ (s, err (tab_not_found tab_id))
  | some f ↦
      let tabs = remove_at f.ws.tabs f.tab_idx in
      let s1 = set_workspaces (set s.workspaces f.ws_idx (keep_tabs tabs f.ws)) s in
      let s2 = close_tab_panes (collect_pane_ids f.tab.pane_tree []) s1 in
      let s3 = send (tab_closed f.ws_idx tab_id) s2 in
      (if is_empty tabs then seed_if_empty env f.ws_idx s3 else s3, ok tt)
]

-- `active_tab` follows the tab that it points at; it stays if there is none.
unfoldable pub follow_tab : List SessionTab → ℕ → List SessionTab → ℕ
unfolding position
follow_tab tabs active moved = elim (get_elem? tabs active) [
  | none ↦ active
  | some tab ↦ elim (position 0 tab.id moved) [ none ↦ active | some (i, _) ↦ i ]
]

unfoldable pub move_tab : ℕ → ℕ → SessionManagerInner → Outcome (Unit {0})
unfolding send set_workspaces find_tab follow_tab
move_tab tab_id new_index s = elim (find_tab 0 tab_id s.workspaces) [
  | none ↦ (s, err (tab_not_found tab_id))
  | some f ↦
      let target_idx = min new_index (length f.ws.tabs - 1) in
      if f.tab_idx == target_idx
      then (s, ok tt)
      else (let tabs = insert_at (remove_at f.ws.tabs f.tab_idx) target_idx f.tab in
          let active_tab = follow_tab f.ws.tabs f.ws.active_tab tabs in
          let ws = record (f.ws) { tabs = tabs; active_tab = active_tab } in
          (
            send (tab_moved f.ws_idx tab_id target_idx)
                (set_workspaces (set s.workspaces f.ws_idx ws) s),
            ok tt,
          ))
]

unfoldable pub set_active_tab : ℕ → ℕ → SessionManagerInner → Outcome (Unit {0})
unfolding send set_workspaces
set_active_tab idx tab_idx s = at_workspace idx s λ ws.
    if leb (length ws.tabs) tab_idx
    then (s, err (tab_out_of_bounds tab_idx (length ws.tabs)))
    else (
      send (active_tab_changed idx tab_idx)
          (set_workspaces (set s.workspaces idx (record ws { active_tab = tab_idx })) s),
      ok tt,
    )

-- `Option<PaneId> == Option<PaneId>`
abbrev pub same_pane : Option ℕ → Option ℕ → Bool
same_pane none none = true
same_pane (some a) (some b) = a == b
same_pane _ _ = false

-- `None` needs no leaf.
abbrev pub is_focusable : PaneTreeLayout → Option ℕ → Bool
is_focusable tree none = true
is_focusable tree (some pid) = pane_tree_contains_leaf tree pid

unfoldable pub set_active_pane : ℕ → ℕ → Option ℕ → SessionManagerInner → Outcome (Unit {0})
unfolding send set_workspaces position
set_active_pane idx tab_id pane_id s = at_workspace idx s λ ws. elim (position 0 tab_id ws.tabs) [
  | none ↦ (s, err (tab_not_found tab_id))
  | some (i, tab) ↦
      if is_focusable tab.pane_tree pane_id
      then (if same_pane tab.active_pane_id pane_id
          then (s, ok tt)
          else (let tab' = record tab { active_pane_id = pane_id } in
              let ws' = record ws { tabs = set ws.tabs i tab' } in
              (
                send (active_pane_changed idx tab_id pane_id)
                    (set_workspaces (set s.workspaces idx ws') s),
                ok tt,
              )))
      else (s, err (pane_not_leaf pane_id tab_id))
]
