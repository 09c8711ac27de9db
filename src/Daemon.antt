-- ===== src/Daemon.antt =====
-- src/daemon.rs: the cold-start restore of a saved session, the save tasks and the exit on a signal.
pub mod Graft
pub mod Subtree
pub mod Tabs
pub mod Restore
pub mod Saving
mod Tests
use forgetty.Base.{
  ℕ, zero, suc, ◌+◌, String, List, [], ◌∷◌, ◌++◌, Bool, true, false, Option, none, some, get_elem?,
  if◌then◌else◌, is_some,
}
use forgetty.Workspace.{PaneTreeState, TabState, Workspace, WorkspaceState}
use forgetty.Session.Tree.{PaneTreeLayout, is_pane}
use forgetty.Session.State.{
  PtySize, SessionTab, SessionWorkspace, SessionManagerInner, Env, Result, ok, err, Outcome,
  set_pinned,
}
use forgetty.Session.Workspaces.{
  create_workspace, rename_workspace, set_workspace_color, set_active_workspace,
}
use forgetty.Session.Tabs.{
  default_size, create_tab, create_tab_with_pane_id, set_active_tab, set_active_pane, is_empty,
}
use forgetty.Session.Panes.{split_pane_with_ratio, split_pane_with_ratio_and_pane_id, set_pane_cwd}

unfoldable pub first_leaf_cwd : PaneTreeState → String
first_leaf_cwd (PaneTreeState.leaf cwd pane_id) = cwd
first_leaf_cwd (PaneTreeState.split direction ratio first second) = first_leaf_cwd first

unfoldable pub first_leaf_pane_id : PaneTreeState → Option ℕ
first_leaf_pane_id (PaneTreeState.leaf cwd pane_id) = pane_id
first_leaf_pane_id (PaneTreeState.split direction ratio first second) = first_leaf_pane_id first

-- `Option::or_else`
abbrev pub or_else {ℓ} : {A : Type ℓ} → Option A → Option A → Option A
or_else (some a) other = some a
or_else none other = other

unfoldable pub live_pane_id_for_saved : PaneTreeState → PaneTreeLayout → ℕ → Option ℕ
live_pane_id_for_saved (PaneTreeState.leaf cwd saved_id) (PaneTreeLayout.leaf live_id) target =
    if is_pane saved_id target then some live_id else none
live_pane_id_for_saved (PaneTreeState.split d r sa sb) (PaneTreeLayout.split e q la lb) target =
    or_else (live_pane_id_for_saved sa la target) (live_pane_id_for_saved sb lb target)
live_pane_id_for_saved _ _ target = none

-- What the restore is told by the outside: the answers during its n-th call, and `Path::is_dir`.
pub record Machine : Type 0 where
  pub envs : ℕ → Env
  pub is_dir : String → Bool

-- The number of calls made so far that asked for answers, and the session manager.
abbrev pub Progress : Type 0
Progress = ℕ × SessionManagerInner

-- `if cwd.is_dir() { Some(cwd) } else { None }`
unfoldable pub existing : Machine → String → Option String
existing m cwd = if m.is_dir cwd then some cwd else none

-- The split that makes room for a second subtree, with the saved id of its first leaf if it has one.
unfoldable pub split_for : Machine → ℕ → String → ℕ → PtySize → PaneTreeState → Progress → Outcome ℕ
unfolding existing first_leaf_cwd first_leaf_pane_id
split_for m anchor_id direction ratio size second (k, s) =
    let cwd = existing m (first_leaf_cwd second) in
    elim (first_leaf_pane_id second) [
      | some pid ↦
          split_pane_with_ratio_and_pane_id (m.envs k) anchor_id direction ratio size cwd pid s
      | none ↦ split_pane_with_ratio (m.envs k) anchor_id direction ratio size cwd s
    ]

unfoldable pub restore_subtree : Machine → PtySize → ℕ → PaneTreeState → Progress → Progress
unfolding split_for
restore_subtree m size anchor_id (PaneTreeState.leaf cwd pane_id) (k, s) =
    (k, if m.is_dir cwd then set_pane_cwd anchor_id cwd s else s)
restore_subtree m size anchor_id (PaneTreeState.split direction ratio first second) (k, s) =
    let (s1, result) = split_for m anchor_id direction ratio size second (k, s) in
    elim result [
      | err e ↦ (suc k, s1)
      | ok second_pane_id ↦
          restore_subtree m size second_pane_id second
            (restore_subtree m size anchor_id first (suc k, s1))
    ]

-- The root pane of a saved tab, with its saved id if it has one.
unfoldable pub tab_for : Machine → ℕ → PaneTreeState → Progress → Outcome (ℕ × ℕ)
unfolding existing first_leaf_cwd first_leaf_pane_id
tab_for m ws_idx tree (k, s) =
    let cwd = existing m (first_leaf_cwd tree) in
    elim (first_leaf_pane_id tree) [
      | some pid ↦ create_tab_with_pane_id (m.envs k) ws_idx cwd default_size none pid s
      | none ↦ create_tab (m.envs k) ws_idx cwd default_size none s
    ]

-- One round of the loop over the tabs of a saved workspace.
unfoldable pub restore_tab : Machine → ℕ → TabState → Progress → Progress
unfolding tab_for restore_subtree
restore_tab m ws_idx tab (k, s) =
    let (s1, result) = tab_for m ws_idx tab.pane_tree (k, s) in
    elim result [
      | ok (root_pane_id, tab_id) ↦
          restore_subtree m default_size root_pane_id tab.pane_tree (suc k, s1)
      | err e ↦ (suc k, s1)
    ]

unfoldable pub restore_tabs : Machine → ℕ → List TabState → Progress → Progress
unfolding restore_tab
restore_tabs m ws_idx [] p = p
restore_tabs m ws_idx (tab ∷ tabs) p = restore_tabs m ws_idx tabs (restore_tab m ws_idx tab p)

abbrev is_nil : List TabState → Bool
is_nil [] = true
is_nil (tab ∷ tabs) = false

-- A saved workspace without tabs gets a default one. Errors are only logged.
unfoldable pub heal : Machine → ℕ → List TabState → Progress → Progress
heal m ws_idx tabs (k, s) =
    if is_nil tabs
    then (suc k, (create_tab (m.envs k) ws_idx none default_size none s).0)
    else (k, s)

-- The second loop over the saved workspaces: tabs, healing and the active tab.
unfoldable pub restore_workspaces : Machine → ℕ → List Workspace → Progress → Progress
unfolding restore_tabs heal
restore_workspaces m ws_idx [] p = p
restore_workspaces m ws_idx (ws ∷ workspaces) p =
    let (k, s) = heal m ws_idx ws.tabs (restore_tabs m ws_idx ws.tabs p) in
    restore_workspaces m (suc ws_idx) workspaces (k, (set_active_tab ws_idx ws.active_tab s).0)

-- The first loop: a slot, a name and a colour for each saved workspace.
unfoldable pub restore_slot : Machine → ℕ → Workspace → Progress → Progress
restore_slot m zero ws (k, s) =
    let s1 = (rename_workspace 0 ws.name s).0 in
    (k, if is_some ws.color then (set_workspace_color 0 ws.color s1).0 else s1)
restore_slot m (suc i) ws (k, s) =
    let s1 = (create_workspace ((m.envs k).new_uuid 0) ws.name s).0 in
    (suc k, if is_some ws.color then (set_workspace_color (suc i) ws.color s1).0 else s1)

unfoldable pub restore_slots : Machine → ℕ → List Workspace → Progress → Progress
unfolding restore_slot
restore_slots m ws_idx [] p = p
restore_slots m ws_idx (ws ∷ workspaces) p =
    restore_slots m (suc ws_idx) workspaces (restore_slot m ws_idx ws p)

-- The targets `(ws_idx, live_tab_id, live_pane_id)` of one workspace, by a walk along both lists.
unfoldable pub tab_targets : ℕ → List TabState → List SessionTab → List (ℕ × ℕ × ℕ)
unfolding live_pane_id_for_saved
tab_targets ws_idx (saved ∷ saved_tabs) (live ∷ live_tabs) =
    let rest = tab_targets ws_idx saved_tabs live_tabs in
    elim saved.active_pane_id [
      | none ↦ rest
      | some saved_pane ↦ elim (live_pane_id_for_saved saved.pane_tree live.pane_tree saved_pane) [
        | none ↦ rest
        | some live_pane_id ↦ (ws_idx, live.id, live_pane_id) ∷ rest
      ]
    ]
tab_targets ws_idx _ _ = []

unfoldable pub restore_targets : ℕ → List Workspace → List SessionWorkspace → List (ℕ × ℕ × ℕ)
unfolding tab_targets
restore_targets ws_idx (saved ∷ workspaces) (live ∷ live_workspaces) =
    tab_targets ws_idx saved.tabs live.tabs
    ++ restore_targets (suc ws_idx) workspaces live_workspaces
restore_targets ws_idx _ _ = []

unfoldable pub focus_all : List (ℕ × ℕ × ℕ) → SessionManagerInner → SessionManagerInner
focus_all [] s = s
focus_all ((ws_idx, tab_id, pane_id) ∷ targets) s =
    focus_all targets (set_active_pane ws_idx tab_id (some pane_id) s).0

-- The branch of a loaded session that has workspaces; with none, the daemon starts fresh.
unfoldable pub cold_start_restore : Machine → WorkspaceState → Progress → Progress
unfolding restore_slots restore_workspaces restore_targets focus_all
cold_start_restore m state (k, s) = elim state.workspaces [
  | [] ↦ (k, s)
  | saved ∷ rest ↦
      let pinned = if state.pinned then set_pinned true s else s in
      let (k1, s1) =
        restore_workspaces m 0 (saved ∷ rest) (restore_slots m 0 (saved ∷ rest) (k, pinned)) in
      let s2 = (set_active_workspace state.active_workspace s1).0 in
      (k1, focus_all (restore_targets 0 (saved ∷ rest) s2.workspaces) s2)
]
