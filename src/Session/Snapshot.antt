-- ===== src/Session/Snapshot.antt =====
-- crates/forgetty-session/src/workspace.rs and the snapshots of manager.rs: the session state that
-- is saved, from a layout and the directories of the panes.
use forgetty.Base.{ℕ, ◌≡◌, refl, String, List, [], ◌∷◌, false, Option, none, some, lookup}
use forgetty.Workspace.{PaneTreeState, TabState, Workspace, WorkspaceState}
use forgetty.Session.Tree.{PaneTreeLayout, leaf, split}
use forgetty.Session.State.{PaneState, SessionTab, SessionWorkspace, SessionManagerInner, Env}
use forgetty.Session.Output.{refresh_cwd}

pub record TabLayoutEntry : Type 0 where
  pub title : String
  pub pane_tree : PaneTreeLayout

pub record WorkspaceLayoutEntry : Type 0 where
  pub id : ℕ
  pub name : String
  pub tabs : List TabLayoutEntry
  pub active_tab : ℕ

pub record WorkspaceLayout : Type 0 where
  pub workspaces : List WorkspaceLayoutEntry
  pub active_workspace : ℕ
  pub window_width : Option ℕ
  pub window_height : Option ℕ

unfoldable pub build_pane_tree_state : (ℕ → String) → PaneTreeLayout → PaneTreeState
build_pane_tree_state get_cwd (leaf pane_id) = PaneTreeState.leaf (get_cwd pane_id) (some pane_id)
build_pane_tree_state get_cwd (split direction ratio first second) =
    PaneTreeState.split direction ratio (build_pane_tree_state get_cwd first)
      (build_pane_tree_state get_cwd second)

build_tabs : (ℕ → String) → List TabLayoutEntry → List TabState
build_tabs get_cwd [] = []
build_tabs get_cwd (tab ∷ tabs) =
    record {
      title = tab.title;
      pane_tree = build_pane_tree_state get_cwd tab.pane_tree;
      pane_id = none;
      active_pane_id = none;
    }
    ∷ build_tabs get_cwd tabs

build_workspaces : (ℕ → String) → List WorkspaceLayoutEntry → List Workspace
build_workspaces get_cwd [] = []
build_workspaces get_cwd (ws ∷ workspaces) =
    record {
      id = ws.id;
      name = ws.name;
      root_paths = [];
      tabs = build_tabs get_cwd ws.tabs;
      active_tab = ws.active_tab;
      color = none;
    }
    ∷ build_workspaces get_cwd workspaces

unfoldable pub build_workspace_state : (ℕ → String) → WorkspaceLayout → WorkspaceState
unfolding build_workspaces build_tabs
build_workspace_state get_cwd layout = record {
  version = 1;
  workspaces = build_workspaces get_cwd layout.workspaces;
  active_workspace = layout.active_workspace;
  window_width = layout.window_width;
  window_height = layout.window_height;
  pinned = false;
}

-- `panes.get(pane_id).map(|p| p.cwd.clone()).unwrap_or_else(home_dir_fallback)`
unfoldable pub cached_cwd : Env → List (ℕ × PaneState) → ℕ → String
cached_cwd env panes pane_id = elim (lookup pane_id panes) [
  | none ↦ env.home_dir_fallback
  | some pane ↦ pane.cwd
]

unfoldable pub snapshot_workspace : Env → WorkspaceLayout → SessionManagerInner → WorkspaceState
snapshot_workspace env layout s = build_workspace_state (cached_cwd env s.panes) layout

unfoldable pub refresh_pane_cwds : Env → List (ℕ × PaneState) → List (ℕ × PaneState)
unfolding refresh_cwd
refresh_pane_cwds env [] = []
refresh_pane_cwds env ((id, pane) ∷ panes) =
    (id, refresh_cwd env pane) ∷ refresh_pane_cwds env panes

unfoldable pub convert_pane_tree_layout :
    Env → List (ℕ × PaneState) → PaneTreeLayout → PaneTreeState
unfolding cached_cwd
convert_pane_tree_layout env panes (leaf pane_id) =
    PaneTreeState.leaf (cached_cwd env panes pane_id) (some pane_id)
convert_pane_tree_layout env panes (split direction ratio first second) =
    PaneTreeState.split direction ratio (convert_pane_tree_layout env panes first)
      (convert_pane_tree_layout env panes second)

unfoldable pub snapshot_tab : Env → List (ℕ × PaneState) → SessionTab → TabState
unfolding convert_pane_tree_layout
snapshot_tab env panes tab = record {
  title = tab.title;
  pane_tree = convert_pane_tree_layout env panes tab.pane_tree;
  pane_id = none;
  active_pane_id = tab.active_pane_id;
}

unfoldable pub snapshot_tabs : Env → List (ℕ × PaneState) → List SessionTab → List TabState
unfolding snapshot_tab
snapshot_tabs env panes [] = []
snapshot_tabs env panes (tab ∷ tabs) = snapshot_tab env panes tab ∷ snapshot_tabs env panes tabs

unfoldable pub snapshot_workspaces :
    Env → List (ℕ × PaneState) → List SessionWorkspace → List Workspace
unfolding snapshot_tabs
snapshot_workspaces env panes [] = []
snapshot_workspaces env panes (ws ∷ workspaces) =
    record {
      id = ws.id;
      name = ws.name;
      root_paths = [];
      tabs = snapshot_tabs env panes ws.tabs;
      active_tab = ws.active_tab;
      color = ws.color;
    }
    ∷ snapshot_workspaces env panes workspaces

-- The cached directories are refreshed first, so the state changes too.
unfoldable pub snapshot_to_workspace_state :
    Env → SessionManagerInner → SessionManagerInner × WorkspaceState
unfolding refresh_pane_cwds snapshot_workspaces
snapshot_to_workspace_state env s =
    let panes = refresh_pane_cwds env s.panes in
    (
      record s { panes = panes },
      record {
        version = 1;
        workspaces = snapshot_workspaces env panes s.workspaces;
        active_workspace = s.active_workspace;
        window_width = none;
        window_height = none;
        pinned = s.pinned;
      },
    )

-- The recursive functions of manager.rs and of workspace.rs make the same tree.
pub convert_pane_tree_layout-build :
    (env : Env) (panes : List (ℕ × PaneState)) (tree : PaneTreeLayout)
    → convert_pane_tree_layout env panes tree ≡ build_pane_tree_state (cached_cwd env panes) tree
unfolding convert_pane_tree_layout build_pane_tree_state
convert_pane_tree_layout-build env panes (leaf pane_id) = refl
convert_pane_tree_layout-build env panes (split direction ratio first second) =
    rw
      (
        convert_pane_tree_layout-build env panes first,
        convert_pane_tree_layout-build env panes second,
      )
      refl
