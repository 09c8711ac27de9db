-- ===== src/Workspace.antt =====
-- crates/forgetty-workspace/src/workspace.rs: the state that a session file holds.
pub mod Store
pub mod Moves
pub mod Migration
pub mod Startup
pub mod Logs
mod Tests
use forgetty.Base.{ℕ, String, List, [], Bool, false, Option, none}

pub data PaneTreeState : Type 0 where
  leaf : String → Option ℕ → PaneTreeState
  split : String → ℕ → PaneTreeState → PaneTreeState → PaneTreeState

pub record TabState : Type 0 where
  pub title : String
  pub pane_tree : PaneTreeState
  pub pane_id : Option ℕ
  pub active_pane_id : Option ℕ

pub record Workspace : Type 0 where
  pub id : ℕ
  pub name : String
  pub root_paths : List String
  pub tabs : List TabState
  pub active_tab : ℕ
  pub color : Option String

-- The window's size, an `i32` of the client, is a number here.
pub record WorkspaceState : Type 0 where
  pub version : ℕ
  pub workspaces : List Workspace
  pub active_workspace : ℕ
  pub window_width : Option ℕ
  pub window_height : Option ℕ
  pub pinned : Bool

-- `WorkspaceState::new`
unfoldable pub new : WorkspaceState
new = record {
  version = 1;
  workspaces = [];
  active_workspace = 0;
  window_width = none;
  window_height = none;
  pinned = false;
}
