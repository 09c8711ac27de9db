-- ===== src/Session/Duplicate.antt =====
-- manager.rs: `duplicate_workspace`. Its phases run here without another operation between them.
use Prim.Native.String.{◌++◌ as append_text}
use forgetty.Base.{
  ℕ, suc, ◌+◌, min, true, String, List, [], ◌∷◌, Option, none, some, length, insert_at, lookup, leb,
  if◌then◌else◌, unwrap_or,
}
use forgetty.Session.Tree.{leftmost_leaf_id}
use forgetty.Session.State.{
  PtySize, PtyBridge, PaneState, SessionTab, SessionWorkspace, SessionManagerInner, Env, ok, err,
  Error, Outcome, kill, at_workspace, duplicate_spawn_failed, workspace_created, pane_created,
  tab_created, send, call_os,
}
use forgetty.Session.Registry.{spawn_bridge, new_pane, register, leaf_tab, spawn_drain_task}

-- One round of Phase 2: the pane that stands ready for a tab.
pub record Spawned : Type 0 where
  pub pane_id : ℕ
  pub bridge : PtyBridge
  pub initial_cwd : String

-- The directory of the tab's leftmost pane, if that pane is in the registry.
unfoldable pub tab_cwd : List (ℕ × PaneState) → SessionTab → Option String
tab_cwd panes tab = elim (leftmost_leaf_id tab.pane_tree) [
  | none ↦ none
  | some pid ↦ elim (lookup pid panes) [ none ↦ none | some pane ↦ some pane.cwd ]
]

unfoldable pub tab_cwds : List (ℕ × PaneState) → List SessionTab → List (Option String)
unfolding tab_cwd
tab_cwds panes [] = []
tab_cwds panes (tab ∷ tabs) = tab_cwd panes tab ∷ tab_cwds panes tabs

-- Phase 2. `n` is the number of spawns made before; `ok` returns the panes, in order, and a failure
-- the error and what was spawned until then.
unfoldable pub spawn_all : Env → PtySize → ℕ → List (Option String) → List Spawned × Option Error
spawn_all env size n [] = ([], none)
spawn_all env size n (cwd ∷ cwds) =
    let (spawned, failed) = spawn_all env size (suc n) cwds in
    elim (spawn_bridge env n size cwd none none true) [
      | err e ↦ ([], some e)
      | ok bridge ↦ (
        record {
          pane_id = env.new_pane_id n;
          bridge = bridge;
          initial_cwd = unwrap_or cwd env.home_dir_fallback;
        }
            ∷ spawned,
        failed,
      )
    ]

-- The rollback: every process that was spawned is killed.
unfoldable pub kill_spawned : List Spawned → SessionManagerInner → SessionManagerInner
unfolding call_os
kill_spawned [] s = s
kill_spawned (p ∷ ps) s = kill_spawned ps (call_os (kill p.bridge.handle) s)

-- The loop of Phase 3 over the panes; `n` numbers the UUIDs.
unfoldable pub register_all :
    Env → PtySize → List Spawned → SessionManagerInner → SessionManagerInner
unfolding register
register_all env size [] s = s
register_all env size (p ∷ ps) s =
    register_all env size ps (register p.pane_id (new_pane p.pane_id p.bridge p.initial_cwd size) s)

unfoldable pub new_tabs : Env → ℕ → List Spawned → List SessionTab
new_tabs env n [] = []
new_tabs env n (p ∷ ps) = leaf_tab (env.new_uuid n) p.pane_id ∷ new_tabs env (suc n) ps

-- `DuplicatedTab`: the tab and its pane.
pub record DuplicatedTab : Type 0 where
  pub tab_id : ℕ
  pub pane_id : ℕ

unfoldable pub dup_tabs : Env → ℕ → List Spawned → List DuplicatedTab
dup_tabs env n [] = []
dup_tabs env n (p ∷ ps) =
    record { tab_id = env.new_uuid n; pane_id = p.pane_id } ∷ dup_tabs env (suc n) ps

unfoldable pub announce : ℕ → List DuplicatedTab → SessionManagerInner → SessionManagerInner
unfolding send
announce idx [] s = s
announce idx (dt ∷ dts) s =
    announce idx dts
      (send (tab_created idx dt.tab_id dt.pane_id) (send (pane_created dt.pane_id) s))

unfoldable pub drain_all : Env → List DuplicatedTab → SessionManagerInner → SessionManagerInner
drain_all env [] s = s
drain_all env (dt ∷ dts) s = drain_all env dts (spawn_drain_task env dt.pane_id s)

-- Phases 3 and 4. The id of the workspace is the first new UUID.
unfoldable pub commit :
    Env
    → PtySize
    → String
    → ℕ
    → List Spawned
    → SessionManagerInner
    → Outcome (ℕ × ℕ × List DuplicatedTab)
unfolding register_all send announce drain_all
commit env size name insert_at_idx spawned s =
    let new_ws_id = env.new_uuid 0 in
    let idx = min insert_at_idx (length s.workspaces) in
    let dts = dup_tabs env 1 spawned in
    let ws : SessionWorkspace = record {
      id = new_ws_id;
      name = name;
      tabs = new_tabs env 1 spawned;
      active_tab = 0;
      color = none;
    } in
    let s1 = register_all env size spawned s in
    let active =
      if leb idx s1.active_workspace then s1.active_workspace + 1 else s1.active_workspace in
    let s2 = record s1 {
      layout = record { workspaces = insert_at s1.workspaces idx ws; active_workspace = active };
    } in
    let s3 = announce idx dts (send (workspace_created idx new_ws_id name) s2) in
    (drain_all env dts s3, ok (new_ws_id, idx, dts))

unfoldable pub duplicate_workspace :
    Env → ℕ → Option String → PtySize → SessionManagerInner → Outcome (ℕ × ℕ × List DuplicatedTab)
unfolding tab_cwds spawn_all kill_spawned
duplicate_workspace env idx new_name size s = at_workspace idx s λ source.
    let name = unwrap_or new_name (append_text source.name " (copy)") in
    let cwds = tab_cwds s.panes source.tabs in
    let (spawned, failed) = spawn_all env size 0 cwds in
    elim failed [
      | some e ↦ (
        kill_spawned spawned s,
        err (duplicate_spawn_failed (length spawned + 1) (length cwds) e),
      )
      | none ↦ commit env size name (idx + 1) spawned s
    ]
