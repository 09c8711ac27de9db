-- ===== src/Session/Workspaces.antt =====
-- manager.rs: the operations on whole workspaces.
use text.Mathlib.Text.{◌==◌ as str_eq}
use forgetty.Base.{
  ℕ, ◌-◌, String, List, [], ◌∷◌, ◌++◌, ◌&&◌, Option, none, some, length, get_elem?, set, remove_at,
  ltb, leb, ◌==◌, if◌then◌else◌,
}
use forgetty.Session.Tree.{collect_pane_ids}
use forgetty.Session.State.{
  SessionTab, SessionWorkspace, SessionManagerInner, ok, err, at_workspace, workspace_out_of_bounds,
  from_out_of_bounds, to_out_of_bounds, last_workspace, Outcome, workspace_created,
  workspace_renamed, workspace_color_changed, workspaces_reordered, workspace_deleted,
  active_workspace_changed, pane_closed, unlink_log, send, call_os, set_workspaces, same_text,
}
use forgetty.Session.Registry.{forget_pane}

-- The new workspace's id, from `Uuid::new_v4`, is an argument.
unfoldable pub create_workspace : ℕ → String → SessionManagerInner → SessionManagerInner × (ℕ × ℕ)
unfolding send set_workspaces
create_workspace id name s =
    let ws : SessionWorkspace = record {
      id = id;
      name = name;
      tabs = [];
      active_tab = 0;
      color = none;
    } in
    let workspaces = s.workspaces ++ ws ∷ [] in
    let idx = length workspaces - 1 in
    (send (workspace_created idx id name) (set_workspaces workspaces s), (id, idx))

unfoldable pub rename_workspace : ℕ → String → SessionManagerInner → Outcome (Unit {0})
unfolding send set_workspaces
rename_workspace idx new_name s = at_workspace idx s λ ws.
    if str_eq ws.name new_name then (s, ok tt) else (
      send (workspace_renamed idx ws.id new_name)
          (set_workspaces (set s.workspaces idx (record ws { name = new_name })) s),
      ok tt,
    )

unfoldable pub set_workspace_color : ℕ → Option String → SessionManagerInner → Outcome (Unit {0})
unfolding send set_workspaces
set_workspace_color idx color s = at_workspace idx s λ ws.
    if same_text ws.color color then (s, ok tt) else (
      send (workspace_color_changed idx ws.id color)
          (set_workspaces (set s.workspaces idx (record ws { color = color })) s),
      ok tt,
    )

-- The active index follows the workspace that it points at.
unfoldable pub follow_swap : ℕ → ℕ → ℕ → ℕ
follow_swap active from_idx to_idx =
    if active == from_idx then to_idx else (if active == to_idx then from_idx else active)

-- `Vec::swap` is two writes.
unfoldable pub move_workspace : ℕ → ℕ → SessionManagerInner → Outcome (Unit {0})
unfolding send follow_swap
move_workspace from_idx to_idx s = elim (get_elem? s.workspaces from_idx) [
  | none ↦ (s, err (from_out_of_bounds from_idx (length s.workspaces)))
  | some from_ws ↦ elim (get_elem? s.workspaces to_idx) [
    | none ↦ (s, err (to_out_of_bounds to_idx (length s.workspaces)))
    | some to_ws ↦ if from_idx == to_idx then (s, ok tt) else (
      send (workspaces_reordered from_idx to_idx from_ws.id to_ws.id) (record s {
        layout = record {
          workspaces = set (set s.workspaces from_idx to_ws) to_idx from_ws;
          active_workspace = follow_swap s.active_workspace from_idx to_idx;
        };
      }),
      ok tt,
    )
  ]
]

-- The panes of the tabs, in the order of `collect_pane_ids`.
unfoldable pub collect_tabs : List SessionTab → List ℕ → List ℕ
collect_tabs [] out = out
collect_tabs (tab ∷ tabs) out = collect_tabs tabs (collect_pane_ids tab.pane_tree out)

-- One round of the loop of `delete_workspace`.
unfoldable pub delete_pane : ℕ → SessionManagerInner → SessionManagerInner
unfolding send call_os
delete_pane pid s = send (pane_closed pid) (call_os (unlink_log pid) (forget_pane pid s))

unfoldable pub delete_panes : List ℕ → SessionManagerInner → SessionManagerInner
unfolding delete_pane
delete_panes [] s = s
delete_panes (pid ∷ pids) s = delete_panes pids (delete_pane pid s)

-- The active index once the workspace at `idx` is gone and `new_len` are left.
unfoldable pub follow_remove : ℕ → ℕ → ℕ → ℕ
follow_remove active idx new_len =
    if ltb idx active
    then active - 1
    else (if leb new_len active && ltb 0 new_len then new_len - 1 else active)

-- `inner.layout.workspaces.remove(workspace_idx)` and the clamp of the active index.
unfoldable pub remove_workspace : ℕ → SessionManagerInner → SessionManagerInner
unfolding follow_remove
remove_workspace idx s =
    let workspaces = remove_at s.workspaces idx in
    record s {
      layout = record {
        workspaces = workspaces;
        active_workspace = follow_remove s.active_workspace idx (length workspaces);
      };
    }

unfoldable pub delete_workspace : ℕ → SessionManagerInner → Outcome (Unit {0})
unfolding send remove_workspace
delete_workspace idx s = at_workspace idx s λ ws.
    if leb (length s.workspaces) 1 then (s, err last_workspace) else (
      send (workspace_deleted idx ws.id)
          (remove_workspace idx (delete_panes (collect_tabs ws.tabs []) s)),
      ok tt,
    )

unfoldable pub set_active_workspace : ℕ → SessionManagerInner → Outcome (Unit {0})
unfolding send
set_active_workspace idx s =
    if leb (length s.workspaces) idx
    then (s, err (workspace_out_of_bounds idx (length s.workspaces)))
    else (if s.active_workspace == idx then (s, ok tt) else (
      send (active_workspace_changed idx)
          (record s { layout = record (s.layout) { active_workspace = idx } }),
      ok tt,
    ))
