-- ===== src/Socket/Handlers/Workspaces.antt =====
-- handlers.rs: the methods on workspaces.
use forgetty.Base.{ℕ, List, [], ◌∷◌, none, map, unwrap_or}
use forgetty.Session.State.{SessionManagerInner}
use forgetty.Session.Workspaces.{
  create_workspace, rename_workspace, set_workspace_color, move_workspace, delete_workspace,
  set_active_workspace,
}
use forgetty.Session.Tabs.{create_tab}
use forgetty.Session.Duplicate.{DuplicatedTab, duplicate_workspace}
use forgetty.Socket.Json.{Value, integer, string, json_object, json_array}
use forgetty.Socket.Protocol.{Request, invalid_params, internal_error}
use forgetty.Socket.Handlers.{
  Host, Reply, default_rows, default_cols, size_of, param_str, ok_true, answer, answer_ok,
  require_str, require_u64,
}

unfoldable pub handle_set_active_workspace : Host → Request → SessionManagerInner → Reply
handle_set_active_workspace h request s = require_u64 "workspace_idx" request s λ ws_idx.
    answer request invalid_params "set_active_workspace" (λ a. ok_true)
      (set_active_workspace ws_idx s)

-- The new workspace stays if its first tab cannot be created.
unfoldable pub handle_create_workspace : Host → Request → SessionManagerInner → Reply
handle_create_workspace h request s =
    let name = unwrap_or (param_str "name" request) "Workspace" in
    let (s1, (workspace_id, workspace_idx)) = create_workspace (h.env.new_uuid 0) name s in
    answer request internal_error "create_workspace: create_tab"
      (λ ids. json_object (
        ("workspace_id", string (h.to_string workspace_id))
        ∷ ("workspace_idx", integer workspace_idx)
        ∷ ("pane_id", string (h.to_string ids.0))
        ∷ ("tab_id", string (h.to_string ids.1))
        ∷ []))
      (create_tab h.env_next workspace_idx none (size_of default_rows default_cols) none s1)

unfoldable pub handle_rename_workspace : Host → Request → SessionManagerInner → Reply
handle_rename_workspace h request s = require_u64 "workspace_idx" request s λ workspace_idx.
    require_str "name" request s
      λ name. answer_ok request "rename_workspace" (rename_workspace workspace_idx name s)

unfoldable pub handle_delete_workspace : Host → Request → SessionManagerInner → Reply
handle_delete_workspace h request s =
    require_u64 "workspace_idx" request s
      λ workspace_idx. answer_ok request "delete_workspace" (delete_workspace workspace_idx s)

duplicated_value : Host → DuplicatedTab → Value
duplicated_value h dt =
    json_object (
      ("tab_id", string (h.to_string dt.tab_id))
      ∷ ("pane_id", string (h.to_string dt.pane_id))
      ∷ [])

abbrev duplicate_value : Host → ℕ × ℕ × List DuplicatedTab → Value
duplicate_value h made = json_object (
    ("workspace_id", string (h.to_string made.0))
    ∷ ("workspace_idx", integer made.1)
    ∷ ("tabs", json_array (map (duplicated_value h) made.2))
    ∷ [])

unfoldable pub handle_duplicate_workspace : Host → Request → SessionManagerInner → Reply
unfolding duplicated_value
handle_duplicate_workspace h request s = require_u64 "source_workspace_idx" request s λ idx.
    answer request internal_error "duplicate_workspace" (duplicate_value h) (
      duplicate_workspace h.env idx (param_str "new_name" request)
        (size_of default_rows default_cols) s)

unfoldable pub handle_set_workspace_color : Host → Request → SessionManagerInner → Reply
handle_set_workspace_color h request s = require_u64 "workspace_idx" request s λ workspace_idx.
    answer_ok request "set_workspace_color"
      (set_workspace_color workspace_idx (param_str "color" request) s)

unfoldable pub handle_move_workspace : Host → Request → SessionManagerInner → Reply
handle_move_workspace h request s = require_u64 "from_idx" request s λ from_idx.
    require_u64 "to_idx" request s
      λ to_idx. answer_ok request "move_workspace" (move_workspace from_idx to_idx s)
