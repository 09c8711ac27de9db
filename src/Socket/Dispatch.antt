-- ===== src/Socket/Dispatch.antt =====
-- handlers.rs: `dispatch`, from the name of the method to its handler.
pub mod Calls
pub mod Served
pub mod Files
pub mod Requests
pub mod Reach
pub mod Errors
use text.Mathlib.Text.{◌==◌ as str_eq}
use forgetty.Base.{ℕ, String, List, [], ◌∷◌, Option, none, some, if◌then◌else◌}
use forgetty.Session.State.{SessionManagerInner}
use forgetty.Workspace.{WorkspaceState}
use forgetty.Sync.Endpoint.{SyncEndpoint}
use forgetty.Socket.Protocol.{Request, Response, method_not_found, unknown_method, no_sync, failure}
use forgetty.Socket.Handlers.{Host, Reply}
use forgetty.Socket.Handlers.Tabs.{
  handle_list_tabs, handle_get_layout, handle_new_tab, handle_close_tab, handle_focus_tab,
  handle_move_tab,
}
use forgetty.Socket.Handlers.Workspaces.{
  handle_set_active_workspace, handle_create_workspace, handle_rename_workspace,
  handle_delete_workspace, handle_duplicate_workspace, handle_set_workspace_color,
  handle_move_workspace,
}
use forgetty.Socket.Handlers.Panes.{
  handle_split_pane, handle_get_pane_info, handle_resize_pane, handle_close_pane,
  handle_set_active_pane, handle_update_split_ratios,
}
use forgetty.Socket.Handlers.Input.{
  handle_send_input, handle_send_sigint, handle_notify, handle_set_pinned, handle_get_pinned,
}
use forgetty.Socket.Handlers.Devices.{
  SyncHost, SyncReply, handle_list_devices, handle_revoke_device, handle_get_pairing_info,
  handle_enable_pairing,
}

-- What a connection shares with the others: the session manager, the endpoint, if the daemon has one,
-- and the session file that was written last for the daemon's session id.
pub record Daemon : Type 0 where
  pub sm : SessionManagerInner
  pub sync_endpoint : Option SyncEndpoint
  pub session_id : Option ℕ
  pub active_file : Option (ℕ × WorkspaceState)

-- The names of the module `methods` that `dispatch` has a branch for.
pub data Method : Type 0 where
  list_tabs get_layout new_tab close_tab focus_tab set_active_workspace split_pane move_tab
        send_input get_pane_info resize_pane send_sigint notify close_pane create_workspace
        rename_workspace delete_workspace duplicate_workspace set_workspace_color move_workspace
        set_active_pane update_split_ratios set_pinned get_pinned list_devices revoke_device
        get_pairing_info enable_pairing :
      Method
  unknown : Method

-- The first entry with the name.
abbrev pub find_method : String → List (String × Method) → Method
find_method name [] = unknown
find_method name ((known, m) ∷ rest) = if str_eq name known then m else find_method name rest

abbrev methods : List (String × Method)
methods =
    ("list_tabs", list_tabs)
    ∷ ("get_layout", get_layout)
    ∷ ("new_tab", new_tab)
    ∷ ("close_tab", close_tab)
    ∷ ("focus_tab", focus_tab)
    ∷ ("set_active_workspace", set_active_workspace)
    ∷ ("split_pane", split_pane)
    ∷ ("move_tab", move_tab)
    ∷ ("send_input", send_input)
    ∷ ("get_pane_info", get_pane_info)
    ∷ ("resize_pane", resize_pane)
    ∷ ("send_sigint", send_sigint)
    ∷ ("notify", notify)
    ∷ ("close_pane", close_pane)
    ∷ ("create_workspace", create_workspace)
    ∷ ("rename_workspace", rename_workspace)
    ∷ ("delete_workspace", delete_workspace)
    ∷ ("duplicate_workspace", duplicate_workspace)
    ∷ ("set_workspace_color", set_workspace_color)
    ∷ ("move_workspace", move_workspace)
    ∷ ("set_active_pane", set_active_pane)
    ∷ ("update_split_ratios", update_split_ratios)
    ∷ ("set_pinned", set_pinned)
    ∷ ("get_pinned", get_pinned)
    ∷ ("list_devices", list_devices)
    ∷ ("revoke_device", revoke_device)
    ∷ ("get_pairing_info", get_pairing_info)
    ∷ ("enable_pairing", enable_pairing)
    ∷ []

unfoldable pub route : String → Method
route name = find_method name methods

abbrev pub on_manager : Reply → Daemon → Daemon × Response
on_manager reply d = (record d { sm = reply.0 }, reply.1)

-- The endpoint, or the answer that there is none.
abbrev pub on_endpoint : (SyncEndpoint → SyncReply) → Request → Daemon → Daemon × Response
on_endpoint handler request d = elim (d.sync_endpoint) [
  | none ↦ (d, failure request.id method_not_found no_sync)
  | some se ↦ (record d { sync_endpoint = some ((handler se).0) }, (handler se).1)
]

abbrev pub on_session_file : Reply × Option (ℕ × WorkspaceState) → Daemon → Daemon × Response
on_session_file r d = (
  record d {
    sm = (r.0).0;
    active_file = elim (r.1) [ none ↦ d.active_file | some file ↦ some file ];
  },
  (r.0).1,
)

unfoldable pub dispatch_to : Method → Host → SyncHost → Request → Daemon → Daemon × Response
dispatch_to list_tabs h sh request d = on_manager (handle_list_tabs h request d.sm) d
dispatch_to get_layout h sh request d = on_manager (handle_get_layout h request d.sm) d
dispatch_to new_tab h sh request d = on_manager (handle_new_tab h request d.sm) d
dispatch_to close_tab h sh request d = on_manager (handle_close_tab h request d.sm) d
dispatch_to focus_tab h sh request d = on_manager (handle_focus_tab h request d.sm) d
dispatch_to set_active_workspace h sh request d =
    on_manager (handle_set_active_workspace h request d.sm) d
dispatch_to split_pane h sh request d = on_manager (handle_split_pane h request d.sm) d
dispatch_to move_tab h sh request d = on_manager (handle_move_tab h request d.sm) d
dispatch_to send_input h sh request d = on_manager (handle_send_input h request d.sm) d
dispatch_to get_pane_info h sh request d = on_manager (handle_get_pane_info h request d.sm) d
dispatch_to resize_pane h sh request d = on_manager (handle_resize_pane h request d.sm) d
dispatch_to send_sigint h sh request d = on_manager (handle_send_sigint h request d.sm) d
dispatch_to notify h sh request d = on_manager (handle_notify h request d.sm) d
dispatch_to close_pane h sh request d = on_manager (handle_close_pane h request d.sm) d
dispatch_to create_workspace h sh request d = on_manager (handle_create_workspace h request d.sm) d
dispatch_to rename_workspace h sh request d = on_manager (handle_rename_workspace h request d.sm) d
dispatch_to delete_workspace h sh request d = on_manager (handle_delete_workspace h request d.sm) d
dispatch_to duplicate_workspace h sh request d =
    on_manager (handle_duplicate_workspace h request d.sm) d
dispatch_to set_workspace_color h sh request d =
    on_manager (handle_set_workspace_color h request d.sm) d
dispatch_to move_workspace h sh request d = on_manager (handle_move_workspace h request d.sm) d
dispatch_to set_active_pane h sh request d = on_manager (handle_set_active_pane h request d.sm) d
dispatch_to update_split_ratios h sh request d =
    on_manager (handle_update_split_ratios h request d.sm) d
dispatch_to set_pinned h sh request d =
    on_session_file (handle_set_pinned h d.session_id request d.sm) d
dispatch_to get_pinned h sh request d = on_manager (handle_get_pinned h request d.sm) d
dispatch_to list_devices h sh request d = on_endpoint (handle_list_devices sh request) request d
dispatch_to revoke_device h sh request d = on_endpoint (handle_revoke_device sh request) request d
dispatch_to get_pairing_info h sh request d =
    on_endpoint (handle_get_pairing_info sh request) request d
dispatch_to enable_pairing h sh request d = on_endpoint (handle_enable_pairing sh request) request d
dispatch_to unknown h sh request d =
    (d, failure request.id method_not_found (unknown_method request.method))

unfoldable pub dispatch : Host → SyncHost → Request → Daemon → Daemon × Response
unfolding route dispatch_to
dispatch h sh request d = dispatch_to (route request.method) h sh request d
