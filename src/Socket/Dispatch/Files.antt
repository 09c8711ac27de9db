-- ===== src/Socket/Dispatch/Files.antt =====
-- handlers.rs: which session file a request writes.
use forgetty.Base.{arith, ℕ, ◌≡◌, refl, Option, none, some, Option-cases, inl, inr}
use forgetty.Session.Run.{respond, set_pinned_call}
use forgetty.Session.Snapshot.{snapshot_to_workspace_state}
use forgetty.Sync.Endpoint.{SyncEndpoint}
use forgetty.Workspace.{WorkspaceState}
use forgetty.Socket.Json.{get, as_bool}
use forgetty.Socket.Protocol.{Request}
use forgetty.Socket.Handlers.{Host, and_then}
use forgetty.Socket.Handlers.Input.{handle_set_pinned}
use forgetty.Socket.Handlers.Devices.{SyncHost, SyncReply}
use forgetty.Socket.Dispatch.{
  Daemon, Method, unknown, list_tabs, get_layout, new_tab, close_tab, focus_tab,
  set_active_workspace, split_pane, move_tab, send_input, get_pane_info, resize_pane, send_sigint,
  notify, close_pane, create_workspace, rename_workspace, delete_workspace, duplicate_workspace,
  set_workspace_color, move_workspace, set_active_pane, update_split_ratios, set_pinned, get_pinned,
  list_devices, revoke_device, get_pairing_info, enable_pairing, on_endpoint, dispatch_to,
}

-- The file of the daemon's own session, with the new flag, if the request is a valid `set_pinned`, the
-- daemon has a session id and the write succeeds; otherwise what was written before.
abbrev pub file_after : Host → Request → Daemon → Method → Option (ℕ × WorkspaceState)
file_after h request d set_pinned = elim (and_then (get "pinned" request.params) as_bool) [
  | none ↦ d.active_file
  | some flag ↦ elim d.session_id [
    | none ↦ d.active_file
    | some sid ↦ elim h.save_failure [
      | some e ↦ d.active_file
      | none ↦
          let s = (respond h.env (set_pinned_call flag) d.sm).0 in
          some (sid, (snapshot_to_workspace_state h.env s).1)
    ]
  ]
]
file_after h request d m = d.active_file

on_endpoint_file :
    (request : Request) (d : Daemon) (handler : SyncEndpoint → SyncReply)
    → (on_endpoint handler request d).0.active_file ≡ d.active_file
on_endpoint_file request d handler = elim (Option-cases d.sync_endpoint) [
  | inl off ↦ rw (off, on_endpoint) refl
  | inr (se, up) ↦ rw (up, on_endpoint) refl
]

set_pinned_file :
    (h : Host) (sh : SyncHost) (request : Request) (d : Daemon)
    → (dispatch_to set_pinned h sh request d).0.active_file ≡ file_after h request d set_pinned
unfolding dispatch_to handle_set_pinned respond
set_pinned_file h sh request d = ground arith

pub dispatch_to-file_after :
    (h : Host) (sh : SyncHost) (request : Request) (d : Daemon) (m : Method)
    → (dispatch_to m h sh request d).0.active_file ≡ file_after h request d m
unfolding dispatch_to
dispatch_to-file_after h sh request d set_pinned = set_pinned_file h sh request d
dispatch_to-file_after h sh request d list_devices = on_endpoint_file request d _
dispatch_to-file_after h sh request d revoke_device = on_endpoint_file request d _
dispatch_to-file_after h sh request d get_pairing_info = on_endpoint_file request d _
dispatch_to-file_after h sh request d enable_pairing = on_endpoint_file request d _
dispatch_to-file_after h sh request d list_tabs = refl
dispatch_to-file_after h sh request d get_layout = refl
dispatch_to-file_after h sh request d new_tab = refl
dispatch_to-file_after h sh request d close_tab = refl
dispatch_to-file_after h sh request d focus_tab = refl
dispatch_to-file_after h sh request d set_active_workspace = refl
dispatch_to-file_after h sh request d split_pane = refl
dispatch_to-file_after h sh request d move_tab = refl
dispatch_to-file_after h sh request d send_input = refl
dispatch_to-file_after h sh request d get_pane_info = refl
dispatch_to-file_after h sh request d resize_pane = refl
dispatch_to-file_after h sh request d send_sigint = refl
dispatch_to-file_after h sh request d notify = refl
dispatch_to-file_after h sh request d close_pane = refl
dispatch_to-file_after h sh request d create_workspace = refl
dispatch_to-file_after h sh request d rename_workspace = refl
dispatch_to-file_after h sh request d delete_workspace = refl
dispatch_to-file_after h sh request d duplicate_workspace = refl
dispatch_to-file_after h sh request d set_workspace_color = refl
dispatch_to-file_after h sh request d move_workspace = refl
dispatch_to-file_after h sh request d set_active_pane = refl
dispatch_to-file_after h sh request d update_split_ratios = refl
dispatch_to-file_after h sh request d get_pinned = refl
dispatch_to-file_after h sh request d unknown = refl
