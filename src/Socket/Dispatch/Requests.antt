-- ===== src/Socket/Dispatch/Requests.antt =====
-- handlers.rs: `dispatch`, as calls of the session manager.
use forgetty.Base.{◌≡◌, ◌⊎◌, refl, Bool, true, false, Option-cases, inl, inr}
use forgetty.Sync.Endpoint.{SyncEndpoint}
use forgetty.Sync.Registry.{Saving, RegistryResult, done, failed, remove}
use forgetty.Session.State.{SessionManagerInner}
use forgetty.Socket.Protocol.{Request, Response, method_not_found, no_sync, unknown_method}
use forgetty.Socket.Handlers.{Host, param_str}
use forgetty.Socket.Dispatch.Files.{file_after, dispatch_to-file_after}
use forgetty.Socket.Dispatch.Served.Tabs.{
  handle_list_tabs-Served, handle_get_layout-Served, handle_new_tab-Served, handle_close_tab-Served,
  handle_focus_tab-Served, handle_move_tab-Served,
}
use forgetty.Socket.Dispatch.Served.Workspaces.{
  handle_set_active_workspace-Served, handle_create_workspace-Served,
  handle_rename_workspace-Served, handle_delete_workspace-Served, handle_duplicate_workspace-Served,
  handle_set_workspace_color-Served, handle_move_workspace-Served,
}
use forgetty.Socket.Dispatch.Served.Panes.{
  handle_split_pane-Served, handle_get_pane_info-Served, handle_resize_pane-Served,
  handle_close_pane-Served, handle_set_active_pane-Served, handle_update_split_ratios-Served,
}
use forgetty.Socket.Dispatch.Served.Input.{
  handle_send_input-Served, handle_send_sigint-Served, handle_notify-Served,
  handle_set_pinned-Served, handle_get_pinned-Served,
}
use forgetty.Socket.Handlers.Devices.{
  SyncHost, SyncReply, handle_list_devices, handle_revoke_device, handle_get_pairing_info,
  handle_enable_pairing,
}
use forgetty.Socket.Dispatch.Served.{Answers, accepted, denied, Served, refused, read, is_query}
use forgetty.Socket.Dispatch.{
  Daemon, Method, unknown, list_tabs, get_layout, new_tab, close_tab, focus_tab,
  set_active_workspace, split_pane, move_tab, send_input, get_pane_info, resize_pane, send_sigint,
  notify, close_pane, create_workspace, rename_workspace, delete_workspace, duplicate_workspace,
  set_workspace_color, move_workspace, set_active_pane, update_split_ratios, set_pinned, get_pinned,
  list_devices, revoke_device, get_pairing_info, enable_pairing, on_endpoint, route, dispatch_to,
  dispatch,
}

-- A response of the request, with a result or with an error.
abbrev IsAnswer : Request → SyncReply → Type 0
IsAnswer request reply = (good : Bool) × Answers request reply.1 good

RegistryResult-cases {ℓ} :
    {A : Type ℓ} (r : RegistryResult A)
    → ((a : A) × (r ≡ done a)) ⊎ ((why : Saving) × (r ≡ failed why))
RegistryResult-cases (done a) = inl (a, refl)
RegistryResult-cases (failed why) = inr (why, refl)

handle_list_devices-IsAnswer :
    (sh : SyncHost) (request : Request) (se : SyncEndpoint)
    → IsAnswer request (handle_list_devices sh request se)
unfolding handle_list_devices
handle_list_devices-IsAnswer sh request se = (true, accepted _)

handle_revoke_device-IsAnswer :
    (sh : SyncHost) (request : Request) (se : SyncEndpoint)
    → IsAnswer request (handle_revoke_device sh request se)
unfolding handle_revoke_device
handle_revoke_device-IsAnswer sh request se = elim (Option-cases (param_str "device_id" request)) [
  | inl missing ↦ rw (missing, handle_revoke_device) (false, denied _ _)
  | inr (text, there) ↦
      elim (RegistryResult-cases (remove sh.saving (sh.device_number text) se.registry).1) [
        | inl (found, over) ↦ rw (there, over, handle_revoke_device) (true, accepted _)
        | inr (why, broken) ↦ rw (there, broken, handle_revoke_device) (false, denied _ _)
      ]
]

handle_enable_pairing-IsAnswer :
    (sh : SyncHost) (request : Request) (se : SyncEndpoint)
    → IsAnswer request (handle_enable_pairing sh request se)
unfolding handle_enable_pairing
handle_enable_pairing-IsAnswer sh request se = (true, accepted _)

handle_get_pairing_info-IsAnswer :
    (sh : SyncHost) (request : Request) (se : SyncEndpoint)
    → IsAnswer request (handle_get_pairing_info sh request se)
unfolding handle_get_pairing_info
handle_get_pairing_info-IsAnswer sh request se =
    elim (Option-cases (sh.qr_to_png (sh.device_text se.node_id))) [
      | inl bad ↦ rw (bad, handle_get_pairing_info) (false, denied _ _)
      | inr (png, good) ↦ rw (good, handle_get_pairing_info) (true, accepted _)
    ]

-- What a request of the method does to the daemon's manager.
abbrev pub Serves : Host → SyncHost → Request → Daemon → Method → Type 0
Serves h sh request d m =
    Served h request d.sm m ((dispatch_to m h sh request d).0.sm, (dispatch_to m h sh request d).1)

answered-Served :
    {h : Host} {request : Request} {s : SessionManagerInner} {m : Method} {r : Response}
    {good : Bool}
    → is_query m ≡ true
    → Answers request r good
    → Served h request s m (s, r)
answered-Served query (accepted v) = read query (accepted v)
answered-Served query (denied code message) = refused (denied code message)

on_endpoint-Served :
    (h : Host) (request : Request) (d : Daemon) (m : Method) (handler : SyncEndpoint → SyncReply)
    → is_query m ≡ true
    → ((se : SyncEndpoint) → IsAnswer request (handler se))
    → Served h request d.sm m
        ((on_endpoint handler request d).0.sm, (on_endpoint handler request d).1)
on_endpoint-Served h request d m handler query answers = elim (Option-cases d.sync_endpoint) [
  | inl off ↦ rw (off, on_endpoint) (refused (denied method_not_found no_sync))
  | inr (se, up) ↦ rw (up, on_endpoint) (answered-Served query (answers se).1)
]

dispatch_to-Serves :
    (h : Host) (sh : SyncHost) (request : Request) (d : Daemon) (m : Method)
    → Serves h sh request d m
unfolding dispatch_to
dispatch_to-Serves h sh request d list_tabs = handle_list_tabs-Served h request d.sm
dispatch_to-Serves h sh request d get_layout = handle_get_layout-Served h request d.sm
dispatch_to-Serves h sh request d new_tab = handle_new_tab-Served h request d.sm
dispatch_to-Serves h sh request d close_tab = handle_close_tab-Served h request d.sm
dispatch_to-Serves h sh request d focus_tab = handle_focus_tab-Served h request d.sm
dispatch_to-Serves h sh request d set_active_workspace =
    handle_set_active_workspace-Served h request d.sm
dispatch_to-Serves h sh request d split_pane = handle_split_pane-Served h request d.sm
dispatch_to-Serves h sh request d move_tab = handle_move_tab-Served h request d.sm
dispatch_to-Serves h sh request d send_input = handle_send_input-Served h request d.sm
dispatch_to-Serves h sh request d get_pane_info = handle_get_pane_info-Served h request d.sm
dispatch_to-Serves h sh request d resize_pane = handle_resize_pane-Served h request d.sm
dispatch_to-Serves h sh request d send_sigint = handle_send_sigint-Served h request d.sm
dispatch_to-Serves h sh request d notify = handle_notify-Served h request d.sm
dispatch_to-Serves h sh request d close_pane = handle_close_pane-Served h request d.sm
dispatch_to-Serves h sh request d create_workspace = handle_create_workspace-Served h request d.sm
dispatch_to-Serves h sh request d rename_workspace = handle_rename_workspace-Served h request d.sm
dispatch_to-Serves h sh request d delete_workspace = handle_delete_workspace-Served h request d.sm
dispatch_to-Serves h sh request d duplicate_workspace =
    handle_duplicate_workspace-Served h request d.sm
dispatch_to-Serves h sh request d set_workspace_color =
    handle_set_workspace_color-Served h request d.sm
dispatch_to-Serves h sh request d move_workspace = handle_move_workspace-Served h request d.sm
dispatch_to-Serves h sh request d set_active_pane = handle_set_active_pane-Served h request d.sm
dispatch_to-Serves h sh request d update_split_ratios =
    handle_update_split_ratios-Served h request d.sm
dispatch_to-Serves h sh request d set_pinned = handle_set_pinned-Served h request d.sm d.session_id
dispatch_to-Serves h sh request d get_pinned = handle_get_pinned-Served h request d.sm
dispatch_to-Serves h sh request d list_devices =
    on_endpoint-Served h request d _ _ refl (handle_list_devices-IsAnswer sh request)
dispatch_to-Serves h sh request d revoke_device =
    on_endpoint-Served h request d _ _ refl (handle_revoke_device-IsAnswer sh request)
dispatch_to-Serves h sh request d get_pairing_info =
    on_endpoint-Served h request d _ _ refl (handle_get_pairing_info-IsAnswer sh request)
dispatch_to-Serves h sh request d enable_pairing =
    on_endpoint-Served h request d _ _ refl (handle_enable_pairing-IsAnswer sh request)
dispatch_to-Serves h sh request d unknown =
    refused (denied method_not_found (unknown_method request.method))

pub dispatch-Served :
    (h : Host) (sh : SyncHost) (request : Request) (d : Daemon)
    → Served h request d.sm
        (route request.method)
        ((dispatch h sh request d).0.sm, (dispatch h sh request d).1)
      × ((dispatch h sh request d).0.active_file ≡ file_after h request d (route request.method))
unfolding dispatch
dispatch-Served h sh request d = (
  dispatch_to-Serves h sh request d (route request.method),
  dispatch_to-file_after h sh request d (route request.method),
)
