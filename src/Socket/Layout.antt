-- ===== src/Socket/Layout.antt =====
-- server.rs: the notifications that a client is sent that subscribes to the layout. A write to the
-- client succeeds.
pub mod Client
pub mod Mirror
use forgetty.Base.{ℕ, String, List, [], ◌∷◌, Option, none, some, map}
use forgetty.Session.State.{
  SessionEvent, pty_output, pane_created, pane_closed, tab_created, tab_closed, pane_split,
  tab_moved, active_tab_changed, active_workspace_changed, workspace_created, workspace_renamed,
  workspace_deleted, workspace_color_changed, workspaces_reordered, active_pane_changed,
}
use forgetty.Socket.Json.{Value, integer, string, json_object, or_null}
use forgetty.Socket.Stream.{Received, event, lagged, channel_closed, client_read}

abbrev pub notification_of : String → List (String × Value) → Option Value
notification_of method params = some (
    json_object
      (("jsonrpc", string "2.0") ∷ ("method", string method) ∷ ("params", json_object params) ∷ []))

-- The notification of an event, given the text of a UUID; the other events are not forwarded.
unfoldable pub notification : (ℕ → String) → SessionEvent → Option Value
notification text (tab_created idx tab_id pane_id) = notification_of "tab_created" (
    ("workspace_idx", integer idx)
    ∷ ("tab_id", string (text tab_id))
    ∷ ("pane_id", string (text pane_id))
    ∷ [])
notification text (tab_closed idx tab_id) =
    notification_of "tab_closed"
      (("workspace_idx", integer idx) ∷ ("tab_id", string (text tab_id)) ∷ [])
notification text (pane_split tab_id parent_pane_id new_pane_id direction) =
    notification_of "pane_split" (
      ("tab_id", string (text tab_id))
      ∷ ("parent_pane_id", string (text parent_pane_id))
      ∷ ("new_pane_id", string (text new_pane_id))
      ∷ ("direction", string direction)
      ∷ [])
notification text (tab_moved idx tab_id new_index) = notification_of "tab_moved" (
    ("workspace_idx", integer idx)
    ∷ ("tab_id", string (text tab_id))
    ∷ ("new_index", integer new_index)
    ∷ [])
notification text (active_tab_changed idx tab_idx) =
    notification_of "active_tab_changed"
      (("workspace_idx", integer idx) ∷ ("tab_idx", integer tab_idx) ∷ [])
notification text (active_workspace_changed idx) =
    notification_of "active_workspace_changed" (("workspace_idx", integer idx) ∷ [])
notification text (workspace_created idx workspace_id name) = notification_of "workspace_created" (
    ("workspace_idx", integer idx)
    ∷ ("workspace_id", string (text workspace_id))
    ∷ ("name", string name)
    ∷ [])
notification text (workspace_renamed idx workspace_id name) = notification_of "workspace_renamed" (
    ("workspace_idx", integer idx)
    ∷ ("workspace_id", string (text workspace_id))
    ∷ ("name", string name)
    ∷ [])
notification text (workspace_deleted idx workspace_id) =
    notification_of "workspace_deleted"
      (("workspace_idx", integer idx) ∷ ("workspace_id", string (text workspace_id)) ∷ [])
notification text (workspace_color_changed idx workspace_id color) =
    notification_of "workspace_color_changed" (
      ("workspace_idx", integer idx)
      ∷ ("workspace_id", string (text workspace_id))
      ∷ ("color", or_null (λ c. string c) color)
      ∷ [])
notification text (workspaces_reordered from_idx to_idx from_workspace_id to_workspace_id) =
    notification_of "workspaces_reordered" (
      ("from_idx", integer from_idx)
      ∷ ("to_idx", integer to_idx)
      ∷ ("from_workspace_id", string (text from_workspace_id))
      ∷ ("to_workspace_id", string (text to_workspace_id))
      ∷ [])
notification text (active_pane_changed idx tab_id pane_id) = notification_of "active_pane_changed" (
    ("workspace_idx", integer idx)
    ∷ ("tab_id", string (text tab_id))
    ∷ ("pane_id", or_null (λ id. string (text id)) pane_id)
    ∷ [])
notification text e = none

-- The loop: what the client is sent until it ends.
unfoldable pub stream_layout : (ℕ → String) → List Received → List Value
unfolding notification
stream_layout text [] = []
stream_layout text (event e ∷ rest) =
    let more = stream_layout text rest in
    elim (notification text e) [ none ↦ more | some v ↦ v ∷ more ]
stream_layout text (lagged ∷ rest) = stream_layout text rest
stream_layout text (channel_closed ∷ rest) = []
stream_layout text (client_read ∷ rest) = []
