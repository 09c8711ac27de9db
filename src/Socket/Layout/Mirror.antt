-- ===== src/Socket/Layout/Mirror.antt =====
-- server.rs and daemon_client.rs together: what a window is told of the changes of the layout.
use forgetty.Base.{
  ℕ, ◌≡◌, refl, ap, ◌∙◌, String, List, [], ◌∷◌, Option, none, some, Option-cases, inl, inr,
}
use forgetty.Session.State.{
  SessionEvent, pty_output, pane_created, pane_closed, tab_created, tab_closed, pane_split,
  tab_moved, active_tab_changed, active_workspace_changed, workspace_created, workspace_renamed,
  workspace_deleted, workspace_color_changed, workspaces_reordered, active_pane_changed,
}
use forgetty.Socket.Json.{Value, get, as_str, as_u64, json_object}
use forgetty.Socket.Handlers.{and_then}
use forgetty.Socket.Stream.{Received, event, lagged, channel_closed, client_read}
use forgetty.Socket.Layout.{notification, stream_layout}
use forgetty.Socket.Layout.Client
use forgetty.Socket.Layout.Client.{
  LayoutEvent, layout_event, read_notification, subscribe_layout_task,
}

-- What the window is to learn of an event.
abbrev pub mirrored : SessionEvent → Option LayoutEvent
mirrored (tab_created idx tab_id pane_id) = some (Client.tab_created idx tab_id pane_id)
mirrored (tab_closed idx tab_id) = some (Client.tab_closed idx tab_id)
mirrored (pane_split tab_id parent new_pane direction) =
    some (Client.pane_split tab_id parent new_pane direction)
mirrored (tab_moved idx tab_id new_index) = some (Client.tab_moved idx tab_id new_index)
mirrored (active_tab_changed idx tab_idx) = some (Client.active_tab_changed idx tab_idx)
mirrored (workspace_renamed idx id name) = some (Client.workspace_renamed idx id name)
mirrored (workspace_deleted idx id) = some (Client.workspace_deleted idx id)
mirrored (workspace_color_changed idx id color) = some (Client.workspace_color_changed idx id color)
mirrored (workspaces_reordered from_idx to_idx from_id to_id) =
    some (Client.workspaces_reordered from_idx to_idx from_id to_id)
mirrored (active_pane_changed idx tab_id pane_id) =
    some (Client.active_pane_changed idx tab_id pane_id)
mirrored e = none

abbrev pub keep : Option LayoutEvent → List LayoutEvent → List LayoutEvent
keep none more = more
keep (some l) more = l ∷ more

-- The same of all that the daemon's loop receives before it ends.
abbrev pub mirrored_all : List Received → List LayoutEvent
mirrored_all [] = []
mirrored_all (event e ∷ rest) = keep (mirrored e) (mirrored_all rest)
mirrored_all (lagged ∷ rest) = mirrored_all rest
mirrored_all (channel_closed ∷ rest) = []
mirrored_all (client_read ∷ rest) = []

module _ (text : ℕ → String) (parse : String → Option ℕ)
    (reads : (id : ℕ) → parse (text id) ≡ some id) where
  read_notification-notification :
      (e : SessionEvent) → and_then (notification text e) (read_notification parse) ≡ mirrored e
  unfolding notification read_notification layout_event get as_str as_u64 json_object
  read_notification-notification (tab_created idx tab_id pane_id) =
      rw (reads tab_id, reads pane_id) refl
  read_notification-notification (tab_closed idx tab_id) = rw (reads tab_id) refl
  read_notification-notification (pane_split tab_id parent new_pane direction) =
      rw (reads tab_id, reads parent, reads new_pane) refl
  read_notification-notification (tab_moved idx tab_id new_index) = rw (reads tab_id) refl
  read_notification-notification (active_tab_changed idx tab_idx) = refl
  read_notification-notification (active_workspace_changed idx) = refl
  read_notification-notification (workspace_created idx id name) = refl
  read_notification-notification (workspace_renamed idx id name) = rw (reads id) refl
  read_notification-notification (workspace_deleted idx id) = rw (reads id) refl
  read_notification-notification (workspace_color_changed idx id none) = rw (reads id) refl
  read_notification-notification (workspace_color_changed idx id (some color)) = rw (reads id) refl
  read_notification-notification (workspaces_reordered from_idx to_idx from_id to_id) =
      rw (reads from_id, reads to_id) refl
  read_notification-notification (active_pane_changed idx tab_id none) = rw (reads tab_id) refl
  read_notification-notification (active_pane_changed idx tab_id (some id)) =
      rw (reads tab_id, reads id) refl
  read_notification-notification (pty_output id bytes) = refl
  read_notification-notification (pane_created id) = refl
  read_notification-notification (pane_closed id) = refl

  read_next :
      (v : Value) (lines : List Value)
      → subscribe_layout_task parse (v ∷ lines)
        ≡ keep (read_notification parse v) (subscribe_layout_task parse lines)
  unfolding subscribe_layout_task
  read_next v lines = elim (Option-cases (read_notification parse v)) [
    | inl skipped ↦ rw (skipped, subscribe_layout_task) refl
    | inr (l, read) ↦ rw (read, subscribe_layout_task) refl
  ]

  send_next :
      (e : SessionEvent) (rest : List Received)
      → subscribe_layout_task parse (stream_layout text (event e ∷ rest))
        ≡ keep
            (and_then (notification text e) (read_notification parse))
            (subscribe_layout_task parse (stream_layout text rest))
  unfolding stream_layout
  send_next e rest = elim (Option-cases (notification text e)) [
    | inl silent ↦ rw (silent, stream_layout) refl
    | inr (v, sent) ↦ rw (sent, stream_layout) (read_next v (stream_layout text rest))
  ]

  -- A window that subscribes to the layout learns of every change that it has a case for, each once, in
  -- order and with the data of the event, until the daemon's loop ends; it is told nothing else, and
  -- skips the notifications of a new workspace and of another active workspace. A UUID is read back
  -- from its text.
  pub subscribe_layout_task-stream_layout :
      (received : List Received)
      → subscribe_layout_task parse (stream_layout text received) ≡ mirrored_all received
  unfolding stream_layout subscribe_layout_task
  subscribe_layout_task-stream_layout [] = refl
  subscribe_layout_task-stream_layout (event e ∷ rest) =
      send_next e rest
      ∙ ap (λ o. keep o (subscribe_layout_task parse (stream_layout text rest)))
          (read_notification-notification e)
      ∙ ap (λ ls. keep (mirrored e) ls) (subscribe_layout_task-stream_layout rest)
  subscribe_layout_task-stream_layout (lagged ∷ rest) = subscribe_layout_task-stream_layout rest
  subscribe_layout_task-stream_layout (channel_closed ∷ rest) = refl
  subscribe_layout_task-stream_layout (client_read ∷ rest) = refl
