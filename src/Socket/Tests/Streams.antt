-- ===== src/Socket/Tests/Streams.antt =====
-- The streams of the server, its connections and its exit, and the theorems at them.
use text.Mathlib.Text.{◌==◌ as str_eq}
use forgetty.Base.{
  ℕ, ◌≡◌, refl, String, List, [], ◌∷◌, Option, none, some, map, arith, drop, has, lookup,
  if◌then◌else◌, true,
}
use forgetty.Session.State.{
  Env, SessionManagerInner, tab_created, pane_created, workspace_created, active_pane_changed,
}
use forgetty.Session.Output.{pending, subscribe_with_snapshot, drain_all}
use forgetty.Session.Snapshot.{snapshot_to_workspace_state}
use forgetty.Session.Tests.Demo.{demo, demo_env}
use forgetty.Session.Tests.Output.{log_1, demo_log-Tracks}
use forgetty.Workspace.Store.{Store, replaced, renamed, load_session_for}
use forgetty.Workspace.Migration.{MigrationIo}
use forgetty.Workspace.Startup.{RecoveryIo, start}
use forgetty.Socket.Protocol.{Request}
use forgetty.Socket.Handlers.{Host}
use forgetty.Socket.Handlers.Devices.{SyncHost}
use forgetty.Socket.Stream.{Received, event, lagged, client_read, stream_output}
use forgetty.Socket.Stream.Client.{
  eof, IsOver, subscribe_output_inner, subscribe_output_inner-IsOver,
}
use forgetty.Socket.Stream.Attach.{joined}
use forgetty.Socket.Stream.Attach.Live.{subscribe_output_inner-live}
use forgetty.Socket.Layout.{stream_layout}
use forgetty.Socket.Layout.Client.{subscribe_layout_task}
use forgetty.Socket.Layout.Mirror.{mirrored_all, subscribe_layout_task-stream_layout}
use forgetty.Socket.Server.{Server, ServerIo, close_session}
use forgetty.Socket.Server.Exit.{load-close_session}
use forgetty.Socket.Tests.Uuids.{uuid_text, parse_uuid, parse_uuid-uuid_text}
use forgetty.Socket.Tests.Requests.{host, sync_host, daemon_of, request_of}

-- A frame of one byte, and the beginning of another.
subscribe_output_inner-IsOver_example :
    IsOver (subscribe_output_inner (0 ∷ 0 ∷ 0 ∷ 1 ∷ 7 ∷ 0 ∷ 0 ∷ [])).1
subscribe_output_inner-IsOver_example =
    subscribe_output_inner-IsOver (0 ∷ 0 ∷ 0 ∷ 1 ∷ 7 ∷ 0 ∷ 0 ∷ [])

abbrev chunks : List (Env × ℕ × List ℕ)
chunks = (demo_env, 3, 8 ∷ []) ∷ (demo_env, 1, 7 ∷ []) ∷ []

pane_1 : has 1 demo.panes ≡ true
unfolding lookup
pane_1 = refl

subscribe_output_inner-live_example :
    let t = drain_all chunks demo in
    let (rx, replay, high_water) = subscribe_with_snapshot 1 demo in
    let (ms, end) = subscribe_output_inner (stream_output 1 replay (map event (pending rx t))) in
    (joined ms ≡ drop 1 (4 ∷ 5 ∷ 6 ∷ 7 ∷ [])) × (end ≡ eof)
subscribe_output_inner-live_example =
    subscribe_output_inner-live 1 2 (4 ∷ 5 ∷ 6 ∷ []) _ chunks demo pane_1 log_1 demo_log-Tracks
      (omega arith) (omega arith, (omega arith, tt)) ((λ handle. refl), ((λ handle. refl), tt))

abbrev layout_events : List Received
layout_events =
    event (tab_created 0 5 6)
    ∷ event (pane_created 6)
    ∷ event (workspace_created 1 4 "work")
    ∷ lagged
    ∷ event (active_pane_changed 0 5 (some 6))
    ∷ client_read
    ∷ []

subscribe_layout_task-stream_layout_example :
    subscribe_layout_task parse_uuid (stream_layout uuid_text layout_events)
    ≡ mirrored_all layout_events
subscribe_layout_task-stream_layout_example =
    subscribe_layout_task-stream_layout uuid_text parse_uuid parse_uuid-uuid_text layout_events

abbrev store : Store
store = record { sessions = []; active = []; trash = []; marker = true; logs = [] }

abbrev server_io : ServerIo
server_io = record { writing = replaced 1; moving = renamed; now = 1; connections = 2 }

abbrev from_str : String → Option Request
from_str line = if str_eq line "attached?" then some (request_of "is_attached" []) else none

abbrev lines : List (ServerIo × Host × SyncHost × String)
lines =
    (server_io, host, sync_host, "attached?")
    ∷ (server_io, host, sync_host, "")
    ∷ (server_io, host, sync_host, "{bad")
    ∷ []

abbrev server : Server
server = record { daemon = daemon_of demo; store = store }

abbrev migration_io : MigrationIo
migration_io = record {
  directories = true;
  listed = true;
  moving = λ id. renamed;
  removed = λ id. true;
  marked = true;
}

abbrev recovery_io : RecoveryIo
recovery_io = record { promoting = λ id. renamed; deleted = λ id. true }

abbrev pinned_demo : SessionManagerInner
pinned_demo = record demo { pinned = true }

load-close_session_example :
    load_session_for 9 (
      start migration_io recovery_io
        (close_session (replaced 1) renamed demo_env 9 pinned_demo store).1)
    ≡ some ((snapshot_to_workspace_state demo_env pinned_demo).1)
load-close_session_example =
    load-close_session migration_io recovery_io 1 demo_env 9 pinned_demo store
      (record { promoting = λ id. refl; deleted = λ id. refl }) refl refl
