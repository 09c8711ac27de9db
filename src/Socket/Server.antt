-- ===== src/Socket/Server.antt =====
-- crates/forgetty-socket/src/server.rs: a connection of the streaming server, one line after the other,
-- up to its end, a stream or the exit of the daemon. A response is written without an error.
pub mod Answers
pub mod Exit
use text.Mathlib.Text.{◌==◌ as str_eq}
use forgetty.Base.{
  ℕ, String, List, [], ◌∷◌, ◌++◌, Bool, true, false, ◌||◌, Option, none, some, ltb, if◌then◌else◌,
}
use forgetty.Session.State.{SessionManagerInner, Env}
use forgetty.Session.Output.{subscribe_output, subscribe_with_snapshot}
use forgetty.Session.Snapshot.{snapshot_to_workspace_state}
use forgetty.Workspace.Store.{
  Store, Writing, replaced, Moving, move_to_active, pinned_aware_exit_move,
}
use forgetty.Socket.Json.{Value, boolean, json_object}
use forgetty.Socket.Protocol.{
  Request, Response, Parsed, request, rejected, parse, success, failure, invalid_params,
  missing_param, invalid_uuid, pane_not_found,
}
use forgetty.Session.Panes.{pane_info}
use forgetty.Socket.Handlers.{Host, param_str, ok_true}
use forgetty.Socket.Handlers.Devices.{SyncHost}
use forgetty.Socket.Dispatch.{Daemon, dispatch}

-- The daemon with its session files.
pub record Server : Type 0 where
  pub daemon : Daemon
  pub store : Store

-- What the connection does after a line. A stream has its pane, its replay and its receiver, which is
-- the number of events sent before.
pub data Next : Type 0 where
  reads_on ends exits : Next
  streams_output : ℕ → List ℕ → ℕ → Next
  streams_layout : ℕ → Next

abbrev pub reads_more : Next → Bool
reads_more reads_on = true
reads_more n = false

-- The state, the responses that are written, and what comes next.
pub record Turn : Type 0 where
  pub server : Server
  pub written : List Response
  pub next : Next

-- How the write and the move of the session file end at the exit, the time, and the count of
-- connections whose task has started, this one among them.
pub record ServerIo : Type 0 where
  pub writing : Writing
  pub moving : Moving
  pub now : ℕ
  pub connections : ℕ

abbrev pub answers : Server → Response → Next → Turn
answers v response next = record { server = v; written = response ∷ []; next = next }

-- `subscribe_output`: the pane must be alive.
unfoldable pub handle_subscribe_output : Host → Request → Server → Turn
handle_subscribe_output h r v = elim (param_str "pane_id" r) [
  | none ↦ answers v (failure r.id invalid_params (missing_param "pane_id")) ends
  | some text ↦ elim (h.parse_str text) [
    | none ↦ answers v (failure r.id invalid_params (invalid_uuid text)) ends
    | some pane_id ↦ elim (pane_info pane_id v.daemon.sm) [
      | none ↦ answers v (failure r.id invalid_params (pane_not_found text)) ends
      | some info ↦
          let (rx, replay, high_water) = subscribe_with_snapshot pane_id v.daemon.sm in
          answers v (success r.id ok_true) (streams_output pane_id replay rx)
    ]
  ]
]

-- The end of a session: its file in active/ is written once more, and then moved to sessions/ if the
-- session is pinned, and to trash/ if it is not.
unfoldable pub close_session :
    Writing → Moving → Env → ℕ → SessionManagerInner → Store → SessionManagerInner × Store
close_session w m env sid s store =
    let (s1, state) = snapshot_to_workspace_state env s in
    (s1, pinned_aware_exit_move m sid s1.pinned (move_to_active w sid state store).0)

-- `shutdown_save`, `shutdown_clean` and `disconnect`, after the byte logs were flushed.
unfoldable pub handle_exit : ServerIo → Host → Request → Server → Turn
unfolding close_session
handle_exit io h r v = elim (v.daemon.session_id) [
  | none ↦ answers v (success r.id ok_true) exits
  | some sid ↦
      let (s1, store1) = close_session io.writing io.moving h.env sid v.daemon.sm v.store in
      answers (record { daemon = record (v.daemon) { sm = s1 }; store = store1 })
        (success r.id ok_true) exits
]

-- `is_attached`: another connection than this one is open.
unfoldable pub handle_is_attached : ServerIo → Request → Server → Turn
handle_is_attached io r v =
    answers v (success r.id (json_object (("attached", boolean (ltb 1 io.connections)) ∷ [])))
      reads_on

-- The session file that a handler wrote is in active/.
unfoldable pub dispatch_line : ServerIo → Host → SyncHost → Request → Server → Turn
dispatch_line io h sh r v =
    let (d1, response) = dispatch h sh r (record (v.daemon) { active_file = none }) in
    answers
      (record {
        daemon = d1;
        store = elim (d1.active_file) [
          | none ↦ v.store
          | some (sid, state) ↦ (move_to_active (replaced io.now) sid state v.store).0
        ];
      })
      response reads_on

abbrev pub is_exit : String → Bool
is_exit method =
    str_eq method "shutdown_save" || str_eq method "shutdown_clean" || str_eq method "disconnect"

-- The tests on the method, in order.
unfoldable pub serve_request : ServerIo → Host → SyncHost → Request → Server → Turn
unfolding handle_subscribe_output handle_exit handle_is_attached dispatch_line
serve_request io h sh r v =
    if str_eq r.method "subscribe_output"
    then handle_subscribe_output h r v
    else if str_eq r.method "subscribe_layout"
    then answers v (success r.id ok_true) (streams_layout (subscribe_output v.daemon.sm))
    else if is_exit r.method
    then handle_exit io h r v
    else if str_eq r.method "shutdown"
    then answers v (success r.id ok_true) exits
    else if str_eq r.method "is_attached"
    then handle_is_attached io r v
    else dispatch_line io h sh r v

-- One trimmed line; `from_str` is what serde_json makes of it.
unfoldable pub serve_line :
    (String → Option Request) → ServerIo → Host → SyncHost → String → Server → Turn
unfolding serve_request
serve_line from_str io h sh line v =
    if str_eq line ""
    then record { server = v; written = []; next = reads_on }
    else elim (parse from_str line) [
      | rejected response ↦ answers v response reads_on
      | request r ↦ serve_request io h sh r v
    ]

-- The loop over the lines: to the end of the stream, or to a line after which none is read. Each line
-- has its own answers from outside.
unfoldable pub handle_streaming_connection :
    (String → Option Request) → List (ServerIo × Host × SyncHost × String) → Server → Turn
unfolding serve_line
handle_streaming_connection from_str [] v = record { server = v; written = []; next = ends }
handle_streaming_connection from_str ((io, h, sh, line) ∷ lines) v =
    let turn = serve_line from_str io h sh line v in
    elim (reads_more turn.next) [
      | true ↦
          let rest = handle_streaming_connection from_str lines turn.server in
          record rest { written = turn.written ++ rest.written }
      | false ↦ turn
    ]
