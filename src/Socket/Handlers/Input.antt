-- ===== src/Socket/Handlers/Input.antt =====
-- handlers.rs: what goes to the processes of the panes, the notification log and the pinned flag.
use forgetty.Base.{ℕ, [], ◌∷◌, Option, none, some, unwrap_or}
use forgetty.Session.State.{SessionManagerInner, ok, err, set_pinned}
use forgetty.Session.Output.{write_pty, intr_byte, send_sigint}
use forgetty.Session.Snapshot.{snapshot_to_workspace_state}
use forgetty.Workspace.{WorkspaceState}
use forgetty.Socket.Json.{get, as_bool, boolean, json_object}
use forgetty.Socket.Protocol.{
  Request, invalid_params, internal_error, missing_param, bad_base64, operation_failed,
  other_failure, success, failure,
}
use forgetty.Socket.Handlers.{
  Host, Reply, and_then, refuse, ok_true, answer_ok, require_str, require_pane_id,
}

unfoldable pub handle_send_input : Host → Request → SessionManagerInner → Reply
handle_send_input h request s = require_pane_id h request s λ id.
    require_str "data" request s λ data_b64. elim (h.decode_base64 data_b64) [
      | none ↦ refuse request s invalid_params bad_base64
      | some bytes ↦ answer_ok request "write PTY" (write_pty h.written id bytes s)
    ]

-- The interrupt byte is written, and only then the process group is signalled.
unfoldable pub handle_send_sigint : Host → Request → SessionManagerInner → Reply
handle_send_sigint h request s = require_pane_id h request s λ id.
    let byte = unwrap_or (intr_byte h.vintr id s) 3 in
    let (s1, sent) = write_pty h.written id (byte ∷ []) s in
    elim sent [
      | ok u ↦ (send_sigint h.my_pid h.comm h.foreground id s1, success request.id ok_true)
      | err e ↦ (s1, failure request.id internal_error (operation_failed "send SIGINT" e))
    ]

-- Only a line of the log is written.
unfoldable pub handle_notify : Host → Request → SessionManagerInner → Reply
handle_notify h request s = require_pane_id h request s λ id. (s, success request.id ok_true)

unfoldable pub handle_get_pinned : Host → Request → SessionManagerInner → Reply
handle_get_pinned h request s =
    (s, success request.id (json_object (("pinned", boolean s.pinned) ∷ [])))

-- The manager, the session file of the daemon's own id if it was written, and the response. The
-- manager keeps the new flag also if the write fails.
unfoldable pub handle_set_pinned :
    Host → Option ℕ → Request → SessionManagerInner → Reply × Option (ℕ × WorkspaceState)
handle_set_pinned h session_id request s = elim (and_then (get "pinned" request.params) as_bool) [
  | none ↦ (refuse request s invalid_params (missing_param "pinned"), none)
  | some pinned ↦
      let s1 = set_pinned pinned s in
      elim session_id [
        | none ↦ ((s1, success request.id ok_true), none)
        | some sid ↦
            let (s2, state) = snapshot_to_workspace_state h.env s1 in
            elim (h.save_failure) [
              | some e ↦ ((s2, failure request.id internal_error (other_failure e)), none)
              | none ↦ ((s2, success request.id ok_true), some (sid, state))
            ]
      ]
]
