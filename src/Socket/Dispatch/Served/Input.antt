-- ===== src/Socket/Dispatch/Served/Input.antt =====
-- handlers.rs: the methods on input, the log and the pinned flag, as calls of the manager.
use forgetty.Base.{ℕ, refl, sym, ap, [], ◌∷◌, Option, Option-cases, inl, inr, unwrap_or}
use forgetty.Session.State.{SessionManagerInner, Result-cases}
use forgetty.Session.Run.{respond, error_of, write_pty_call, set_pinned_call}
use forgetty.Session.Output.{write_pty, intr_byte}
use forgetty.Socket.Json.{get, as_bool}
use forgetty.Socket.Protocol.{Request, internal_error, operation_failed, other_failure}
use forgetty.Socket.Handlers.{Host, and_then, ok_true}
use forgetty.Socket.Handlers.Input.{
  handle_send_input, handle_send_sigint, handle_notify, handle_set_pinned, handle_get_pinned,
}
use forgetty.Socket.Dispatch.{send_input, send_sigint, notify, set_pinned, get_pinned}
use forgetty.Socket.Dispatch.Calls.{sends_input, fails_interrupt, pins}
use forgetty.Socket.Dispatch.Served.{
  accepted, denied, succeeds, Served, read, called, interrupted, pinned, refused-Served,
  require_str-Served, require_pane_id-Served, answer-Served,
}

module _ (h : Host) (request : Request) (s : SessionManagerInner) where
  pub handle_send_input-Served : Served h request s send_input (handle_send_input h request s)
  unfolding handle_send_input respond
  handle_send_input-Served = require_pane_id-Served h request s send_input _ λ id here.
      require_str-Served h request s send_input "data" _ λ text given.
        elim (Option-cases (h.decode_base64 text)) [
          | inl bad ↦ rw bad (refused-Served h request s send_input _ _)
          | inr (bytes, good) ↦ rw good (
              answer-Served h request s send_input (write_pty_call h.written id bytes) _ _ _ _
                (sends_input id text bytes here given good) refl)
        ]

  pub handle_send_sigint-Served : Served h request s send_sigint (handle_send_sigint h request s)
  unfolding handle_send_sigint respond
  handle_send_sigint-Served = require_pane_id-Served h request s send_sigint _ λ id here.
      let byte = unwrap_or (intr_byte h.vintr id s) 3 in
      elim (Result-cases (write_pty h.written id (byte ∷ []) s).1) [
        | inl (u, sent) ↦
            rw sent (
              interrupted id byte (refl, here, refl) (ap (λ r. error_of r) sent) (accepted ok_true))
        | inr (e, failed) ↦ rw failed (
            called (write_pty_call h.written id (byte ∷ []))
              (fails_interrupt id byte e here refl (ap (λ r. error_of r) failed))
              (ap (λ r. succeeds (error_of r)) (sym failed))
              (denied internal_error (operation_failed "send SIGINT" e)))
      ]

  pub handle_notify-Served : Served h request s notify (handle_notify h request s)
  unfolding handle_notify
  handle_notify-Served =
      require_pane_id-Served h request s notify _ λ id here. read refl (accepted ok_true)

  pub handle_get_pinned-Served : Served h request s get_pinned (handle_get_pinned h request s)
  unfolding handle_get_pinned
  handle_get_pinned-Served = read refl (accepted _)

  pub handle_set_pinned-Served :
      (session_id : Option ℕ)
      → Served h request s set_pinned (handle_set_pinned h session_id request s).0
  unfolding handle_set_pinned respond
  handle_set_pinned-Served session_id =
      elim (Option-cases (and_then (get "pinned" request.params) as_bool)) [
        | inl missing ↦ rw (missing, handle_set_pinned) (refused-Served h request s set_pinned _ _)
        | inr (flag, there) ↦
            rw (there, handle_set_pinned)
              (elim (Option-cases session_id) [
                | inl without ↦
                    rw without
                      (called (set_pinned_call flag) (pins flag there) refl (accepted ok_true))
                | inr (sid, has_id) ↦ rw has_id (elim (Option-cases h.save_failure) [
                  | inl saved ↦ rw saved (pinned flag (refl, there) refl (accepted ok_true))
                  | inr (e, failed) ↦
                      rw failed
                        (pinned flag (refl, there) refl (denied internal_error (other_failure e)))
                ])
              ])
      ]
