-- ===== src/Socket/Stream.antt =====
-- crates/forgetty-socket/src/server.rs: what a client is sent that subscribes to the output of a pane.
-- A write to the client succeeds unless the frame is too long.
pub mod Client
pub mod Attach
use forgetty.Base.{ℕ, List, [], ◌∷◌, Bool, true, false, not, ◌&&◌, none, some, ◌==◌, if◌then◌else◌}
use forgetty.Session.State.{SessionEvent, pty_output, pane_closed}
use forgetty.Socket.Framing.{write_frame}

-- What the loop waits for: an event of the channel, or that it was too slow for one, or its end, or
-- that the client closes its half or sends anything.
pub data Received : Type 0 where
  event : SessionEvent → Received
  lagged channel_closed client_read : Received

abbrev pub is_empty : List ℕ → Bool
is_empty [] = true
is_empty (b ∷ bytes) = false

-- One frame: the stream after it, and whether the loop goes on.
unfoldable pub send_frame : List ℕ → List ℕ → List ℕ × Bool
unfolding write_frame
send_frame sent bytes = elim ((write_frame sent bytes).1) [
  | none ↦ ((write_frame sent bytes).0, true)
  | some e ↦ ((write_frame sent bytes).0, false)
]

-- What the loop does with an event.
unfoldable pub forward : ℕ → SessionEvent → List ℕ → List ℕ × Bool
unfolding send_frame
forward id (pty_output evt_id bytes) sent =
    if evt_id == id && not (is_empty bytes) then send_frame sent bytes else (sent, true)
forward id (pane_closed closed_id) sent = (sent, not (closed_id == id))
forward id e sent = (sent, true)

-- All that the client has been sent when the loop ends.
unfoldable pub live_loop : ℕ → List Received → List ℕ → List ℕ
unfolding forward
live_loop id [] sent = sent
live_loop id (event e ∷ rest) sent = elim ((forward id e sent).1) [
  | true ↦ live_loop id rest ((forward id e sent).0)
  | false ↦ (forward id e sent).0
]
live_loop id (lagged ∷ rest) sent = live_loop id rest sent
live_loop id (channel_closed ∷ rest) sent = sent
live_loop id (client_read ∷ rest) sent = sent

-- The stream behind the acknowledgement: the replay as one frame, and then the live output.
unfoldable pub stream_output : ℕ → List ℕ → List Received → List ℕ
unfolding live_loop send_frame
stream_output id replay received = elim (is_empty replay) [
  | true ↦ live_loop id received []
  | false ↦ elim ((send_frame [] replay).1) [
    | true ↦ live_loop id received ((send_frame [] replay).0)
    | false ↦ (send_frame [] replay).0
  ]
]
