-- ===== src/Socket/Stream/Attach.antt =====
-- server.rs, framing.rs and daemon_client.rs together: what a window is handed that attaches to a pane.
pub mod Live
use forgetty.Base.{
  ℕ, zero, suc, ◌+◌, ◌<◌, ◌≤◌, ◌≡◌, ◌≢◌, ◌⊎◌, refl, sym, ap, ◌∙◌, List, [], ◌∷◌, ◌++◌, Bool, true,
  false, not, ◌&&◌, none, some, arith, length, length-append, append_assoc, append-nil, ltb, ◌==◌,
  ==_iff, if◌then◌else◌, Bool-cases, inl, inr,
}
use forgetty.Session.State.{
  SessionEvent, pty_output, pane_created, pane_closed, tab_created, tab_closed, pane_split,
  tab_moved, active_tab_changed, active_workspace_changed, workspace_created, workspace_renamed,
  workspace_deleted, workspace_color_changed, workspaces_reordered, active_pane_changed,
}
use forgetty.Socket.Framing.{
  max_frame_size, write_frame, frame_bytes, to_be_bytes, read_exact, from_be_bytes, read_header,
  read_exact-append, read_frame-write_frame, from_be_bytes-to_be_bytes,
}
use forgetty.Socket.Stream.{
  Received, event, lagged, channel_closed, client_read, is_empty, send_frame, forward, live_loop,
  stream_output,
}
use forgetty.Socket.Stream.Client.{
  eof, Round, hands_on, stops, read_round, read_rounds, subscribe_output_inner,
}

-- The bytes of messages, one after the other.
abbrev pub joined : List (List ℕ) → List ℕ
joined [] = []
joined (m ∷ ms) = m ++ joined ms

-- The frames of messages.
abbrev frames : List (List ℕ) → List ℕ
frames [] = []
frames (m ∷ ms) = frame_bytes m ++ frames ms

-- No message is empty, or too long for a frame.
abbrev AreFrames : List (List ℕ) → Type 0
AreFrames [] = Unit
AreFrames (m ∷ ms) = (0 < length m) × (length m ≤ max_frame_size) × AreFrames ms

-- A received output fits a frame.
abbrev pub Fits : Received → Type 0
Fits (event (pty_output id bytes)) = length bytes ≤ max_frame_size
Fits r = Unit

abbrev pub AllFit : List Received → Type 0
AllFit [] = Unit
AllFit (r ∷ rest) = Fits r × AllFit rest

-- The output of the pane among what is received, up to the first thing that ends the loop.
abbrev pub heard : ℕ → List Received → List ℕ
heard id [] = []
heard id (event (pty_output evt_id bytes) ∷ rest) =
    let more = heard id rest in if evt_id == id then bytes ++ more else more
heard id (event (pane_closed closed_id) ∷ rest) =
    let more = heard id rest in if closed_id == id then [] else more
heard id (event e ∷ rest) = heard id rest
heard id (lagged ∷ rest) = heard id rest
heard id (channel_closed ∷ rest) = []
heard id (client_read ∷ rest) = []

-- The messages of the loop, as long as it goes on.
abbrev messages : ℕ → List Received → List (List ℕ)
messages id [] = []
messages id (event (pty_output evt_id bytes) ∷ rest) =
    let more = messages id rest in
    if evt_id == id && not (is_empty bytes) then bytes ∷ more else more
messages id (event (pane_closed closed_id) ∷ rest) =
    let more = messages id rest in if closed_id == id then [] else more
messages id (event e ∷ rest) = messages id rest
messages id (lagged ∷ rest) = messages id rest
messages id (channel_closed ∷ rest) = []
messages id (client_read ∷ rest) = []

-- The window reads back the messages of the frames.
read_round-frame :
    (m rest : List ℕ)
    → 0 < length m
    → length m ≤ max_frame_size
    → read_round (frame_bytes m ++ rest) ≡ hands_on m rest
unfolding read_round
read_round-frame m rest some_bytes fits =
    let n = length m in
    let same : from_be_bytes (to_be_bytes n) ≡ n = from_be_bytes-to_be_bytes n (omega arith) in
    let short : ltb max_frame_size n ≡ false = ground arith in
    let full : (n == 0) ≡ false = ground arith in
    rw
      (
        append_assoc (to_be_bytes n) m rest,
        read_header n (m ++ rest),
        read_round,
        same,
        short,
        full,
        read_exact-append m rest,
      )
      refl

read_rounds-frames :
    (fuel : ℕ) (ms : List (List ℕ))
    → length ms < fuel
    → AreFrames ms
    → read_rounds fuel (frames ms) ≡ (ms, eof)
unfolding read_rounds read_round read_exact
read_rounds-frames zero ms h good = absurd (omega arith)
read_rounds-frames (suc fuel) [] h good = refl
read_rounds-frames (suc fuel) (m ∷ ms) h (some_bytes, fits, good) =
    rw
      (
        read_round-frame m (frames ms) some_bytes fits,
        read_rounds,
        read_rounds-frames fuel ms (omega arith) good,
      )
      refl

send_frame_fits :
    (sent bytes : List ℕ)
    → length bytes ≤ max_frame_size
    → send_frame sent bytes ≡ (sent ++ frame_bytes bytes, true)
unfolding send_frame
send_frame_fits sent bytes fits =
    let writes = (read_frame-write_frame bytes sent [] fits).0 in
    rw (writes, send_frame, writes) refl

forward_mine :
    (id evt_id : ℕ) (bytes sent : List ℕ)
    → (evt_id == id && not (is_empty bytes)) ≡ true
    → length bytes ≤ max_frame_size
    → forward id (pty_output evt_id bytes) sent ≡ (sent ++ frame_bytes bytes, true)
unfolding forward
forward_mine id evt_id bytes sent mine fits = rw (mine, forward) (send_frame_fits sent bytes fits)

forward_other :
    (id evt_id : ℕ) (bytes sent : List ℕ)
    → (evt_id == id && not (is_empty bytes)) ≡ false
    → forward id (pty_output evt_id bytes) sent ≡ (sent, true)
unfolding forward
forward_other id evt_id bytes sent other = rw (other, forward) refl

live_loop-messages :
    (id : ℕ) (received : List Received) (sent : List ℕ)
    → AllFit received
    → live_loop id received sent ≡ sent ++ frames (messages id received)
unfolding live_loop
live_loop-messages id [] sent fit = sym (append-nil sent)
live_loop-messages id (event (pty_output evt_id bytes) ∷ rest) sent (fits, fit) =
    elim (Bool-cases (evt_id == id && not (is_empty bytes))) [
      | inl mine ↦
          let sends = forward_mine id evt_id bytes sent mine fits in
          rw (sends, live_loop, sends, mine)
            (live_loop-messages id rest (sent ++ frame_bytes bytes) fit
              ∙ append_assoc sent (frame_bytes bytes) (frames (messages id rest)))
      | inr other ↦
          let skips = forward_other id evt_id bytes sent other in
          rw (skips, live_loop, skips, other) (live_loop-messages id rest sent fit)
    ]
live_loop-messages id (event (pane_closed closed_id) ∷ rest) sent (fits, fit) =
    elim (Bool-cases (closed_id == id)) [
      | inl mine ↦ rw (mine, live_loop, forward) (sym (append-nil sent))
      | inr other ↦ rw (other, live_loop, forward) (live_loop-messages id rest sent fit)
    ]
live_loop-messages id (event e ∷ rest) sent (fits, fit) = live_loop-messages id rest sent fit
live_loop-messages id (lagged ∷ rest) sent (fits, fit) = live_loop-messages id rest sent fit
live_loop-messages id (channel_closed ∷ rest) sent fit = sym (append-nil sent)
live_loop-messages id (client_read ∷ rest) sent fit = sym (append-nil sent)

length-is_empty : (bytes : List ℕ) → is_empty bytes ≡ false → 0 < length bytes
length-is_empty [] h = cc
length-is_empty (b ∷ bytes) h = omega arith

AreFrames-messages :
    (id : ℕ) (received : List Received) → AllFit received → AreFrames (messages id received)
AreFrames-messages id [] fit = tt
AreFrames-messages id (event (pty_output evt_id bytes) ∷ rest) (fits, fit) =
    elim (Bool-cases (evt_id == id && not (is_empty bytes))) [
      | inl mine ↦
          rw mine (length-is_empty bytes (ground arith), fits, AreFrames-messages id rest fit)
      | inr other ↦ rw other (AreFrames-messages id rest fit)
    ]
AreFrames-messages id (event (pane_closed closed_id) ∷ rest) (fits, fit) =
    elim (Bool-cases (closed_id == id)) [
      | inl mine ↦ rw mine tt
      | inr other ↦ rw other (AreFrames-messages id rest fit)
    ]
AreFrames-messages id (event e ∷ rest) (fits, fit) = AreFrames-messages id rest fit
AreFrames-messages id (lagged ∷ rest) (fits, fit) = AreFrames-messages id rest fit
AreFrames-messages id (channel_closed ∷ rest) fit = tt
AreFrames-messages id (client_read ∷ rest) fit = tt

joined-messages :
    (id : ℕ) (received : List Received) → joined (messages id received) ≡ heard id received
joined-messages id [] = refl
joined-messages id (event (pty_output evt_id []) ∷ rest) = elim (Bool-cases (evt_id == id)) [
  | inl mine ↦ rw mine (joined-messages id rest)
  | inr other ↦ rw other (joined-messages id rest)
]
joined-messages id (event (pty_output evt_id (b ∷ bytes)) ∷ rest) =
    elim (Bool-cases (evt_id == id)) [
      | inl mine ↦ rw mine (ap (λ r. (b ∷ bytes) ++ r) (joined-messages id rest))
      | inr other ↦ rw other (joined-messages id rest)
    ]
joined-messages id (event (pane_closed closed_id) ∷ rest) = elim (Bool-cases (closed_id == id)) [
  | inl mine ↦ rw mine refl
  | inr other ↦ rw other (joined-messages id rest)
]
joined-messages id (event e ∷ rest) = joined-messages id rest
joined-messages id (lagged ∷ rest) = joined-messages id rest
joined-messages id (channel_closed ∷ rest) = refl
joined-messages id (client_read ∷ rest) = refl

abbrev with_replay : List ℕ → List (List ℕ) → List (List ℕ)
with_replay [] ms = ms
with_replay (b ∷ replay) ms = (b ∷ replay) ∷ ms

stream_output-frames :
    (id : ℕ) (replay : List ℕ) (received : List Received)
    → length replay ≤ max_frame_size
    → AllFit received
    → stream_output id replay received ≡ frames (with_replay replay (messages id received))
unfolding stream_output
stream_output-frames id [] received fits fit = live_loop-messages id received [] fit
stream_output-frames id (b ∷ replay) received fits fit =
    let sends = send_frame_fits [] (b ∷ replay) fits in
    rw (sends, stream_output, sends) (live_loop-messages id received (frame_bytes (b ∷ replay)) fit)

joined-with_replay :
    (replay : List ℕ) (ms : List (List ℕ)) → joined (with_replay replay ms) ≡ replay ++ joined ms
joined-with_replay [] ms = refl
joined-with_replay (b ∷ replay) ms = refl

AreFrames-with_replay :
    (replay : List ℕ) (ms : List (List ℕ))
    → length replay ≤ max_frame_size
    → AreFrames ms
    → AreFrames (with_replay replay ms)
AreFrames-with_replay [] ms fits good = good
AreFrames-with_replay (b ∷ replay) ms fits good = (omega arith, fits, good)

length-frames : (ms : List (List ℕ)) → length ms ≤ length (frames ms)
unfolding to_be_bytes
length-frames [] = omega arith
length-frames (m ∷ ms) =
    omega (arith, length-frames ms, length-append (to_be_bytes (length m) ++ m) (frames ms))

-- A window that reads the stream of a subscription to its end has been handed the replay and then the
-- live output of the pane, each byte once and in order, up to the event that ended the daemon's
-- loop: the pane was closed, the channel was, or the window was. The replay and each received output
-- fit a frame.
pub subscribe_output_inner-stream_output :
    (id : ℕ) (replay : List ℕ) (received : List Received)
    → length replay ≤ max_frame_size
    → AllFit received
    → let (ms, end) = subscribe_output_inner (stream_output id replay received) in
      (joined ms ≡ replay ++ heard id received) × (end ≡ eof)
unfolding subscribe_output_inner
subscribe_output_inner-stream_output id replay received fits fit =
    let ms = with_replay replay (messages id received) in
    let all = read_rounds-frames (suc (length (frames ms))) ms (omega (arith, length-frames ms)) (
      AreFrames-with_replay replay (messages id received) fits
        (AreFrames-messages id received fit)) in
    rw (stream_output-frames id replay received fits fit, all)
      (
        joined-with_replay replay (messages id received)
            ∙ ap (λ r. replay ++ r) (joined-messages id received),
        refl,
      )
