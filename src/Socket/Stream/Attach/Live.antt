-- ===== src/Socket/Stream/Attach/Live.antt =====
-- manager.rs, server.rs and daemon_client.rs together: the output of a pane, from its process to a
-- window.
use forgetty.Base.{
  has, has-modify, ==_iff, subst, none, true, if◌then◌else◌, ℕ, ◌-◌, ◌≤◌, ◌≡◌, refl, sym, ap, ◌∙◌,
  List, [], ◌∷◌, ◌++◌, map, some, arith, length, length-drop, drop, lookup, append-nil,
  append_assoc, ◌==◌, Option-cases, Bool-cases, inl, inr,
}
use forgetty.Session.ByteLog.{ByteLog}
use forgetty.Session.ByteLog.Ring.{Tracks}
use forgetty.Session.State.{
  SessionEvent, SessionManagerInner, Env, err, pane_not_found, pty_output, send,
}
use forgetty.Session.Output.{
  drain_round, drain_all, refresh_cwd, process_pane_bytes, pending, subscribe_with_snapshot,
}
use forgetty.Session.Replay.{
  process_all, output_of, replay-pending, drop-append_self, subscribe_found,
}
use forgetty.Socket.Framing.{max_frame_size}
use forgetty.Socket.Stream.{event, stream_output}
use forgetty.Socket.Stream.Client.{eof, subscribe_output_inner}
use forgetty.Socket.Stream.Attach.{joined, AllFit, heard, subscribe_output_inner-stream_output}

-- Output of panes that fits a frame, and no other event.
data OutputOnly : List SessionEvent → Type 0 where
  no_event : OutputOnly []
  one_output :
      (pid : ℕ) (bytes : List ℕ) (events : List SessionEvent)
      → length bytes ≤ max_frame_size
      → OutputOnly events
      → OutputOnly (pty_output pid bytes ∷ events)

-- A chunk of a drain task fits a frame.
abbrev pub ChunksFit : List (Env × ℕ × List ℕ) → Type 0
ChunksFit [] = Unit
ChunksFit ((env, pid, bytes) ∷ chunks) = (length bytes ≤ max_frame_size) × ChunksFit chunks

-- The processes of all panes run at every round.
abbrev pub AllAlive : List (Env × ℕ × List ℕ) → Type 0
AllAlive [] = Unit
AllAlive ((env, pid, bytes) ∷ chunks) =
    ((handle : ℕ) → env.is_alive handle ≡ true) × AllAlive chunks

-- What the process of a pane has written, in order.
abbrev pub written_to : ℕ → List (Env × ℕ × List ℕ) → List ℕ
written_to id [] = []
written_to id ((env, pid, bytes) ∷ chunks) =
    let rest = written_to id chunks in if pid == id then bytes ++ rest else rest

-- While the processes run, the rounds of the drain tasks only pass the chunks on.
drain_round_alive :
    (env : Env) (pid : ℕ) (bytes : List ℕ) (s : SessionManagerInner)
    → ((handle : ℕ) → env.is_alive handle ≡ true)
    → drain_round env pid bytes s ≡ (process_pane_bytes env pid bytes s).0
unfolding drain_round process_pane_bytes
drain_round_alive env pid bytes s alive = elim (Option-cases (lookup pid s.panes)) [
  | inl gone ↦
      let same : process_pane_bytes env pid bytes s ≡ (s, err (pane_not_found pid)) =
        rw (gone, process_pane_bytes) refl in
      rw (same, drain_round) (ap (λ o. o.0) same)
  | inr (pane, there) ↦
      let on = alive pane.pty_bridge.handle in
      rw (there, process_pane_bytes, drain_round, on) (rw (there, process_pane_bytes) refl)
]

drain_all-process_all :
    (chunks : List (Env × ℕ × List ℕ)) (s : SessionManagerInner)
    → AllAlive chunks
    → drain_all chunks s ≡ process_all chunks s
unfolding drain_all process_all
drain_all-process_all [] s alive = refl
drain_all-process_all ((env, pid, bytes) ∷ chunks) s (alive, all) =
    ap (drain_all chunks) (drain_round_alive env pid bytes s alive)
    ∙ drain_all-process_all chunks (process_pane_bytes env pid bytes s).0 all

has-process_pane_bytes :
    (env : Env) (pid id : ℕ) (bytes : List ℕ) (s : SessionManagerInner)
    → has id (process_pane_bytes env pid bytes s).0.panes ≡ has id s.panes
unfolding process_pane_bytes send
has-process_pane_bytes env pid id bytes s = elim (Option-cases (lookup pid s.panes)) [
  | inl gone ↦ rw (gone, process_pane_bytes) refl
  | inr (pane, there) ↦ rw (there, process_pane_bytes) (has-modify pid id (refresh_cwd env) s.panes)
]

gone_there :
    (pid id : ℕ) (s : SessionManagerInner)
    → (pid == id) ≡ true
    → lookup pid s.panes ≡ none
    → has id s.panes ≡ true
    → ⊥
gone_there pid id s same gone there =
    let e : pid ≡ id = (==_iff pid id).0 same in
    let gone' : lookup id s.panes ≡ none = subst (λ (n : ℕ). lookup n s.panes ≡ none) e gone in
    ground (arith, gone', there)

-- What the rounds send: a registered pane's chunks, each once and in order.
record Sends (chunks : List (Env × ℕ × List ℕ)) (s t : SessionManagerInner) : Type 0 where
  pub events : List SessionEvent
  pub sent : t.event_tx ≡ s.event_tx ++ events
  pub outputs : OutputOnly events
  pub live : (id : ℕ) → has id s.panes ≡ true → output_of id events ≡ written_to id chunks

process_all-Sends :
    (chunks : List (Env × ℕ × List ℕ)) (s : SessionManagerInner)
    → ChunksFit chunks
    → Sends chunks s (process_all chunks s)
unfolding process_all process_pane_bytes send
process_all-Sends [] s fit = record {
  events = [];
  sent = sym (append-nil s.event_tx);
  outputs = no_event;
  live = λ id there. refl;
}
process_all-Sends ((env, pid, bytes) ∷ chunks) s (fits, fit) =
    let rest = process_all-Sends chunks (process_pane_bytes env pid bytes s).0 fit in
    let later : (id : ℕ) → has id s.panes ≡ true → output_of id rest.events ≡ written_to id chunks =
      λ id there. rest.live id (has-process_pane_bytes env pid id bytes s ∙ there) in
    elim (Option-cases (lookup pid s.panes)) [
      | inl gone ↦ record {
        events = rest.events;
        sent =
            rest.sent
            ∙ ap (λ (es : List SessionEvent). es ++ rest.events)
                (rw (gone, process_pane_bytes) refl);
        outputs = rest.outputs;
        live = λ id there. elim (Bool-cases (pid == id)) [
          | inl same ↦ absurd (gone_there pid id s same gone there)
          | inr other ↦ rw other (later id there)
        ];
      }
      | inr (pane, there) ↦ record {
        events = pty_output pid bytes ∷ rest.events;
        sent =
            rest.sent
            ∙ ap (λ (es : List SessionEvent). es ++ rest.events)
                (rw (there, process_pane_bytes) refl)
            ∙ append_assoc s.event_tx (pty_output pid bytes ∷ []) rest.events;
        outputs = one_output pid bytes rest.events fits rest.outputs;
        live = λ id registered. elim (Bool-cases (pid == id)) [
          | inl mine ↦ rw mine (ap (λ (r : List ℕ). bytes ++ r) (later id registered))
          | inr other ↦ rw other (later id registered)
        ];
      }
    ]

AllFit-events : {events : List SessionEvent} → OutputOnly events → AllFit (map event events)
AllFit-events no_event = tt
AllFit-events (one_output pid bytes events fits rest) = (fits, AllFit-events rest)

heard-events :
    {events : List SessionEvent} (id : ℕ)
    → OutputOnly events
    → heard id (map event events) ≡ output_of id events
heard-events id no_event = refl
heard-events id (one_output pid bytes events fits rest) = elim (Bool-cases (pid == id)) [
  | inl mine ↦ rw mine (ap (λ r. bytes ++ r) (heard-events id rest))
  | inr other ↦ rw other (heard-events id rest)
]

-- A window that attaches to a registered pane, whose log has seen `stream`, is handed the newest bytes of
-- it, as many as the ring holds, and then everything that the pane's process writes from then on, each
-- byte once and in order, whatever the drain tasks of the other panes do in between, while the
-- processes run. The ring and each chunk that a drain task reads fit a frame, and the channel does not
-- lag.
pub subscribe_output_inner-live :
    (id capacity : ℕ) (stream : List ℕ) (log : ByteLog) (chunks : List (Env × ℕ × List ℕ))
    (s : SessionManagerInner)
    → has id s.panes ≡ true
    → lookup id s.byte_logs ≡ some log
    → Tracks capacity stream log
    → capacity ≤ max_frame_size
    → ChunksFit chunks
    → AllAlive chunks
    → let t = drain_all chunks s in
      let (rx, replay, high_water) = subscribe_with_snapshot id s in
      let (ms, end) = subscribe_output_inner (stream_output id replay (map event (pending rx t))) in
      (joined ms ≡ drop (length stream - capacity) (stream ++ written_to id chunks)) × (end ≡ eof)
subscribe_output_inner-live id capacity stream log chunks s there e tracks small fit alive =
    let t = process_all chunks s in
    let sends = process_all-Sends chunks s fit in
    let received : pending (length s.event_tx) t ≡ sends.events =
      ap (λ (es : List SessionEvent). drop (length s.event_tx) es) sends.sent
      ∙ drop-append_self s.event_tx sends.events in
    let live : output_of id (pending (length s.event_tx) t) ≡ written_to id chunks =
      ap (output_of id) received ∙ sends.live id there in
    let outputs : OutputOnly (pending (length s.event_tx) t) = rw received sends.outputs in
    let short : length log.ring ≤ max_frame_size =
      rw tracks.window (omega (arith, length-drop (length stream - capacity) stream)) in
    let (all, ends) =
      subscribe_output_inner-stream_output id log.ring (map event (pending (length s.event_tx) t))
        short (AllFit-events outputs) in
    let replayed =
      rw (subscribe_found id log s e) at
        (replay-pending id capacity stream log chunks s e tracks) in
    rw (subscribe_found id log s e, drain_all-process_all chunks s alive)
      (
        all
            ∙ ap (λ (r : List ℕ). log.ring ++ r) (heard-events id outputs)
            ∙ replayed.0
            ∙ ap (λ (r : List ℕ). drop (length stream - capacity) (stream ++ r)) live,
        ends,
      )
