-- ===== src/Session/Replay.antt =====
-- manager.rs: what a subscriber to a pane is sent, the recent output first and then the live output.
use forgetty.Base.{
  ℕ, ◌-◌, ◌≡◌, refl, sym, ap, ◌∙◌, List, [], ◌∷◌, ◌++◌, some, arith, min, length, drop, drop-append,
  lookup, lookup-modify, append-nil, append_assoc, ◌==◌, if◌then◌else◌, Bool-cases, Option-cases,
  inl, inr,
}
use forgetty.Session.ByteLog
use forgetty.Session.ByteLog.{ByteLog, u64_max}
use forgetty.Session.ByteLog.Ring.{Tracks, append-Tracks}
use forgetty.Session.State.{SessionEvent, SessionManagerInner, Env, pty_output, send}
use forgetty.Session.Output.{process_pane_bytes, subscribe_output, pending, subscribe_with_snapshot}

-- The drain tasks of all panes, one chunk of one pane at a time, in any order.
unfoldable pub process_all : List (Env × ℕ × List ℕ) → SessionManagerInner → SessionManagerInner
process_all [] s = s
process_all ((env, pid, bytes) ∷ chunks) s =
    process_all chunks (process_pane_bytes env pid bytes s).0

-- The output of one pane among the events, in order.
abbrev pub output_of : ℕ → List SessionEvent → List ℕ
output_of id [] = []
output_of id (pty_output pid bytes ∷ events) =
    let rest = output_of id events in if pid == id then bytes ++ rest else rest
output_of id (event ∷ events) = output_of id events

output_of-append :
    (id : ℕ) (es fs : List SessionEvent)
    → output_of id (es ++ fs) ≡ output_of id es ++ output_of id fs
output_of-append id [] fs = refl
output_of-append id (pty_output pid bytes ∷ es) fs = elim (Bool-cases (pid == id)) [
  | inl same ↦ rw same (
      ap (λ r. bytes ++ r) (output_of-append id es fs)
      ∙ sym (append_assoc bytes (output_of id es) (output_of id fs)))
  | inr other ↦ rw other (output_of-append id es fs)
]
output_of-append id (e ∷ es) fs = output_of-append id es fs

-- From `s` to `t` some events were sent, and the log of the pane saw the output among them.
record Followed (id capacity : ℕ) (stream : List ℕ) (s t : SessionManagerInner) : Type 0 where
  pub events : List SessionEvent
  pub sent : t.event_tx ≡ s.event_tx ++ events
  pub log : ByteLog
  pub kept : lookup id t.byte_logs ≡ some log
  pub tracked : Tracks capacity (stream ++ output_of id events) log

module _ (id capacity : ℕ) where
  process_pane_bytes-Followed :
      (env : Env) (pid : ℕ) (bytes stream : List ℕ) (log : ByteLog) (s : SessionManagerInner)
      → lookup id s.byte_logs ≡ some log
      → Tracks capacity stream log
      → Followed id capacity stream s (process_pane_bytes env pid bytes s).0
  unfolding process_pane_bytes send
  process_pane_bytes-Followed env pid bytes stream log s e t =
      elim (Option-cases (lookup pid s.panes)) [
        | inl gone ↦
            rw (gone, process_pane_bytes)
              (record {
                events = [];
                sent = sym (append-nil s.event_tx);
                log = log;
                kept = e;
                tracked = rw append-nil t;
              })
        | inr (pane, there) ↦ elim (Bool-cases (pid == id)) [
          | inl same ↦
              rw (there, process_pane_bytes)
                (record {
                  events = pty_output pid bytes ∷ [];
                  sent = refl;
                  log = ByteLog.append bytes log;
                  kept = ground (arith, lookup-modify pid id (ByteLog.append bytes) s.byte_logs);
                  tracked = rw (same, append-nil) (append-Tracks capacity stream bytes log t);
                })
          | inr other ↦
              rw (there, process_pane_bytes)
                (record {
                  events = pty_output pid bytes ∷ [];
                  sent = refl;
                  log = log;
                  kept = ground (arith, lookup-modify pid id (ByteLog.append bytes) s.byte_logs);
                  tracked = rw (other, append-nil) t;
                })
        ]
      ]

  process_all-Followed :
      (chunks : List (Env × ℕ × List ℕ)) (stream : List ℕ) (log : ByteLog) (s : SessionManagerInner)
      → lookup id s.byte_logs ≡ some log
      → Tracks capacity stream log
      → Followed id capacity stream s (process_all chunks s)
  unfolding process_all
  process_all-Followed [] stream log s e t = record {
    events = [];
    sent = sym (append-nil s.event_tx);
    log = log;
    kept = e;
    tracked = rw append-nil t;
  }
  process_all-Followed ((env, pid, bytes) ∷ chunks) stream log s e t =
      let f = process_pane_bytes-Followed env pid bytes stream log s e t in
      let g = process_all-Followed chunks _ f.log _ f.kept f.tracked in
      record {
        events = f.events ++ g.events;
        sent =
            g.sent ∙ ap (λ es. es ++ g.events) f.sent ∙ append_assoc s.event_tx f.events g.events;
        log = g.log;
        kept = g.kept;
        tracked = rw (output_of-append id f.events g.events, ← append_assoc stream) g.tracked;
      }

pub drop-append_self {ℓ} : {A : Type ℓ} (xs ys : List A) → drop (length xs) (xs ++ ys) ≡ ys
drop-append_self [] ys = refl
drop-append_self (x ∷ xs) ys = drop-append_self xs ys

pub subscribe_found :
    (id : ℕ) (log : ByteLog) (s : SessionManagerInner)
    → lookup id s.byte_logs ≡ some log
    → subscribe_with_snapshot id s ≡ (length s.event_tx, log.ring, log.total_bytes_written)
unfolding subscribe_with_snapshot subscribe_output
subscribe_found id log s e = rw (e, subscribe_with_snapshot) refl

-- A pane's log has seen `stream`. A client that subscribes with a snapshot, and then receives what
-- the drain tasks of all panes send in any order, has the bytes of the pane from the start of the
-- ring on: the replayed bytes followed by the received ones are a suffix of the whole output, which
-- starts where the ring did; the high-water mark is the length of the output before, which stops at
-- the largest 64-bit number; and the log has then seen the whole output.
pub replay-pending :
    (id capacity : ℕ) (stream : List ℕ) (log : ByteLog) (chunks : List (Env × ℕ × List ℕ))
    (s : SessionManagerInner)
    → lookup id s.byte_logs ≡ some log
    → Tracks capacity stream log
    → let t = process_all chunks s in
      let (rx, replay, high_water) = subscribe_with_snapshot id s in
      let live = output_of id (pending rx t) in
      (replay ++ live ≡ drop (length stream - capacity) (stream ++ live))
      × (high_water ≡ min (length stream) u64_max)
      × ((log' : ByteLog) × (lookup id t.byte_logs ≡ some log')
          × Tracks capacity (stream ++ live) log')
replay-pending id capacity stream log chunks s e t =
    let f = process_all-Followed id capacity chunks stream log s e t in
    rw (subscribe_found id log s e, f.sent, drop-append_self s.event_tx f.events, t.window)
      (
        sym (drop-append (length stream - capacity) stream (output_of id f.events) (omega arith)),
        t.counted,
        (f.log, f.kept, f.tracked),
      )
