-- ===== src/Session/Output.antt =====
-- manager.rs: the output of the panes, from the PTY into the byte log and to the subscribers, and
-- the input and the signals that go the other way.
use text.Mathlib.Text.{◌==◌ as str_eq}
use forgetty.Base.{
  ℕ, String, List, [], ◌∷◌, Bool, false, not, ◌&&◌, ◌||◌, Option, none, some, length, drop, lookup,
  modify, ltb, ◌==◌, if◌then◌else◌,
}
use forgetty.Session.ByteLog
use forgetty.Session.ByteLog.{ByteLog}
use forgetty.Session.State.{
  PaneState, SessionEvent, SessionManagerInner, Env, Result, ok, err, Outcome, pane_not_found,
  pty_output, interrupt, kill, write, call_os, send,
}
use forgetty.Session.Panes.{close_pane}

pub record DrainResult : Type 0 where
  pub pty_exited : Bool

-- The directory of the process, if it has a pid and the link can be read.
unfoldable pub live_cwd : Env → PaneState → Option String
live_cwd env pane = elim (pane.pty_bridge.pid) [ none ↦ none | some pid ↦ env.proc_cwd pid ]

unfoldable pub refresh_cwd : Env → PaneState → PaneState
unfolding live_cwd
refresh_cwd env pane = elim (live_cwd env pane) [
  | none ↦ pane
  | some cwd ↦ record pane { cwd = cwd }
]

-- The ring is written before the broadcast, both under one lock.
unfoldable pub process_pane_bytes : Env → ℕ → List ℕ → SessionManagerInner → Outcome DrainResult
unfolding send refresh_cwd
process_pane_bytes env id bytes s = elim (lookup id s.panes) [
  | none ↦ (s, err (pane_not_found id))
  | some pane ↦
      let s1 = record s {
        panes = modify id (refresh_cwd env) s.panes;
        byte_logs = modify id (ByteLog.append bytes) s.byte_logs;
      } in
      (
        send (pty_output id bytes) s1,
        ok (record { pty_exited = not (env.is_alive pane.pty_bridge.handle) }),
      )
]

-- The drain task: the chunks of the receiver until the channel closes or the process is gone. An
-- error of `process_pane_bytes` does not end the loop. Each round has its own answers.
unfoldable pub drain_task :
    ℕ → List (Env × List ℕ) → Env → SessionManagerInner → SessionManagerInner
unfolding process_pane_bytes
drain_task id [] last s = close_pane last id s
drain_task id ((env, bytes) ∷ chunks) last s =
    let (s1, r) = process_pane_bytes env id bytes s in
    let rest = drain_task id chunks last s1 in
    elim r [ err e ↦ rest | ok result ↦ if result.pty_exited then close_pane env id s1 else rest ]

-- A round of a drain task, for one chunk: the task of a pane whose process is gone closes the pane.
unfoldable pub drain_round : Env → ℕ → List ℕ → SessionManagerInner → SessionManagerInner
unfolding process_pane_bytes
drain_round env id bytes s =
    let (s1, r) = process_pane_bytes env id bytes s in
    elim r [ err e ↦ s1 | ok result ↦ if result.pty_exited then close_pane env id s1 else s1 ]

-- The rounds of the drain tasks of all panes, in any order. A task that has ended has closed its pane,
-- so that a further chunk of it would change nothing.
unfoldable pub drain_all : List (Env × ℕ × List ℕ) → SessionManagerInner → SessionManagerInner
unfolding drain_round
drain_all [] s = s
drain_all ((env, pid, bytes) ∷ chunks) s = drain_all chunks (drain_round env pid bytes s)

unfoldable pub get_ring_snapshot : ℕ → SessionManagerInner → Option (List ℕ × ℕ)
get_ring_snapshot id s = elim (lookup id s.byte_logs) [
  | none ↦ none
  | some log ↦ some (ByteLog.ring_snapshot log)
]

-- A broadcast receiver is the number of events sent before it subscribed; it will be given those
-- sent later, unless it lags by more than the channel's capacity.
abbrev pub Receiver : Type 0
Receiver = ℕ

abbrev pub broadcast_capacity : ℕ
broadcast_capacity = 1024

unfoldable pub subscribe_output : SessionManagerInner → Receiver
subscribe_output s = length s.event_tx

abbrev pub pending : Receiver → SessionManagerInner → List SessionEvent
pending rx s = drop rx s.event_tx

-- The receiver, the bytes to replay and the high-water mark; 0 bytes if the pane has no log.
unfoldable pub subscribe_with_snapshot : ℕ → SessionManagerInner → Receiver × List ℕ × ℕ
unfolding subscribe_output
subscribe_with_snapshot id s = elim (lookup id s.byte_logs) [
  | none ↦ (subscribe_output s, [], 0)
  | some log ↦ (subscribe_output s, log.ring, log.total_bytes_written)
]

-- What a signal forwarder is called.
unfoldable pub is_signal_forwarder_comm : String → Bool
is_signal_forwarder_comm comm =
    str_eq comm "ssh" || str_eq comm "mosh-client" || str_eq comm "telnet" || str_eq comm "rsh"

-- `pgid_is_signal_forwarder`, on the trimmed `/proc/{pgid}/comm`; a file that cannot be read counts
-- as no forwarder.
unfoldable pub pgid_is_signal_forwarder : Option String → Bool
unfolding is_signal_forwarder_comm
pgid_is_signal_forwarder none = false
pgid_is_signal_forwarder (some comm) = is_signal_forwarder_comm comm

-- The write's answer is an argument.
unfoldable pub write_pty : Result (Unit {0}) → ℕ → List ℕ → SessionManagerInner → Outcome (Unit {0})
unfolding call_os
write_pty written id bytes s = elim (lookup id s.panes) [
  | none ↦ (s, err (pane_not_found id))
  | some pane ↦ (call_os (write pane.pty_bridge.handle bytes) s, written)
]

-- `vintr` is the interrupt character of a terminal, if the ioctl answers.
unfoldable pub intr_byte : (ℕ → Option ℕ) → ℕ → SessionManagerInner → Option ℕ
intr_byte vintr id s = elim (lookup id s.panes) [
  | none ↦ none
  | some pane ↦ vintr pane.pty_bridge.handle
]

-- `foreground` is the terminal's foreground process group, if the ioctl answers, and `comm` its name.
-- A group id above 0 is a number here, as the source acts on no other.
unfoldable pub send_sigint :
    ℕ → Option String → Option ℕ → ℕ → SessionManagerInner → SessionManagerInner
unfolding call_os pgid_is_signal_forwarder
send_sigint my_pid comm foreground id s = elim (lookup id s.panes) [
  | none ↦ s
  | some pane ↦ elim foreground [
    | none ↦ s
    | some pgid ↦
        if ltb 0 pgid && not (pgid == my_pid) && not (pgid_is_signal_forwarder comm)
        then call_os (interrupt pgid) s
        else s
  ]
]

-- `kill_all` on the panes of the registry; it does nothing if the lock is taken.
unfoldable pub kill_each : List (ℕ × PaneState) → SessionManagerInner → SessionManagerInner
unfolding call_os
kill_each [] s = s
kill_each ((id, pane) ∷ panes) s = kill_each panes (call_os (kill pane.pty_bridge.handle) s)

unfoldable pub kill_all : Bool → SessionManagerInner → SessionManagerInner
unfolding kill_each
kill_all locked s = if locked then s else kill_each s.panes s
