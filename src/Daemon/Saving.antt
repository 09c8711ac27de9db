-- ===== src/Daemon/Saving.antt =====
-- src/daemon.rs: the tasks that save the session while the daemon runs, and its exit by a signal.
use forgetty.Base.{
  ℕ, ◌≡◌, refl, List, [], ◌∷◌, Bool, true, false, some, arith, lookup, lookup-insert, if◌then◌else◌,
}
use forgetty.Socket.Server.{close_session}
use forgetty.Socket.Server.Exit.{last_file}
use forgetty.Session.State.{SessionEvent, pty_output, SessionManagerInner, Env}
use forgetty.Session.Run.{Command, run}
use forgetty.Session.Snapshot.{snapshot_to_workspace_state}
use forgetty.Session.Output.{kill_all}
use forgetty.Workspace.Store.{
  Store, Writing, replaced, Moving, move_to_active, save_to_path, pinned_aware_exit_move,
}

-- What a save is told by the operating system: the directories of the processes, and how the write of
-- the session file ends.
pub record SaveIo : Type 0 where
  pub env : Env
  pub writing : Writing

-- What the tasks share.
pub record Saver : Type 0 where
  pub sm : SessionManagerInner
  pub store : Store
  pub dirty : Bool

-- A write that fails is only logged.
unfoldable pub save_session_from_layout : SaveIo → ℕ → Saver → Saver
save_session_from_layout io sid d =
    let (s1, state) = snapshot_to_workspace_state io.env d.sm in
    record d { sm = s1; store = (move_to_active io.writing sid state d.store).0 }

-- The events that the watcher saves at; the output of a pane is none of them.
unfoldable pub is_mutation : SessionEvent → Bool
is_mutation (pty_output id bytes) = false
is_mutation e = true

-- What the watcher's receiver yields while the daemon runs.
pub data Heard : Type 0 where
  heard : SessionEvent → Heard
  fell_behind : Heard

-- The watcher saves at once, and leaves the flag for the debounced save.
unfoldable pub watch : SaveIo → ℕ → Heard → Saver → Saver
unfolding save_session_from_layout is_mutation
watch io sid (heard e) d =
    if is_mutation e then record (save_session_from_layout io sid d) { dirty = true } else d
watch io sid fell_behind d = record d { dirty = true }

-- The debounced save, every 5 seconds.
unfoldable pub debounced_save : SaveIo → ℕ → Saver → Saver
unfolding save_session_from_layout
debounced_save io sid d =
    if d.dirty then save_session_from_layout io sid (record d { dirty = false }) else d

-- What happens next: a round of the watcher, of the debounced save, or of the save every 60 seconds,
-- or a call on the manager.
pub data TaskStep : Type 0 where
  watches : SaveIo → Heard → TaskStep
  debounces saves : SaveIo → TaskStep
  calls : Env → Command → TaskStep

unfoldable pub task_step : ℕ → TaskStep → Saver → Saver
unfolding watch debounced_save save_session_from_layout
task_step sid (watches io h) d = watch io sid h d
task_step sid (debounces io) d = debounced_save io sid d
task_step sid (saves io) d = save_session_from_layout io sid d
task_step sid (calls env command) d = record d { sm = run env command d.sm }

unfoldable pub run_tasks : ℕ → List TaskStep → Saver → Saver
unfolding task_step
run_tasks sid [] d = d
run_tasks sid (step ∷ steps) d = run_tasks sid steps (task_step sid step d)

-- SIGTERM or SIGINT, after the byte logs were flushed: the last save, the move by the pinned flag, and
-- the end of the processes.
unfoldable pub exit_by_signal : SaveIo → Moving → Bool → ℕ → Saver → Saver
unfolding save_session_from_layout
exit_by_signal io m locked sid d =
    let saved = save_session_from_layout io sid d in
    record saved {
      sm = kill_all locked saved.sm;
      store = pinned_aware_exit_move m sid saved.sm.pinned saved.store;
    }

-- The watcher's next round makes a save due.
abbrev pub IsDue : Heard → Type 0
IsDue (heard e) = is_mutation e ≡ true
IsDue fell_behind = Unit

-- No round of the debounced save.
abbrev pub no_debounce : List TaskStep → Bool
no_debounce [] = true
no_debounce (debounces io ∷ steps) = false
no_debounce (step ∷ steps) = no_debounce steps

dirty-watch :
    (io : SaveIo) (sid : ℕ) (h : Heard) (d : Saver) → IsDue h → (watch io sid h d).dirty ≡ true
unfolding watch
dirty-watch io sid (heard e) d due = rw (due, watch) refl
dirty-watch io sid fell_behind d due = refl

dirty-run_tasks :
    (sid : ℕ) (steps : List TaskStep) (d : Saver)
    → no_debounce steps ≡ true
    → d.dirty ≡ true
    → (run_tasks sid steps d).dirty ≡ true
unfolding run_tasks
dirty-run_tasks sid [] d quiet due = due
dirty-run_tasks sid (watches io (heard e) ∷ steps) d quiet due =
    dirty-run_tasks sid steps (watch io sid (heard e) d) quiet (ground arith)
dirty-run_tasks sid (watches io fell_behind ∷ steps) d quiet due =
    dirty-run_tasks sid steps (watch io sid fell_behind d) quiet refl
dirty-run_tasks sid (debounces io ∷ steps) d quiet due = cc
dirty-run_tasks sid (saves io ∷ steps) d quiet due =
    dirty-run_tasks sid steps (save_session_from_layout io sid d) quiet due
dirty-run_tasks sid (calls env command ∷ steps) d quiet due =
    dirty-run_tasks sid steps (record d { sm = run env command d.sm }) quiet due

save_session_from_layout_lem :
    (io : SaveIo) (sid now : ℕ) (d : Saver)
    → io.writing ≡ replaced now
    → lookup sid (save_session_from_layout io sid d).store.active ≡ some (last_file now io.env d.sm)
unfolding save_session_from_layout move_to_active save_to_path
save_session_from_layout_lem io sid now d written =
    rw (written, save_to_path)
      (ground (arith, lookup-insert sid sid (last_file now io.env d.sm) d.store.active))

debounced_save_dirty :
    (io : SaveIo) (sid : ℕ) (d : Saver)
    → d.dirty ≡ true
    → debounced_save io sid d ≡ save_session_from_layout io sid (record d { dirty = false })
unfolding debounced_save
debounced_save_dirty io sid d due = rw (due, debounced_save) refl

dirty-save_session_from_layout :
    (io : SaveIo) (sid : ℕ) (d : Saver) → (save_session_from_layout io sid d).dirty ≡ d.dirty
unfolding save_session_from_layout
dirty-save_session_from_layout io sid d = refl

-- Once the watcher has received a change of the session, or has fallen behind, the next round of the
-- debounced save brings active/ up to date if its write succeeds, whatever calls, saves and rounds of
-- the watcher come in between and however their writes end: the file of the session is then its state
-- at that round, and nothing is due any more.
pub active-debounced_save :
    (sid now : ℕ) (io last : SaveIo) (h : Heard) (steps : List TaskStep) (d : Saver)
    → IsDue h
    → last.writing ≡ replaced now
    → no_debounce steps ≡ true
    → let before = run_tasks sid steps (watch io sid h d) in
      let after = debounced_save last sid before in
      (lookup sid after.store.active ≡ some (last_file now last.env before.sm))
      × (after.dirty ≡ false)
active-debounced_save sid now io last h steps d due written quiet =
    let before : Saver = run_tasks sid steps (watch io sid h d) in
    let dirty = dirty-run_tasks sid steps (watch io sid h d) quiet (dirty-watch io sid h d due) in
    rw (debounced_save_dirty last sid before dirty) (
      save_session_from_layout_lem last sid now (record before { dirty = false }) written,
      dirty-save_session_from_layout last sid (record before { dirty = false }),
    )

-- A signal leaves the session files as `shutdown_save` does.
store-exit_by_signal :
    (io : SaveIo) (m : Moving) (locked : Bool) (sid : ℕ) (d : Saver)
    → (exit_by_signal io m locked sid d).store
      ≡ (close_session io.writing m io.env sid d.sm d.store).1
unfolding exit_by_signal close_session
store-exit_by_signal io m locked sid d = refl
