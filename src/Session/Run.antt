-- ===== src/Session/Run.antt =====
-- The calls that the daemon's handlers and drain tasks make on the session manager, one after the
-- other, and the states that they reach. Each call locks the state once, so a run is a sequence.
pub mod Reachable
pub mod Undone
pub mod Atomic
pub mod Fresh
use forgetty.Base.{ℕ, String, List, [], Bool, Option, none, some, ◌≡◌}
use forgetty.Session.State.{PtySize, SessionManagerInner, Env, Error, Result, ok, err, Outcome, new}
use forgetty.Session.State
use forgetty.Session.Registry.{close_pane_byte_log}
use forgetty.Session.Workspaces.{
  create_workspace, rename_workspace, set_workspace_color, move_workspace, delete_workspace,
  set_active_workspace,
}
use forgetty.Session.Tabs.{
  create_tab, create_tab_with_pane_id, close_tab, move_tab, set_active_tab, set_active_pane,
}
use forgetty.Session.Panes.{
  create_pane, split_pane, split_pane_with_ratio, split_pane_with_ratio_and_pane_id, close_pane,
  update_split_ratios, set_pane_cwd, resize_pane,
}
use forgetty.Session.Duplicate.{spawn_all, duplicate_workspace}
use forgetty.Session.Output.{process_pane_bytes, write_pty, send_sigint, kill_all}
use forgetty.Session.Snapshot.{snapshot_to_workspace_state}
use forgetty.Session.Invariant.{layout_occurs, IsFresh}
use forgetty.Session.Invariant.Tabs.{DrawsFresh}
use forgetty.Session.Invariant.Copies.{AreFresh, source_cwds}

-- A public method of `SessionManager` that takes the lock to write, with its arguments.
pub data Command : Type 0 where
  create_workspace_call : String → Command
  rename_workspace_call : ℕ → String → Command
  set_workspace_color_call : ℕ → Option String → Command
  move_workspace_call : ℕ → ℕ → Command
  delete_workspace_call : ℕ → Command
  duplicate_workspace_call : ℕ → Option String → PtySize → Command
  set_active_workspace_call : ℕ → Command
  create_tab_call : ℕ → Option String → PtySize → Option (List String) → Command
  create_tab_with_pane_id_call : ℕ → Option String → PtySize → Option (List String) → ℕ → Command
  close_tab_call : ℕ → Command
  move_tab_call set_active_tab_call : ℕ → ℕ → Command
  set_active_pane_call : ℕ → ℕ → Option ℕ → Command
  create_pane_call : PtySize → Option String → Option (List String) → Option String → Bool → Command
  split_pane_call : ℕ → String → PtySize → Option String → Command
  split_pane_with_ratio_call : ℕ → String → ℕ → PtySize → Option String → Command
  split_pane_with_ratio_and_pane_id_call : ℕ → String → ℕ → PtySize → Option String → ℕ → Command
  close_pane_call : ℕ → Command
  update_split_ratios_call : List (ℕ × ℕ) → Command
  set_pane_cwd_call : ℕ → String → Command
  resize_pane_call : Result (Unit {0}) → ℕ → PtySize → Command
  process_pane_bytes_call : ℕ → List ℕ → Command
  write_pty_call : Result (Unit {0}) → ℕ → List ℕ → Command
  send_sigint_call : ℕ → Option String → Option ℕ → ℕ → Command
  snapshot_call : Command
  close_pane_byte_log_call : ℕ → Command
  set_byte_log_config_call : ℕ → ℕ → Command
  set_pinned_call kill_all_call : Bool → Command

-- The error of a call, without the value of one that succeeds.
abbrev pub error_of {ℓ} : {A : Type ℓ} → Result A → Option Error
error_of (ok a) = none
error_of (err e) = some e

abbrev pub without_value {ℓ} : {A : Type ℓ} → Outcome A → SessionManagerInner × Option Error
without_value o = (o.0, error_of o.1)

-- The state after the call, and its error; `env` holds what the operating system and the random
-- numbers answer.
unfoldable pub respond : Env → Command → SessionManagerInner → SessionManagerInner × Option Error
respond env (create_workspace_call name) s = ((create_workspace (env.new_uuid 0) name s).0, none)
respond env (rename_workspace_call idx name) s = without_value (rename_workspace idx name s)
respond env (set_workspace_color_call idx color) s = without_value (set_workspace_color idx color s)
respond env (move_workspace_call from_idx to_idx) s =
    without_value (move_workspace from_idx to_idx s)
respond env (delete_workspace_call idx) s = without_value (delete_workspace idx s)
respond env (duplicate_workspace_call idx name size) s =
    without_value (duplicate_workspace env idx name size s)
respond env (set_active_workspace_call idx) s = without_value (set_active_workspace idx s)
respond env (create_tab_call idx cwd size command) s =
    without_value (create_tab env idx cwd size command s)
respond env (create_tab_with_pane_id_call idx cwd size command id) s =
    without_value (create_tab_with_pane_id env idx cwd size command id s)
respond env (close_tab_call tab_id) s = without_value (close_tab env tab_id s)
respond env (move_tab_call tab_id new_index) s = without_value (move_tab tab_id new_index s)
respond env (set_active_tab_call idx tab_idx) s = without_value (set_active_tab idx tab_idx s)
respond env (set_active_pane_call idx tab_id pane_id) s =
    without_value (set_active_pane idx tab_id pane_id s)
respond env (create_pane_call size cwd command shell login) s =
    without_value (create_pane env size cwd command shell login s)
respond env (split_pane_call id direction size cwd) s =
    without_value (split_pane env id direction size cwd s)
respond env (split_pane_with_ratio_call id direction ratio size cwd) s =
    without_value (split_pane_with_ratio env id direction ratio size cwd s)
respond env (split_pane_with_ratio_and_pane_id_call id direction ratio size cwd new_id) s =
    without_value (split_pane_with_ratio_and_pane_id env id direction ratio size cwd new_id s)
respond env (close_pane_call id) s = (close_pane env id s, none)
respond env (update_split_ratios_call updates) s = (update_split_ratios updates s, none)
respond env (set_pane_cwd_call id cwd) s = (set_pane_cwd id cwd s, none)
respond env (resize_pane_call resized id size) s = without_value (resize_pane resized id size s)
respond env (process_pane_bytes_call id bytes) s = without_value (process_pane_bytes env id bytes s)
respond env (write_pty_call written id bytes) s = without_value (write_pty written id bytes s)
respond env (send_sigint_call my_pid comm foreground id) s =
    (send_sigint my_pid comm foreground id s, none)
respond env snapshot_call s = ((snapshot_to_workspace_state env s).0, none)
respond env (close_pane_byte_log_call id) s = (close_pane_byte_log id s, none)
respond env (set_byte_log_config_call ring_kb max_mb) s =
    (State.set_byte_log_config ring_kb max_mb s, none)
respond env (set_pinned_call pinned) s = (State.set_pinned pinned s, none)
respond env (kill_all_call locked) s = (kill_all locked s, none)

unfoldable pub run : Env → Command → SessionManagerInner → SessionManagerInner
run env command s = (respond env command s).0

-- What the random UUIDs promise: the ids that the call draws, or is given, are in use nowhere.
unfoldable pub NewIds : Env → Command → SessionManagerInner → Type 0
NewIds env (duplicate_workspace_call idx name size) s =
    AreFresh env (spawn_all env size 0 (source_cwds idx s)).0 s
NewIds env (create_tab_with_pane_id_call idx cwd size command id) s = IsFresh id (env.new_uuid 0) s
NewIds env (split_pane_with_ratio_and_pane_id_call id direction ratio size cwd new_id) s =
    layout_occurs new_id s.workspaces ≡ 0
NewIds env _ s = DrawsFresh env s

-- One call, whose ids are new.
pub data Step (s : SessionManagerInner) : SessionManagerInner → Type 0 where
  call : (env : Env) (command : Command) → NewIds env command s → Step s (run env command s)

-- The states after any number of calls on the manager that `SessionManager::new` makes.
pub data Reach (id : ℕ) : SessionManagerInner → Type 0 where
  start : Reach id (new id)
  then_call : {s t : SessionManagerInner} → Reach id s → Step s t → Reach id t
