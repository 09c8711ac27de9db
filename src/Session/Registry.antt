-- ===== src/Session/Registry.antt =====
-- manager.rs: panes in the registry, their processes, byte logs and drain tasks. The modules for
-- tabs, splits and workspaces build on these.
use forgetty.Base.{
  ℕ, ◌*◌, min, String, List, [], ◌∷◌, ◌++◌, Bool, true, false, Option, none, some, lookup, insert,
  remove, modify, retain_ne,
}
use forgetty.Session.ByteLog
use forgetty.Session.ByteLog.{ByteLog, u64_max}
use forgetty.Session.Tree.{leaf}
use forgetty.Session.State.{
  PtySize, PtyBridge, PaneState, SessionTab, SessionManagerInner, Env, Result, kill, call_os,
}

-- `PtyBridge::spawn`: an explicit command runs without a login shell, and a configured shell as one.
effective_command : Option (List String) → Option String → Bool → Option (List String) × Bool
effective_command (some command) shell login_shell = (some command, false)
effective_command none (some shell) login_shell = (some (shell ∷ []), true)
effective_command none none login_shell = (none, login_shell)

unfoldable pub spawn_bridge :
    Env
    → ℕ
    → PtySize
    → Option String
    → Option (List String)
    → Option String
    → Bool
    → Result PtyBridge
unfolding effective_command
spawn_bridge env n size working_dir command shell login_shell =
    let (command', login_shell') = effective_command command shell login_shell in
    env.spawn n (record {
      size = size;
      working_dir = working_dir;
      command = command';
      login_shell = login_shell';
    })

-- A pane that was just spawned.
unfoldable pub new_pane : ℕ → PtyBridge → String → PtySize → PaneState
new_pane id bridge cwd size = record {
  id = id;
  pty_bridge = bridge;
  cwd = cwd;
  title = "";
  rows = size.rows;
  cols = size.cols;
}

-- `inner.panes.insert(id, pane); inner.pane_order.push(id);`
unfoldable pub register : ℕ → PaneState → SessionManagerInner → SessionManagerInner
register id pane s = record s {
  panes = insert id pane s.panes;
  pane_order = s.pane_order ++ id ∷ [];
}

-- A tab with one pane.
unfoldable pub leaf_tab : ℕ → ℕ → SessionTab
leaf_tab tab_id pane_id = record {
  id = tab_id;
  title = "";
  pane_tree = leaf pane_id;
  active_pane_id = none;
}

-- `usize::saturating_mul` and `u64::saturating_mul`, on a 64-bit machine.
abbrev pub saturating_mul : ℕ → ℕ → ℕ
saturating_mul a b = min (a * b) u64_max

unfoldable pub create_byte_log_for : Env → ℕ → SessionManagerInner → SessionManagerInner
create_byte_log_for env pane_id s =
    let log =
      ByteLog.new (env.log_file pane_id) (saturating_mul s.byte_log_ring_kb 1024)
        (saturating_mul s.byte_log_max_mb (1024 * 1024)) in
    elim log [ none ↦ s | some log ↦ record s { byte_logs = insert pane_id log s.byte_logs } ]

unfoldable pub take_rx : PaneState → PaneState
take_rx pane = record pane { pty_bridge = record (pane.pty_bridge) { pty_rx = none } }

-- The state after the call, and the receiver if the pane is there and still has it.
unfoldable pub take_pane_output_rx : ℕ → SessionManagerInner → SessionManagerInner × Option ℕ
unfolding take_rx
take_pane_output_rx id s = elim (lookup id s.panes) [
  | none ↦ (s, none)
  | some pane ↦ (record s { panes = modify id take_rx s.panes }, pane.pty_bridge.pty_rx)
]

-- The task itself runs later, and calls `process_pane_bytes` and `close_pane`.
unfoldable pub spawn_drain_task : Env → ℕ → SessionManagerInner → SessionManagerInner
unfolding create_byte_log_for take_pane_output_rx
spawn_drain_task env pane_id s = (take_pane_output_rx pane_id (create_byte_log_for env pane_id s)).0

unfoldable pub close_pane_byte_log : ℕ → SessionManagerInner → SessionManagerInner
close_pane_byte_log pane_id s = record s { byte_logs = remove pane_id s.byte_logs }

-- `if let Some(mut pane) = inner.panes.remove(pid) { pane.pty_bridge.pty.kill() }`
unfoldable pub kill_pane : ℕ → SessionManagerInner → SessionManagerInner
unfolding call_os
kill_pane pid s = elim (lookup pid s.panes) [
  | none ↦ s
  | some pane ↦ call_os (kill pane.pty_bridge.handle) (record s { panes = remove pid s.panes })
]

-- The pane's places outside the tree: `pane_order.retain`, `byte_logs.remove` and the process.
unfoldable pub forget_pane : ℕ → SessionManagerInner → SessionManagerInner
unfolding kill_pane
forget_pane pid s =
    kill_pane pid
      (record s { pane_order = retain_ne pid s.pane_order; byte_logs = remove pid s.byte_logs })
