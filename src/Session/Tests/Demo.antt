-- ===== src/Session/Tests/Demo.antt =====
-- A session with two workspaces: the first with one tab, split into the panes 1 and 2, and the second
-- with a tab of the pane 3, which is active.
use forgetty.Base.{ℕ, ◌+◌, [], ◌∷◌, true, false, none, some, arith, lookup}
use forgetty.Session.ByteLog.{ByteLog, missing}
use forgetty.Session.Tree.{leaf, split}
use forgetty.Session.Tree.Ratio.{half}
use forgetty.Session.Tree.Leaves.{leaves}
use forgetty.Session.State.{
  PtySize, PtyBridge, PaneState, SessionTab, SessionWorkspace, SessionManagerInner, SpawnRequest,
  Env, Result, ok,
}
use forgetty.Session.Invariant.{IsValid}

abbrev pub demo_size : PtySize
demo_size = record { rows = 24; cols = 80; pixel_width = 0; pixel_height = 0 }

abbrev pub demo_bridge : ℕ → PtyBridge
demo_bridge n = record { handle = 100 + n; pid = some (200 + n); pty_rx = some n }

abbrev pub demo_spawn : ℕ → SpawnRequest → Result PtyBridge
demo_spawn n request = ok (demo_bridge n)

-- Every call of the operating system succeeds.
abbrev pub demo_env : Env
demo_env = record {
  home_dir_fallback = "/home";
  spawn = demo_spawn;
  new_pane_id = λ n. 50 + n;
  new_uuid = λ n. 70 + n;
  log_file = λ pane_id. missing;
  proc_cwd = λ pid. none;
  is_alive = λ handle. true;
}

abbrev demo_pane : ℕ → PaneState
demo_pane id = record {
  id = id;
  pty_bridge = demo_bridge id;
  cwd = "/";
  title = "";
  rows = 24;
  cols = 80;
}

abbrev pub split_tab : SessionTab
split_tab = record {
  id = 20;
  title = "";
  pane_tree = split "horizontal" half (leaf 1) (leaf 2);
  active_pane_id = some 2;
}

abbrev pub single_tab : SessionTab
single_tab = record { id = 21; title = ""; pane_tree = leaf 3; active_pane_id = none }

abbrev pub first_ws : SessionWorkspace
first_ws = record { id = 10; name = "Default"; tabs = split_tab ∷ []; active_tab = 0; color = none }

abbrev pub second_ws : SessionWorkspace
second_ws = record { id = 11; name = "Work"; tabs = single_tab ∷ []; active_tab = 0; color = none }

abbrev pub demo_log : ByteLog
demo_log = record {
  ring = 5 ∷ 6 ∷ [];
  ring_capacity = 2;
  total_bytes_written = 3;
  disk_tx = record { queue = []; is_open = false };
}

abbrev pub demo : SessionManagerInner
demo = record {
  panes = (1, demo_pane 1) ∷ (2, demo_pane 2) ∷ (3, demo_pane 3) ∷ [];
  pane_order = 1 ∷ 2 ∷ 3 ∷ [];
  event_tx = [];
  layout = record { workspaces = first_ws ∷ second_ws ∷ []; active_workspace = 1 };
  pinned = false;
  byte_logs = (1, demo_log) ∷ [];
  byte_log_ring_kb = 1024;
  byte_log_max_mb = 10;
  os = [];
}

pub demo-IsValid : IsValid demo
unfolding leaves lookup
demo-IsValid = record {
  active = omega arith;
  each = (
    record { active = omega arith; focused = (omega arith, tt) },
    (record { active = omega arith; focused = (tt, tt) }, tt),
  );
  ordered = λ a. ground arith;
  placed = λ a. ground arith;
  once = λ a. ground arith;
  tab_once = λ t. ground arith;
}
