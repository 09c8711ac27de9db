-- ===== src/Session/Run/Reachable.antt =====
-- Well-formedness along the runs of Run.antt.
use forgetty.Base.{ℕ, refl, sym, ap, arith, to_nat, has-nil}
use forgetty.Session.State.{SessionManagerInner, Env, new}
use forgetty.Session.Invariant.{IsValid, Agrees-IsValid}
use forgetty.Session.Invariant.Workspaces.{
  create_workspace-IsValid, rename_workspace-IsValid, set_workspace_color-IsValid,
  move_workspace-IsValid, delete_workspace-IsValid, set_active_workspace-IsValid,
}
use forgetty.Session.Invariant.Tabs.{create_tab_with_pane_id-IsValid, close_tab-IsValid}
use forgetty.Session.Invariant.TabMoves.{
  move_tab-IsValid, set_active_tab-IsValid, set_active_pane-IsValid,
}
use forgetty.Session.Invariant.Panes.{create_pane-IsValid, split_pane-IsValid}
use forgetty.Session.Invariant.Closing.{close_pane-IsValid}
use forgetty.Session.Invariant.Copies.{duplicate_workspace-IsValid}
use forgetty.Session.Invariant.Quiet.{
  update_split_ratios-IsValid, set_pane_cwd-IsValid, resize_pane-IsValid,
  process_pane_bytes-IsValid, snapshot-IsValid, write_pty-Agrees, send_sigint-Agrees,
  close_pane_byte_log-Agrees, set_byte_log_config-Agrees, set_pinned-Agrees, kill_all-Agrees,
}
use forgetty.Session.Tabs.{create_tab}
use forgetty.Session.Panes.{split_pane, split_pane_with_ratio}
use forgetty.Session.Run.{
  Command, create_workspace_call, rename_workspace_call, set_workspace_color_call,
  move_workspace_call, delete_workspace_call, duplicate_workspace_call, set_active_workspace_call,
  create_tab_call, create_tab_with_pane_id_call, close_tab_call, move_tab_call, set_active_tab_call,
  set_active_pane_call, create_pane_call, split_pane_call, split_pane_with_ratio_call,
  split_pane_with_ratio_and_pane_id_call, close_pane_call, update_split_ratios_call,
  set_pane_cwd_call, resize_pane_call, process_pane_bytes_call, write_pty_call, send_sigint_call,
  snapshot_call, close_pane_byte_log_call, set_byte_log_config_call, set_pinned_call, kill_all_call,
  run, respond, NewIds, Step, call, Reach, start, then_call,
}

new-IsValid : (id : ℕ) → IsValid (new id)
unfolding new
new-IsValid id = record {
  active = omega arith;
  each = (record { active = omega arith; focused = tt }, tt);
  ordered = λ a. sym (ap to_nat (has-nil a (new id).panes refl));
  placed = λ a. omega (arith, ap to_nat (has-nil a (new id).panes refl));
  once = λ a. omega arith;
  tab_once = λ t. omega arith;
}

-- Every call on a well-formed state, whose random ids are new, leaves a well-formed state, on success
-- and on every error.
run-IsValid :
    (env : Env) (command : Command) (s : SessionManagerInner)
    → NewIds env command s
    → IsValid s
    → IsValid (run env command s)
unfolding run respond NewIds create_tab split_pane split_pane_with_ratio
run-IsValid env (create_workspace_call name) s f v = create_workspace-IsValid _ name s v
run-IsValid env (rename_workspace_call idx name) s f v = rename_workspace-IsValid idx name s v
run-IsValid env (set_workspace_color_call idx color) s f v =
    set_workspace_color-IsValid idx color s v
run-IsValid env (move_workspace_call from_idx to_idx) s f v =
    move_workspace-IsValid from_idx to_idx s v
run-IsValid env (delete_workspace_call idx) s f v = delete_workspace-IsValid idx s v
run-IsValid env (duplicate_workspace_call idx name size) s f v =
    duplicate_workspace-IsValid env idx name size s f v
run-IsValid env (set_active_workspace_call idx) s f v = set_active_workspace-IsValid idx s v
run-IsValid env (create_tab_call idx cwd size command) s f v =
    create_tab_with_pane_id-IsValid env idx cwd size command _ s f v
run-IsValid env (create_tab_with_pane_id_call idx cwd size command id) s f v =
    create_tab_with_pane_id-IsValid env idx cwd size command id s f v
run-IsValid env (close_tab_call tab_id) s f v = close_tab-IsValid env tab_id s f v
run-IsValid env (move_tab_call tab_id new_index) s f v = move_tab-IsValid tab_id new_index s v
run-IsValid env (set_active_tab_call idx tab_idx) s f v = set_active_tab-IsValid idx tab_idx s v
run-IsValid env (set_active_pane_call idx tab_id pane_id) s f v =
    set_active_pane-IsValid idx tab_id pane_id s v
run-IsValid env (create_pane_call size cwd command shell login) s f v =
    create_pane-IsValid env size cwd command shell login s f v
run-IsValid env (split_pane_call id direction size cwd) s f v =
    split_pane-IsValid env id direction _ size cwd _ s f.new_pane v
run-IsValid env (split_pane_with_ratio_call id direction ratio size cwd) s f v =
    split_pane-IsValid env id direction ratio size cwd _ s f.new_pane v
run-IsValid env (split_pane_with_ratio_and_pane_id_call id direction ratio size cwd new_id) s f v =
    split_pane-IsValid env id direction ratio size cwd new_id s f v
run-IsValid env (close_pane_call id) s f v = close_pane-IsValid env id s f v
run-IsValid env (update_split_ratios_call updates) s f v = update_split_ratios-IsValid updates s v
run-IsValid env (set_pane_cwd_call id cwd) s f v = set_pane_cwd-IsValid id cwd s v
run-IsValid env (resize_pane_call resized id size) s f v = resize_pane-IsValid resized id size s v
run-IsValid env (process_pane_bytes_call id bytes) s f v =
    process_pane_bytes-IsValid env id bytes s v
run-IsValid env (write_pty_call written id bytes) s f v =
    Agrees-IsValid (write_pty-Agrees written id bytes s) v
run-IsValid env (send_sigint_call my_pid comm foreground id) s f v =
    Agrees-IsValid (send_sigint-Agrees my_pid comm foreground id s) v
run-IsValid env snapshot_call s f v = snapshot-IsValid env s v
run-IsValid env (close_pane_byte_log_call id) s f v =
    Agrees-IsValid (close_pane_byte_log-Agrees id s) v
run-IsValid env (set_byte_log_config_call ring_kb max_mb) s f v =
    Agrees-IsValid (set_byte_log_config-Agrees ring_kb max_mb s) v
run-IsValid env (set_pinned_call pinned) s f v = Agrees-IsValid (set_pinned-Agrees pinned s) v
run-IsValid env (kill_all_call locked) s f v = Agrees-IsValid (kill_all-Agrees locked s) v

Step-IsValid : {s t : SessionManagerInner} → Step s t → IsValid s → IsValid t
Step-IsValid {s} (call env command f) v = run-IsValid env command s f v

-- Every state that any sequence of calls on a new session manager reaches is well formed.
pub Reach-IsValid : {id : ℕ} {s : SessionManagerInner} → Reach id s → IsValid s
Reach-IsValid {id} start = new-IsValid id
Reach-IsValid (then_call r step) = Step-IsValid step (Reach-IsValid r)
