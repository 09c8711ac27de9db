-- ===== src/Session/Run/Atomic.antt =====
-- What a call that returns an error leaves behind.
use forgetty.Base.{◌≡◌, some}
use forgetty.Session.State.{SessionManagerInner, Env, Error}
use forgetty.Session.Tabs.{create_tab}
use forgetty.Session.Panes.{split_pane, split_pane_with_ratio}
use forgetty.Session.Invariant.{IsValid}
use forgetty.Session.Run.Undone.{
  rename_workspace-Undone, set_workspace_color-Undone, move_workspace-Undone,
  delete_workspace-Undone, set_active_workspace-Undone, duplicate_workspace-Undone,
  create_tab_with_pane_id-Undone, close_tab-Undone, move_tab-Undone, set_active_tab-Undone,
  set_active_pane-Undone, create_pane-Undone, split_pane-Undone, resize_pane-Undone,
  process_pane_bytes-Undone, write_pty-Undone,
}
use forgetty.Session.Run.{
  Command, create_workspace_call, rename_workspace_call, set_workspace_color_call,
  move_workspace_call, delete_workspace_call, duplicate_workspace_call, set_active_workspace_call,
  create_tab_call, create_tab_with_pane_id_call, close_tab_call, move_tab_call, set_active_tab_call,
  set_active_pane_call, create_pane_call, split_pane_call, split_pane_with_ratio_call,
  split_pane_with_ratio_and_pane_id_call, close_pane_call, update_split_ratios_call,
  set_pane_cwd_call, resize_pane_call, process_pane_bytes_call, write_pty_call, send_sigint_call,
  snapshot_call, close_pane_byte_log_call, set_byte_log_config_call, set_pinned_call, kill_all_call,
  respond,
}

-- A call on a well-formed state that returns an error changes nothing of the manager: no registry
-- entry, layout, order, event or byte log. Only requests to the operating system may have been made:
-- those that kill the processes that a failed copy of a workspace had spawned, and a failed write.
pub respond-error :
    (env : Env) (command : Command) (s : SessionManagerInner) (e : Error)
    → IsValid s
    → (respond env command s).1 ≡ some e
    → record ((respond env command s).0) { os = s.os } ≡ s
unfolding respond create_tab split_pane split_pane_with_ratio
respond-error env (create_workspace_call name) s e v h = cc
respond-error env (rename_workspace_call idx name) s e v h = rename_workspace-Undone s idx name e h
respond-error env (set_workspace_color_call idx color) s e v h =
    set_workspace_color-Undone s idx color e h
respond-error env (move_workspace_call from_idx to_idx) s e v h =
    move_workspace-Undone s from_idx to_idx e h
respond-error env (delete_workspace_call idx) s e v h = delete_workspace-Undone s idx e h
respond-error env (duplicate_workspace_call idx name size) s e v h =
    duplicate_workspace-Undone s env idx name size e h
respond-error env (set_active_workspace_call idx) s e v h = set_active_workspace-Undone s idx e h
respond-error env (create_tab_call idx cwd size command) s e v h =
    create_tab_with_pane_id-Undone s env idx cwd size command _ e h
respond-error env (create_tab_with_pane_id_call idx cwd size command id) s e v h =
    create_tab_with_pane_id-Undone s env idx cwd size command id e h
respond-error env (close_tab_call tab_id) s e v h = close_tab-Undone s env tab_id e h
respond-error env (move_tab_call tab_id new_index) s e v h = move_tab-Undone s tab_id new_index e h
respond-error env (set_active_tab_call idx tab_idx) s e v h =
    set_active_tab-Undone s idx tab_idx e h
respond-error env (set_active_pane_call idx tab_id pane_id) s e v h =
    set_active_pane-Undone s idx tab_id pane_id e h
respond-error env (create_pane_call size cwd command shell login) s e v h =
    create_pane-Undone s env size cwd command shell login e h
respond-error env (split_pane_call id direction size cwd) s e v h =
    split_pane-Undone s env id direction _ size cwd _ v e h
respond-error env (split_pane_with_ratio_call id direction ratio size cwd) s e v h =
    split_pane-Undone s env id direction ratio size cwd _ v e h
respond-error env (split_pane_with_ratio_and_pane_id_call id direction ratio size cwd new_id) s e v
      h =
    split_pane-Undone s env id direction ratio size cwd new_id v e h
respond-error env (close_pane_call id) s e v h = cc
respond-error env (update_split_ratios_call updates) s e v h = cc
respond-error env (set_pane_cwd_call id cwd) s e v h = cc
respond-error env (resize_pane_call resized id size) s e v h =
    resize_pane-Undone s resized id size e h
respond-error env (process_pane_bytes_call id bytes) s e v h =
    process_pane_bytes-Undone s env id bytes e h
respond-error env (write_pty_call written id bytes) s e v h =
    write_pty-Undone s written id bytes e h
respond-error env (send_sigint_call my_pid comm foreground id) s e v h = cc
respond-error env snapshot_call s e v h = cc
respond-error env (close_pane_byte_log_call id) s e v h = cc
respond-error env (set_byte_log_config_call ring_kb max_mb) s e v h = cc
respond-error env (set_pinned_call pinned) s e v h = cc
respond-error env (kill_all_call locked) s e v h = cc
