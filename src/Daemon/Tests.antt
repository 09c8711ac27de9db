-- ===== src/Daemon/Tests.antt =====
-- The theorems on the restore, at the session of Session/Tests/Demo.antt.
use forgetty.Base.{
  ◌+◌, ◌*◌, ◌≡◌, refl, [], ◌∷◌, true, false, none, some, arith, has, lookup, if◌then◌else◌,
}
use forgetty.Session.Tree.{PaneTreeLayout, leaf, split, pane_tree_contains_leaf}
use forgetty.Session.Tree.Ratio.{half}
use forgetty.Session.Tree.Leaves.{leaves}
use forgetty.Session.State.{SessionTab, tab_created}
use forgetty.Session.Run.{rename_workspace_call}
use forgetty.Socket.Server.Exit.{last_file}
use forgetty.Workspace.Store.{replaced, no_directory}
use forgetty.Daemon.Saving.{
  SaveIo, Saver, heard, calls, saves, watch, is_mutation, debounced_save, run_tasks,
  active-debounced_save,
}
use forgetty.Session.Registry.{leaf_tab}
use forgetty.Session.Tabs.{default_size}
use forgetty.Session.Snapshot.{build_pane_tree_state, snapshot_tabs}
use forgetty.Session.Tests.Demo.{demo, demo-IsValid, demo_env, demo_bridge, second_ws}
use forgetty.Daemon.{Machine, live_pane_id_for_saved, restore_tabs, restore_subtree}
use forgetty.Daemon.Subtree.{
  first_leaf, split_count, CanSpawn, FitsAt, Restored, restore_subtree-Restored,
}
use forgetty.Daemon.Tabs.{live_pane_id_for_saved-build}
use forgetty.Daemon.Restore.{AreNew, TabsRestored, restore_tabs-snapshot_tabs}

abbrev machine : Machine
machine = record {
  envs = λ k. record demo_env { new_uuid = λ n. 70 + 10 * k + n };
  is_dir = λ path. true;
}

machine_spawns : CanSpawn machine
machine_spawns k request = (demo_bridge 0, refl)

-- The pane 3 of the session beside a new pane, and a tab of two new panes.
abbrev beside_3 : PaneTreeLayout
beside_3 = split "vertical" half (leaf 3) (leaf 9)

abbrev old_tab : SessionTab
old_tab = record {
  id = 30;
  title = "";
  pane_tree = split "vertical" half (leaf 7) (leaf 8);
  active_pane_id = some 8;
}

beside_3_fits : FitsAt (first_leaf beside_3) beside_3 demo
unfolding leaves first_leaf
beside_3_fits x = ground arith

pane_3_there : has (first_leaf beside_3) demo.panes ≡ true
unfolding lookup first_leaf
pane_3_there = refl

restore_subtree-Restored_example : Restored (first_leaf beside_3) beside_3 0 demo (
    restore_subtree machine default_size
      (first_leaf beside_3)
      (build_pane_tree_state (λ id. "/") beside_3)
      (0, demo))
restore_subtree-Restored_example =
    restore_subtree-Restored machine default_size (λ id. "/") machine_spawns beside_3 0 demo
      beside_3_fits pane_3_there demo-IsValid

abbrev other_tab : SessionTab
other_tab = record { id = 31; title = ""; pane_tree = leaf 40; active_pane_id = none }

two_tabs_new : AreNew machine 0 (old_tab ∷ other_tab ∷ []) demo
unfolding leaves first_leaf split_count leaf_tab
two_tabs_new = record { panes = λ x. ground arith; tabs = λ t. ground arith }

restore_tabs-snapshot_tabs_example :
    TabsRestored machine 1 0
      (old_tab ∷ other_tab ∷ [])
      second_ws
      demo
      (restore_tabs machine 1 (snapshot_tabs demo_env [] (old_tab ∷ other_tab ∷ [])) (0, demo))
restore_tabs-snapshot_tabs_example =
    restore_tabs-snapshot_tabs machine machine_spawns demo_env [] 1 0 (old_tab ∷ other_tab ∷ [])
      second_ws demo refl two_tabs_new demo-IsValid

live_pane_id_for_saved-build_example :
    live_pane_id_for_saved (build_pane_tree_state (λ id. "/") beside_3) beside_3 9
    ≡ (if pane_tree_contains_leaf beside_3 9 then some 9 else none)
live_pane_id_for_saved-build_example = live_pane_id_for_saved-build (λ id. "/") beside_3 9

abbrev saver : Saver
saver = record {
  sm = demo;
  store = record { sessions = []; active = []; trash = []; marker = true; logs = [] };
  dirty = false;
}

abbrev save_io : SaveIo
save_io = record { env = demo_env; writing = replaced 7 }

-- The directory of the session files cannot be made.
abbrev failing_io : SaveIo
failing_io = record { env = demo_env; writing = no_directory }

-- A tab is created, and then a workspace is renamed before the debounced save.
active-debounced_save_example :
    let steps = calls demo_env (rename_workspace_call 0 "work") ∷ saves save_io ∷ [] in
    let before = run_tasks 9 steps (watch failing_io 9 (heard (tab_created 0 5 6)) saver) in
    let after = debounced_save save_io 9 before in
    (lookup 9 after.store.active ≡ some (last_file 7 demo_env before.sm)) × (after.dirty ≡ false)
unfolding is_mutation
active-debounced_save_example =
    active-debounced_save 9 7 failing_io save_io (heard (tab_created 0 5 6))
      (calls demo_env (rename_workspace_call 0 "work") ∷ saves save_io ∷ []) saver refl refl refl
