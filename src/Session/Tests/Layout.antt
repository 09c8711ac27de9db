-- ===== src/Session/Tests/Layout.antt =====
-- The theorems on layouts and on runs, at the sessions of Demo.antt.
use forgetty.Base.{◌≡◌, refl, [], true, false, none, some, arith, has, lookup}
use forgetty.Session.Tree.{leaf, split, update_ratio_for_pane, leftmost_leaf_id}
use forgetty.Session.Tree.Ratio.{half, lowest}
use forgetty.Session.Tree.Leaves.{leaves}
use forgetty.Session.Tree.Splits.{OuterWritten, update_ratio_nested}
use forgetty.Session.State.{ok, workspace_out_of_bounds, new, new_default}
use forgetty.Session.Tabs.{create_tab_with_pane_id}
use forgetty.Session.Registry.{spawn_bridge}
use forgetty.Session.Workspaces.{delete_workspace}
use forgetty.Session.Panes.{split_pane_with_ratio_and_pane_id, close_pane}
use forgetty.Session.Invariant.{IsValid, layout_occurs}
use forgetty.Session.Run.{
  run, respond, NewIds, call, start, then_call, create_tab_call, delete_workspace_call,
}
use forgetty.Session.Run.Reachable.{Reach-IsValid}
use forgetty.Session.Run.Atomic.{respond-error}
use forgetty.Session.Active.{active_ws, active-delete_workspace}
use forgetty.Session.Creation.{TabCreated, create_tab-TabCreated}
use forgetty.Session.Deletion.{Deleted, delete_workspace-Deleted}
use forgetty.Session.Splitting.{SplitDone, split_pane-SplitDone}
use forgetty.Session.Closing.{close_pane_shared}
use forgetty.Session.Tests.Demo.{
  demo, demo-IsValid, demo_env, demo_size, demo_bridge, first_ws, second_ws,
}

first_call_new : NewIds demo_env (create_tab_call 0 none demo_size none) (new 10)
unfolding NewIds leaves new new_default
first_call_new = record { new_pane = refl; new_tab = refl }

Reach-IsValid_example : IsValid (run demo_env (create_tab_call 0 none demo_size none) (new 10))
Reach-IsValid_example =
    Reach-IsValid
      (then_call start (call demo_env (create_tab_call 0 none demo_size none) first_call_new))

out_of_bounds :
    (respond demo_env (delete_workspace_call 5) demo).1 ≡ some (workspace_out_of_bounds 5 2)
unfolding respond delete_workspace
out_of_bounds = refl

respond-error_example :
    record ((respond demo_env (delete_workspace_call 5) demo).0) { os = [] } ≡ demo
respond-error_example =
    respond-error demo_env (delete_workspace_call 5) demo (workspace_out_of_bounds 5 2) demo-IsValid
      out_of_bounds

pane_1_there : has 1 demo.panes ≡ true
unfolding lookup
pane_1_there = refl

demo_spawned : spawn_bridge demo_env 0 demo_size none none none true ≡ ok (demo_bridge 0)
unfolding spawn_bridge
demo_spawned = refl

split_pane-SplitDone_example :
    let o = split_pane_with_ratio_and_pane_id demo_env 1 "vertical" half demo_size none 9 demo in
    (o.1 ≡ ok 9) × SplitDone 1 9 "vertical" half demo o.0
split_pane-SplitDone_example =
    split_pane-SplitDone demo_env 1 "vertical" half demo_size none 9 (demo_bridge 0) demo
      demo-IsValid pane_1_there demo_spawned

create_tab-TabCreated_example :
    TabCreated 0 70 9
      (ok (demo_bridge 0))
      demo
      (create_tab_with_pane_id demo_env 0 none demo_size none 9 demo)
unfolding spawn_bridge
create_tab-TabCreated_example = create_tab-TabCreated demo_env 0 none demo_size none 9 demo

delete_workspace-Deleted_example :
    ((delete_workspace 0 demo).1 ≡ ok tt) × Deleted 0 first_ws demo (delete_workspace 0 demo).0
delete_workspace-Deleted_example = delete_workspace-Deleted 0 first_ws demo refl (omega arith)

active-delete_workspace_example : active_ws (delete_workspace 0 demo).0 ≡ some second_ws
active-delete_workspace_example =
    active-delete_workspace 0 demo (omega arith) (omega arith) (omega arith)

close_pane_shared_example :
    let t = close_pane demo_env 1 demo in
    (has 1 t.panes ≡ false) × (t.layout ≡ demo.layout) × (layout_occurs 1 t.workspaces ≡ 1)
close_pane_shared_example =
    close_pane_shared demo_env 1 demo demo-IsValid pane_1_there ((refl, tt), ((refl, tt), tt))

update_ratio_nested_example :
    OuterWritten "horizontal" "vertical" half half lowest (leaf 1) (leaf 2) (leaf 3) (
      update_ratio_for_pane
        (split "horizontal" half (split "vertical" half (leaf 1) (leaf 2)) (leaf 3))
        1
        lowest)
unfolding leftmost_leaf_id
update_ratio_nested_example =
    update_ratio_nested "horizontal" "vertical" half half lowest 1 (leaf 1) (leaf 2) (leaf 3)
