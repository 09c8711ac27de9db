-- ===== src/Daemon/Tabs.antt =====
-- What one round of the restore of src/daemon.rs makes of a saved tab.
use forgetty.Base.{
  ℕ, zero, suc, ◌+◌, ◌≤◌, ◌≡◌, refl, ap, ◌∙◌, String, List, [], ◌∷◌, ◌++◌, true, none, some, arith,
  ◌==◌, if◌then◌else◌, has, get_elem?, set, sum_by, le-sum_by, sum_by-set,
}
use forgetty.Workspace.{TabState}
use forgetty.Session.Tree.{PaneTreeLayout, leaf, split, pane_tree_contains_leaf}
use forgetty.Session.Tree.Leaves.{occurs}
use forgetty.Session.State.{SessionTab, SessionWorkspace, SessionManagerInner, ok}
use forgetty.Session.Registry.{spawn_bridge, leaf_tab}
use forgetty.Session.Tabs.{push_tab, default_size}
use forgetty.Session.Creation.{create_tab-TabMade}
use forgetty.Session.Snapshot.{build_pane_tree_state}
use forgetty.Session.Invariant.{tab_occurs, ws_occurs, layout_occurs, IsValid, IsFresh}
use forgetty.Session.Invariant.Growth.{ws_occurs-push_tab}
use forgetty.Session.Invariant.Tabs.{create_tab_with_pane_id-IsValid}
use forgetty.Daemon.{
  Progress, Machine, existing, first_leaf_cwd, live_pane_id_for_saved, tab_for, restore_tab,
  restore_subtree,
}
use forgetty.Daemon.Graft.{graft, graft_tabs, graft_all, graft_tabs_absent, graft_all_absent}
use forgetty.Daemon.Subtree.{
  split_count, first_leaf, first_leaf_pane_id-build, CanSpawn, restore_subtree-Restored,
}

-- The walk along a saved tree and the live tree that it was saved from finds each pane itself, and
-- nothing for an id that is no leaf.
pub live_pane_id_for_saved-build :
    (get_cwd : ℕ → String) (tree : PaneTreeLayout) (target : ℕ)
    → live_pane_id_for_saved (build_pane_tree_state get_cwd tree) tree target
      ≡ (if pane_tree_contains_leaf tree target then some target else none)
unfolding live_pane_id_for_saved build_pane_tree_state pane_tree_contains_leaf
live_pane_id_for_saved-build get_cwd (leaf p) target = ground arith
live_pane_id_for_saved-build get_cwd (split d r first second) target = ground (
  arith,
  live_pane_id_for_saved-build get_cwd first target,
  live_pane_id_for_saved-build get_cwd second target,
)

graft_all-set :
    (a : ℕ) (sub : PaneTreeLayout) (wss : List SessionWorkspace) (i : ℕ) (ws : SessionWorkspace)
    → graft_all a sub (set wss i ws)
      ≡ set (graft_all a sub wss) i (record ws { tabs = graft_tabs a sub ws.tabs })
unfolding graft_all
graft_all-set a sub [] i ws = refl
graft_all-set a sub (w ∷ wss) zero ws = refl
graft_all-set a sub (w ∷ wss) (suc i) ws = rw (graft_all-set a sub wss i ws) refl

graft_tabs-append :
    (a : ℕ) (sub : PaneTreeLayout) (xs ys : List SessionTab)
    → graft_tabs a sub (xs ++ ys) ≡ graft_tabs a sub xs ++ graft_tabs a sub ys
unfolding graft_tabs
graft_tabs-append a sub [] ys = refl
graft_tabs-append a sub (x ∷ xs) ys = rw (graft_tabs-append a sub xs ys) refl

-- The tab that a saved one becomes.
abbrev pub tab_of : ℕ → PaneTreeLayout → SessionTab
tab_of tab_id tree = record (leaf_tab tab_id (first_leaf tree)) { pane_tree = tree }

graft_new_tab :
    (tab_id : ℕ) (tree : PaneTreeLayout) (tabs : List SessionTab)
    → sum_by (tab_occurs (first_leaf tree)) tabs ≡ 0
    → graft_tabs (first_leaf tree) tree (tabs ++ leaf_tab tab_id (first_leaf tree) ∷ [])
      ≡ tabs ++ tab_of tab_id tree ∷ []
unfolding graft_tabs graft leaf_tab
graft_new_tab tab_id tree tabs absent =
    let self : (first_leaf tree == first_leaf tree) ≡ true = ground arith in
    rw (graft_tabs-append, graft_tabs_absent (first_leaf tree) tree tabs absent, self) refl

-- `q` is `s` after `k` calls with the tab at the end of the workspace `ws`, and the calls for it made.
pub record TabRestored (ws_idx tab_id : ℕ) (tree : PaneTreeLayout) (ws : SessionWorkspace) (k : ℕ)
    (s : SessionManagerInner) (q : Progress) : Type 0 where
  pub valid : IsValid q.1
  pub counted : q.0 ≡ suc k + split_count tree
  pub workspaces : q.1.workspaces ≡ set s.workspaces ws_idx (push_tab (tab_of tab_id tree) ws)

module _ (m : Machine) (spawns : CanSpawn m) (get_cwd : ℕ → String) where
  tab_for-fresh :
      (ws_idx k : ℕ) (tree : PaneTreeLayout) (ws : SessionWorkspace) (s : SessionManagerInner)
      → get_elem? s.workspaces ws_idx ≡ some ws
      → IsFresh (first_leaf tree) ((m.envs k).new_uuid 0) s
      → IsValid s
      → let o = tab_for m ws_idx (build_pane_tree_state get_cwd tree) (k, s) in
        let tab_id = (m.envs k).new_uuid 0 in
        (o.1 ≡ ok (first_leaf tree, tab_id))
        × (o.0.workspaces
            ≡ set s.workspaces ws_idx (push_tab (leaf_tab tab_id (first_leaf tree)) ws))
        × (has (first_leaf tree) o.0.panes ≡ true)
        × IsValid o.0
  unfolding tab_for spawn_bridge
  tab_for-fresh ws_idx k tree ws s e fresh v =
      let id = first_leaf tree in
      let cwd = existing m (first_leaf_cwd (build_pane_tree_state get_cwd tree)) in
      let (bridge, spawned) =
        spawns k
          (record { size = default_size; working_dir = cwd; command = none; login_shell = true }) in
      let valid =
        create_tab_with_pane_id-IsValid (m.envs k) ws_idx cwd default_size none id s fresh v in
      let (fine, made) =
        create_tab-TabMade (m.envs k) ws_idx cwd default_size none id bridge ws s e spawned in
      rw (first_leaf_pane_id-build get_cwd tree, tab_for)
        (fine, made.workspaces, made.panes id ∙ ground arith, valid)

  restore_tab_step :
      (ws_idx k tab_id : ℕ) (tab : TabState) (tree : PaneTreeLayout) (s : SessionManagerInner)
      → let o = tab_for m ws_idx tab.pane_tree (k, s) in
        o.1 ≡ ok (first_leaf tree, tab_id)
        → restore_tab m ws_idx tab (k, s)
          ≡ restore_subtree m default_size (first_leaf tree) tab.pane_tree (suc k, o.0)
  unfolding restore_tab
  restore_tab_step ws_idx k tab_id tab tree s made = rw (made, restore_tab) refl

  -- A saved tab is rebuilt at the end of its workspace: its tree has the shape, directions, ratios and
  -- pane ids that were saved, and all else of the layout stays. The workspace exists, the state is well
  -- formed, the saved pane ids differ and are new to the layout, the random tab id is new, and every
  -- process can be spawned.
  pub restore_tab-TabRestored :
      (ws_idx k : ℕ) (tab : TabState) (tree : PaneTreeLayout) (ws : SessionWorkspace)
      (s : SessionManagerInner)
      → tab.pane_tree ≡ build_pane_tree_state get_cwd tree
      → get_elem? s.workspaces ws_idx ≡ some ws
      → ((x : ℕ) → occurs x tree + layout_occurs x s.workspaces ≤ 1)
      → IsFresh (first_leaf tree) ((m.envs k).new_uuid 0) s
      → IsValid s
      → TabRestored ws_idx ((m.envs k).new_uuid 0) tree ws k s (restore_tab m ws_idx tab (k, s))
  restore_tab-TabRestored ws_idx k tab tree ws s saved e fits fresh v =
      let a = first_leaf tree in
      let tab_id = (m.envs k).new_uuid 0 in
      let o = tab_for m ws_idx (build_pane_tree_state get_cwd tree) (k, s) in
      let (made, placed, there, v1) = tab_for-fresh ws_idx k tree ws s e fresh v in
      let pushed = push_tab (leaf_tab tab_id a) ws in
      let done =
        restore_subtree-Restored m default_size get_cwd spawns tree (suc k) o.0
          (λ x. omega (
            arith,
            fits x,
            ap (layout_occurs x) placed,
            sum_by-set (ws_occurs x) s.workspaces ws_idx ws pushed e,
            ws_occurs-push_tab tab_id a x ws,
          ))
          there v1 in
      let step =
        restore_tab_step ws_idx k tab_id tab tree s
          (ap (λ x. (tab_for m ws_idx x (k, s)).1) saved ∙ made) in
      let inside =
        graft_new_tab tab_id tree ws.tabs
          (omega (arith, fresh.new_pane, le-sum_by (ws_occurs a) s.workspaces ws_idx ws e)) in
      rw (step, saved)
        (record {
          valid = done.valid;
          counted = done.counted;
          workspaces =
              done.workspaces
              ∙ ap (graft_all a tree) placed
              ∙ graft_all-set a tree s.workspaces ws_idx pushed
              ∙ ap (λ wss. set wss ws_idx (record ws { tabs = graft_tabs a tree pushed.tabs }))
                  (graft_all_absent a tree s.workspaces fresh.new_pane)
              ∙ ap (λ (ts : List SessionTab). set s.workspaces ws_idx (record ws { tabs = ts }))
                  inside;
        })
