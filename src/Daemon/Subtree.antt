-- ===== src/Daemon/Subtree.antt =====
-- The pane tree that `restore_subtree` of src/daemon.rs rebuilds from a saved one.
use forgetty.Base.{
  ℕ, suc, ◌+◌, ◌≤◌, ◌≡◌, refl, sym, ap, ◌∙◌, String, List, true, false, none, some, arith, ◌==◌,
  count-append, to_nat, has, has-modify, Bool-cases, inl, inr,
}
use forgetty.Workspace.{PaneTreeState}
use forgetty.Session.Tree.{PaneTreeLayout, leaf, split}
use forgetty.Session.Tree.Leaves.{leaves, occurs}
use forgetty.Session.State.{
  PtySize, PtyBridge, SpawnRequest, SessionWorkspace, SessionManagerInner, ok,
}
use forgetty.Session.Registry.{spawn_bridge}
use forgetty.Session.Panes.{set_pane_cwd}
use forgetty.Session.Snapshot.{build_pane_tree_state}
use forgetty.Session.Splitting.{SplitDone, split_pane-SplitDone}
use forgetty.Session.Invariant.{layout_occurs, IsValid}
use forgetty.Session.Invariant.Panes.{split_pane-IsValid}
use forgetty.Session.Invariant.Quiet.{set_pane_cwd-IsValid}
use forgetty.Daemon.{
  Progress, Machine, existing, first_leaf_cwd, first_leaf_pane_id, split_for, restore_subtree,
}
use forgetty.Daemon.Graft.{
  graft, graft_all, graft_all_leaf, graft_absent, graft_all-graft, split_in_workspaces-graft,
}

-- The first leaf of a live tree.
unfoldable pub first_leaf : PaneTreeLayout → ℕ
first_leaf (leaf p) = p
first_leaf (split d r first second) = first_leaf first

pub first_leaf_pane_id-build :
    (get_cwd : ℕ → String) (tree : PaneTreeLayout)
    → first_leaf_pane_id (build_pane_tree_state get_cwd tree) ≡ some (first_leaf tree)
unfolding first_leaf_pane_id build_pane_tree_state first_leaf
first_leaf_pane_id-build get_cwd (leaf p) = refl
first_leaf_pane_id-build get_cwd (split d r first second) = first_leaf_pane_id-build get_cwd first

pub occurs-first_leaf : (tree : PaneTreeLayout) → 1 ≤ occurs (first_leaf tree) tree
unfolding first_leaf leaves
occurs-first_leaf (leaf p) = ground arith
occurs-first_leaf (split d r first second) =
    omega (
      arith,
      occurs-first_leaf first,
      count-append (first_leaf first) (leaves first) (leaves second),
    )

-- Every process can be spawned.
abbrev pub CanSpawn : Machine → Type 0
CanSpawn m =
    (k : ℕ) (request : SpawnRequest)
    → (bridge : PtyBridge) × ((m.envs k).spawn 0 request ≡ ok bridge)

-- The leaves of the tree differ, and but for the anchor are new to the layout.
abbrev pub FitsAt : ℕ → PaneTreeLayout → SessionManagerInner → Type 0
FitsAt a tree s = (x : ℕ) → occurs x tree + layout_occurs x s.workspaces ≤ 1 + to_nat (a == x)

-- The splits of a tree, each of which takes one call.
unfoldable pub split_count : PaneTreeLayout → ℕ
split_count (leaf p) = 0
split_count (split d r first second) = suc (split_count first + split_count second)

-- `q` is `s` after `k` calls with the tree in place of the leaf of the anchor, and its splits made.
pub record Restored (a : ℕ) (tree : PaneTreeLayout) (k : ℕ) (s : SessionManagerInner) (q : Progress)
    : Type 0 where
  pub valid : IsValid q.1
  pub counted : q.0 ≡ k + split_count tree
  pub workspaces : q.1.workspaces ≡ graft_all a tree s.workspaces
  pub placed :
      (x : ℕ)
      → layout_occurs x q.1.workspaces + to_nat (a == x)
        ≡ layout_occurs x s.workspaces + occurs x tree
  pub registered : (x : ℕ) → has x s.panes ≡ true → has x q.1.panes ≡ true

module _ (m : Machine) (size : PtySize) (get_cwd : ℕ → String) where
  abbrev saved : PaneTreeLayout → PaneTreeState
  saved = build_pane_tree_state get_cwd

  leaf-Restored :
      (p k : ℕ) (s : SessionManagerInner)
      → IsValid s
      → Restored p (leaf p) k s (restore_subtree m size p (saved (leaf p)) (k, s))
  unfolding restore_subtree build_pane_tree_state set_pane_cwd leaves split_count
  leaf-Restored p k s v = elim (Bool-cases (m.is_dir (get_cwd p))) [
    | inl there ↦ rw there (record {
      valid = set_pane_cwd-IsValid p (get_cwd p) s v;
      counted = omega arith;
      workspaces = sym (graft_all_leaf p s.workspaces);
      placed = λ x. omega arith;
      registered = λ x h. has-modify p x _ s.panes ∙ h;
    })
    | inr gone ↦ rw gone (record {
      valid = v;
      counted = omega arith;
      workspaces = sym (graft_all_leaf p s.workspaces);
      placed = λ x. omega arith;
      registered = λ x h. h;
    })
  ]

  module _ (spawns : CanSpawn m) where
    split_for-SplitDone :
        (a k : ℕ) (direction : String) (ratio : ℕ) (second : PaneTreeLayout)
        (s : SessionManagerInner)
        → layout_occurs (first_leaf second) s.workspaces ≡ 0
        → has a s.panes ≡ true
        → IsValid s
        → let o = split_for m a direction ratio size (saved second) (k, s) in
          (o.1 ≡ ok (first_leaf second))
          × SplitDone a (first_leaf second) direction ratio s o.0
          × IsValid o.0
    unfolding split_for spawn_bridge
    split_for-SplitDone a k direction ratio second s new there v =
        let n = first_leaf second in
        let cwd = existing m (first_leaf_cwd (saved second)) in
        let (bridge, spawned) =
          spawns k
            (record { size = size; working_dir = cwd; command = none; login_shell = true }) in
        let done =
          split_pane-SplitDone (m.envs k) a direction ratio size cwd n bridge s v there spawned in
        let valid = split_pane-IsValid (m.envs k) a direction ratio size cwd n s new v in
        rw (first_leaf_pane_id-build get_cwd second, split_for) (done.0, done.1, valid)

    restore_subtree-split :
        (a k : ℕ) (d : String) (r : ℕ) (first second : PaneTreeLayout) (s : SessionManagerInner)
        → let o = split_for m a d r size (saved second) (k, s) in
          o.1 ≡ ok (first_leaf second)
          → restore_subtree m size a (saved (split d r first second)) (k, s)
            ≡ restore_subtree m size
                (first_leaf second)
                (saved second)
                (restore_subtree m size a (saved first) (suc k, o.0))
    unfolding build_pane_tree_state restore_subtree
    restore_subtree-split a k d r first second s fine = rw (fine, restore_subtree) refl

    -- Grafting the two subtrees into the pair of leaves that the split made.
    graft_pair :
        (a n : ℕ) (d : String) (r : ℕ) (first second : PaneTreeLayout) (wss : List SessionWorkspace)
        → (n == a) ≡ false
        → layout_occurs n wss ≡ 0
        → occurs n first ≡ 0
        → graft_all n second (graft_all a first (graft_all a (split d r (leaf a) (leaf n)) wss))
          ≡ graft_all a (split d r first second) wss
    unfolding graft
    graft_pair a n d r first second wss ne new absent =
        let two = split d r (leaf a) (leaf n) in
        let one : graft a first two ≡ split d r first (leaf n) = ground arith in
        let self : (n == n) ≡ true = ground arith in
        ap (graft_all n second) (
          graft_all-graft a a two first wss (λ e. absurd (ground arith))
          ∙ ap (λ x. graft_all a x wss) one)
        ∙ graft_all-graft a n (split d r first (leaf n)) second wss (λ e. new)
        ∙ ap (λ x. graft_all a x wss) (rw (graft_absent n second first absent, self) refl)

    -- A saved tree whose first leaf is the anchor is rebuilt in the place of the anchor's leaf: same
    -- shape, directions, ratios and pane ids, with one call per split. The anchor is a registered pane of a well-formed state,
    -- the leaves of the tree differ and but for the anchor are new, and every process can be spawned.
    pub restore_subtree-Restored :
        (tree : PaneTreeLayout) (k : ℕ) (s : SessionManagerInner)
        → FitsAt (first_leaf tree) tree s
        → has (first_leaf tree) s.panes ≡ true
        → IsValid s
        → Restored
            (first_leaf tree)
            tree
            k
            s
            (restore_subtree m size (first_leaf tree) (saved tree) (k, s))
    unfolding first_leaf build_pane_tree_state restore_subtree leaves graft split_count
    restore_subtree-Restored (leaf p) k s fits there v = leaf-Restored p k s v
    restore_subtree-Restored (split d r first second) k s fits there v =
        let a = first_leaf first in
        let n = first_leaf second in
        let both = λ (x : ℕ). count-append x (leaves first) (leaves second) in
        let n_new : layout_occurs n s.workspaces ≡ 0 =
          ground (arith, fits n, both n, occurs-first_leaf second, occurs-first_leaf first) in
        let (fine, done, v1) = split_for-SplitDone a k d r second s n_new there v in
        let s1 = (split_for m a d r size (saved second) (k, s)).0 in
        let fst =
          restore_subtree-Restored first (suc k) s1
            (λ x. ground (arith, fits x, both x, done.leaves x, occurs-first_leaf second))
            (done.panes a ∙ ground arith) v1 in
        let p2 = restore_subtree m size a (saved first) (suc k, s1) in
        let snd =
          restore_subtree-Restored second p2.0 p2.1
            (λ x. ground (arith, fits x, both x, done.leaves x, fst.placed x))
            (fst.registered n (done.panes n ∙ ground arith)) fst.valid in
        let ne : (n == a) ≡ false =
          ground (
            arith,
            fits n,
            both n,
            occurs-first_leaf second,
            occurs-first_leaf first,
            v.placed a,
          ) in
        let step : s1.workspaces ≡ graft_all a (split d r (leaf a) (leaf n)) s.workspaces =
          done.workspaces ∙ split_in_workspaces-graft a n d r s.workspaces (v.once a) in
        rw (restore_subtree-split a k d r first second s fine) (record {
          valid = snd.valid;
          counted = omega (arith, snd.counted, fst.counted);
          workspaces =
              snd.workspaces
              ∙ ap (graft_all n second) (fst.workspaces ∙ ap (graft_all a first) step)
              ∙ graft_pair a n d r first second s.workspaces ne n_new
                  (ground (arith, fits n, both n, occurs-first_leaf second, ne));
          placed = λ x. omega (arith, snd.placed x, fst.placed x, done.leaves x, both x);
          registered = λ x h. snd.registered x (fst.registered x (done.panes x ∙ ground arith));
        })
