-- ===== src/Daemon/Restore.antt =====
-- All tabs of a saved workspace, restored by src/daemon.rs.
use forgetty.Base.{
  ℕ, zero, suc, ◌+◌, ◌≤◌, ◌≡◌, refl, sym, ap, subst, ◌∙◌, List, [], ◌∷◌, ◌++◌, some, arith, ◌==◌,
  to_nat, get_elem?, get_elem?-lt, get_elem?-set_self, set, sum_by, sum_by-set, sum_by-append,
  append-nil, append_assoc,
}
use forgetty.Session.State.{PaneState, SessionTab, SessionWorkspace, SessionManagerInner, Env}
use forgetty.Session.Registry.{leaf_tab}
use forgetty.Session.Tabs.{push_tab}
use forgetty.Session.Snapshot.{
  cached_cwd, snapshot_tab, snapshot_tabs, convert_pane_tree_layout-build,
}
use forgetty.Session.Invariant.{
  tab_occurs, ws_occurs, layout_occurs, tab_has_id, ws_tab_ids, layout_tab_ids, IsValid, IsFresh,
}
use forgetty.Daemon.{Machine, Progress, restore_tab, restore_tabs}
use forgetty.Daemon.Subtree.{first_leaf, occurs-first_leaf, split_count, CanSpawn}
use forgetty.Daemon.Tabs.{tab_of, TabRestored, restore_tab-TabRestored}

set_same {ℓ} :
    {A : Type ℓ} (xs : List A) (i : ℕ) (x : A) → get_elem? xs i ≡ some x → set xs i x ≡ xs
set_same [] i x e = refl
set_same (y ∷ ys) zero x e = cc
set_same (y ∷ ys) (suc i) x e = ap (λ zs. y ∷ zs) (set_same ys i x e)

set-set {ℓ} : {A : Type ℓ} (xs : List A) (i : ℕ) (x y : A) → set (set xs i x) i y ≡ set xs i y
set-set [] i x y = refl
set-set (z ∷ zs) zero x y = refl
set-set (z ∷ zs) (suc i) x y = ap (λ ws. z ∷ ws) (set-set zs i x y)

-- The tabs that saved ones become, each with the first UUID that its own call draws; a tab takes one
-- call and one more for each split.
abbrev pub restored_tabs : Machine → ℕ → List SessionTab → List SessionTab
restored_tabs m k [] = []
restored_tabs m k (old ∷ olds) =
    tab_of ((m.envs k).new_uuid 0) old.pane_tree
    ∷ restored_tabs m (suc k + split_count old.pane_tree) olds

-- With these tabs beside it, the layout has no pane and no tab twice.
pub record AreNew (m : Machine) (k : ℕ) (olds : List SessionTab) (s : SessionManagerInner)
    : Type 0 where
  pub panes :
      (x : ℕ) → sum_by (tab_occurs x) (restored_tabs m k olds) + layout_occurs x s.workspaces ≤ 1
  pub tabs :
      (t : ℕ) → sum_by (tab_has_id t) (restored_tabs m k olds) + layout_tab_ids t s.workspaces ≤ 1

-- `q` is `s` with the tabs at the end of the workspace `ws`.
pub record TabsRestored (m : Machine) (ws_idx k : ℕ) (olds : List SessionTab)
    (ws : SessionWorkspace) (s : SessionManagerInner) (q : Progress) : Type 0 where
  pub valid : IsValid q.1
  pub workspaces :
      q.1.workspaces
      ≡ set s.workspaces ws_idx (record ws { tabs = ws.tabs ++ restored_tabs m k olds })

module _ (m : Machine) (spawns : CanSpawn m) (env : Env) (panes : List (ℕ × PaneState)) where
  first-IsFresh :
      (k : ℕ) (old : SessionTab) (olds : List SessionTab) (s : SessionManagerInner)
      → AreNew m k (old ∷ olds) s
      → IsFresh (first_leaf old.pane_tree) ((m.envs k).new_uuid 0) s
  unfolding leaf_tab
  first-IsFresh k old olds s new =
      let id = (m.envs k).new_uuid 0 in
      let self : to_nat (id == id) ≡ 1 = ground arith in
      record {
        new_pane =
            omega (arith, new.panes (first_leaf old.pane_tree), occurs-first_leaf old.pane_tree);
        new_tab = omega (arith, new.tabs id, self);
      }

  rest-AreNew :
      (ws_idx k : ℕ) (old : SessionTab) (olds : List SessionTab) (ws : SessionWorkspace)
      (s : SessionManagerInner) (q : Progress)
      → get_elem? s.workspaces ws_idx ≡ some ws
      → AreNew m k (old ∷ olds) s
      → TabRestored ws_idx ((m.envs k).new_uuid 0) old.pane_tree ws k s q
      → AreNew m (suc k + split_count old.pane_tree) olds q.1
  unfolding leaf_tab
  rest-AreNew ws_idx k old olds ws s q e new r =
      let tab = tab_of ((m.envs k).new_uuid 0) old.pane_tree in
      let pushed = push_tab tab ws in
      record {
        panes = λ x. omega (
          arith,
          new.panes x,
          ap (layout_occurs x) r.workspaces,
          sum_by-set (ws_occurs x) s.workspaces ws_idx ws pushed e,
          sum_by-append (tab_occurs x) ws.tabs (tab ∷ []),
        );
        tabs = λ t. omega (
          arith,
          new.tabs t,
          ap (layout_tab_ids t) r.workspaces,
          sum_by-set (ws_tab_ids t) s.workspaces ws_idx ws pushed e,
          sum_by-append (tab_has_id t) ws.tabs (tab ∷ []),
        );
      }

  -- Save and restore: the tabs that a snapshot took from a workspace of any session, whatever
  -- directories its panes had, come back in order with the same trees, and nothing else of the layout
  -- changes. The workspace exists, the state is well formed, no pane id and no tab id would stand
  -- twice, and every process can be spawned.
  pub restore_tabs-snapshot_tabs :
      (ws_idx k : ℕ) (olds : List SessionTab) (ws : SessionWorkspace) (s : SessionManagerInner)
      → get_elem? s.workspaces ws_idx ≡ some ws
      → AreNew m k olds s
      → IsValid s
      → TabsRestored m ws_idx k olds ws s
          (restore_tabs m ws_idx (snapshot_tabs env panes olds) (k, s))
  unfolding restore_tabs snapshot_tabs snapshot_tab
  restore_tabs-snapshot_tabs ws_idx k [] ws s e new v = record {
    valid = v;
    workspaces = sym (
        ap (λ (ts : List SessionTab). set s.workspaces ws_idx (record ws { tabs = ts }))
          (append-nil ws.tabs)
        ∙ set_same s.workspaces ws_idx ws e);
  }
  restore_tabs-snapshot_tabs ws_idx k (old ∷ olds) ws s e new v =
      let tab = tab_of ((m.envs k).new_uuid 0) old.pane_tree in
      let q = restore_tab m ws_idx (snapshot_tab env panes old) (k, s) in
      let r =
        restore_tab-TabRestored m spawns (cached_cwd env panes) ws_idx k
          (snapshot_tab env panes old) old.pane_tree ws s
          (convert_pane_tree_layout-build env panes old.pane_tree) e
          (λ x. omega (arith, new.panes x)) (first-IsFresh k old olds s new) v in
      let there : get_elem? q.1.workspaces ws_idx ≡ some (push_tab tab ws) =
        ap (λ l. get_elem? l ws_idx) r.workspaces
        ∙ get_elem?-set_self s.workspaces ws_idx _ (get_elem?-lt s.workspaces ws_idx ws e) in
      let next = suc k + split_count old.pane_tree in
      let rest =
        restore_tabs-snapshot_tabs ws_idx next olds (push_tab tab ws) q.1 there
          (rest-AreNew ws_idx k old olds ws s q e new r) r.valid in
      let later = restored_tabs m next olds in
      let same : restore_tabs m ws_idx (snapshot_tabs env panes olds) (next, q.1)
          ≡ restore_tabs m ws_idx (snapshot_tabs env panes olds) q =
        ap (λ n. restore_tabs m ws_idx (snapshot_tabs env panes olds) (n, q.1)) (sym r.counted) in
      record {
        valid = subst (λ (p : Progress). IsValid p.1) same rest.valid;
        workspaces =
            ap (λ (p : Progress). p.1.workspaces) (sym same)
            ∙ rest.workspaces
            ∙ ap (λ wss. set wss ws_idx (record ws { tabs = (ws.tabs ++ tab ∷ []) ++ later }))
                r.workspaces
            ∙ set-set s.workspaces ws_idx (push_tab tab ws) _
            ∙ ap (λ (ts : List SessionTab). set s.workspaces ws_idx (record ws { tabs = ts }))
                (append_assoc ws.tabs (tab ∷ []) later);
      }
