-- ===== src/Session/Panes.antt =====
-- manager.rs: the operations on single panes.
use forgetty.Base.{
  ℕ, ◌+◌, String, List, [], ◌∷◌, Bool, true, false, Option, none, some, length, lookup, has, remove,
  modify, retain_ne, ◌==◌, if◌then◌else◌, unwrap_or,
}
use forgetty.Session.Tree.{
  PaneTreeLayout, leaf, split, replace_leaf_with_ratio, update_ratio_for_pane,
}
use forgetty.Session.Tree.Ratio.{half, clamp}
use forgetty.Session.State.{
  PtySize, PaneInfo, SessionTab, SessionWorkspace, SessionManagerInner, Env, Result, ok, err,
  Outcome, pane_not_found, pane_not_in_tree, pane_created, pane_closed, pane_split, send,
  set_workspaces,
}
use forgetty.Session.Registry.{
  spawn_bridge, new_pane, register, leaf_tab, spawn_drain_task, forget_pane,
}
use forgetty.Session.Tabs.{push_tab, keep_tabs, seed_if_empty, is_empty}

-- `if let Some(ws) = inner.layout.workspaces.first_mut() { ws.tabs.push(tab); }`
unfoldable pub push_first : SessionTab → List SessionWorkspace → List SessionWorkspace
push_first tab [] = []
push_first tab (ws ∷ workspaces) = push_tab tab ws ∷ workspaces

-- The pane becomes a tab of the first workspace; only `PaneCreated` is sent.
unfoldable pub create_pane :
    Env
    → PtySize
    → Option String
    → Option (List String)
    → Option String
    → Bool
    → SessionManagerInner
    → Outcome ℕ
unfolding send set_workspaces register push_first
create_pane env size cwd command shell login_shell s =
    elim (spawn_bridge env 0 size cwd command shell login_shell) [
      | err e ↦ (s, err e)
      | ok bridge ↦
          let id = env.new_pane_id 0 in
          let pane = new_pane id bridge (unwrap_or cwd env.home_dir_fallback) size in
          let tab = leaf_tab (env.new_uuid 0) id in
          let s1 = set_workspaces (push_first tab s.workspaces) (register id pane s) in
          (spawn_drain_task env id (send (pane_created id) s1), ok id)
    ]

-- The loop over the tabs of a workspace that ends at the first tab where the leaf was replaced:
-- the tabs, and the id of that tab.
unfoldable pub split_in_tabs : ℕ → ℕ → String → ℕ → List SessionTab → List SessionTab × Option ℕ
split_in_tabs target new_pane_id direction ratio [] = ([], none)
split_in_tabs target new_pane_id direction ratio (tab ∷ tabs) =
    let (tree, replaced) =
      replace_leaf_with_ratio tab.pane_tree target new_pane_id direction ratio in
    let (tabs', found) = split_in_tabs target new_pane_id direction ratio tabs in
    if replaced then (record tab { pane_tree = tree } ∷ tabs, some tab.id) else (tab ∷ tabs', found)

unfoldable pub split_in_workspaces :
    ℕ → ℕ → String → ℕ → List SessionWorkspace → List SessionWorkspace × Option ℕ
unfolding split_in_tabs
split_in_workspaces target new_pane_id direction ratio [] = ([], none)
split_in_workspaces target new_pane_id direction ratio (ws ∷ workspaces) =
    let (tabs, found) = split_in_tabs target new_pane_id direction ratio ws.tabs in
    let (workspaces', found') = split_in_workspaces target new_pane_id direction ratio workspaces in
    elim found [
      | some tab_id ↦ (record ws { tabs = tabs } ∷ workspaces, some tab_id)
      | none ↦ (ws ∷ workspaces', found')
    ]

-- The new pane is taken out of the registry again if the target is in no tree; its process and the
-- others are left alone.
unfoldable pub split_pane_with_ratio_and_pane_id :
    Env → ℕ → String → ℕ → PtySize → Option String → ℕ → SessionManagerInner → Outcome ℕ
unfolding send set_workspaces register split_in_workspaces
split_pane_with_ratio_and_pane_id env pane_id direction ratio size cwd new_pane_id s =
    if has pane_id s.panes
    then (elim (spawn_bridge env 0 size cwd none none true) [
      | err e ↦ (s, err e)
      | ok bridge ↦
          let pane = new_pane new_pane_id bridge (unwrap_or cwd env.home_dir_fallback) size in
          let s1 = register new_pane_id pane s in
          let (workspaces, found) =
            split_in_workspaces pane_id new_pane_id direction ratio s1.workspaces in
          elim found [
            | none ↦ (
              record s1 {
                panes = remove new_pane_id s1.panes;
                pane_order = retain_ne new_pane_id s1.pane_order;
              },
              err (pane_not_in_tree pane_id),
            )
            | some tab_id ↦
                let s2 = send (pane_created new_pane_id) (set_workspaces workspaces s1) in
                let s3 = send (pane_split tab_id pane_id new_pane_id direction) s2 in
                (spawn_drain_task env new_pane_id s3, ok new_pane_id)
          ]
    ])
    else (s, err (pane_not_found pane_id))

unfoldable pub split_pane_with_ratio :
    Env → ℕ → String → ℕ → PtySize → Option String → SessionManagerInner → Outcome ℕ
split_pane_with_ratio env pane_id direction ratio size cwd s =
    split_pane_with_ratio_and_pane_id env pane_id direction ratio size cwd (env.new_pane_id 0) s

-- The source repeats the body above with `replace_leaf`, whose ratio is 0.5.
unfoldable pub split_pane :
    Env → ℕ → String → PtySize → Option String → SessionManagerInner → Outcome ℕ
split_pane env pane_id direction size cwd s =
    split_pane_with_ratio_and_pane_id env pane_id direction half size cwd (env.new_pane_id 0) s

-- `matches!(&t.pane_tree, Leaf { pane_id } if *pane_id == id)`
abbrev pub is_leaf_of : ℕ → PaneTreeLayout → Bool
is_leaf_of id (leaf pane_id) = pane_id == id
is_leaf_of id (split d r first second) = false

-- `ws.tabs.retain(…)`
unfoldable pub retain_tabs : ℕ → List SessionTab → List SessionTab
retain_tabs id [] = []
retain_tabs id (tab ∷ tabs) =
    let rest = retain_tabs id tabs in if is_leaf_of id tab.pane_tree then rest else tab ∷ rest

-- The loop over the workspaces, which ends at the first one that lost a tab: the workspaces, and
-- the index of one that became empty.
unfoldable pub drop_leaf_tab : ℕ → ℕ → List SessionWorkspace → List SessionWorkspace × Option ℕ
unfolding retain_tabs keep_tabs
drop_leaf_tab i id [] = ([], none)
drop_leaf_tab i id (ws ∷ workspaces) =
    let tabs = retain_tabs id ws.tabs in
    let (workspaces', emptied) = drop_leaf_tab (i + 1) id workspaces in
    if length ws.tabs == length tabs
    then (ws ∷ workspaces', emptied)
    else (keep_tabs tabs ws ∷ workspaces, if is_empty tabs then some i else none)

-- It succeeds whether or not the pane is there.
unfoldable pub close_pane : Env → ℕ → SessionManagerInner → SessionManagerInner
unfolding send set_workspaces drop_leaf_tab
close_pane env id s =
    if has id s.panes
    then (let (workspaces, emptied) = drop_leaf_tab 0 id s.workspaces in
        let closed = send (pane_closed id) (set_workspaces workspaces (forget_pane id s)) in
        elim emptied [ none ↦ closed | some idx ↦ seed_if_empty env idx closed ])
    else s

unfoldable pub ratio_in_tabs : ℕ → ℕ → List SessionTab → List SessionTab
ratio_in_tabs pane_id ratio [] = []
ratio_in_tabs pane_id ratio (tab ∷ tabs) =
    record tab { pane_tree = (update_ratio_for_pane tab.pane_tree pane_id ratio).0 }
    ∷ ratio_in_tabs pane_id ratio tabs

unfoldable pub ratio_in_workspaces : ℕ → ℕ → List SessionWorkspace → List SessionWorkspace
unfolding ratio_in_tabs
ratio_in_workspaces pane_id ratio [] = []
ratio_in_workspaces pane_id ratio (ws ∷ workspaces) =
    record ws { tabs = ratio_in_tabs pane_id ratio ws.tabs }
    ∷ ratio_in_workspaces pane_id ratio workspaces

-- Every tab of every workspace is visited for each update.
unfoldable pub update_split_ratios : List (ℕ × ℕ) → SessionManagerInner → SessionManagerInner
unfolding ratio_in_workspaces set_workspaces
update_split_ratios [] s = s
update_split_ratios ((pane_id, ratio) ∷ updates) s =
    update_split_ratios updates
      (set_workspaces (ratio_in_workspaces pane_id (clamp ratio) s.workspaces) s)

unfoldable pub set_pane_cwd : ℕ → String → SessionManagerInner → SessionManagerInner
set_pane_cwd id cwd s = record s { panes = modify id (λ pane. record pane { cwd = cwd }) s.panes }

-- The ioctl's answer is an argument; the size is written only if it succeeds.
unfoldable pub resize_pane :
    Result (Unit {0}) → ℕ → PtySize → SessionManagerInner → Outcome (Unit {0})
resize_pane resized id size s = elim (lookup id s.panes) [
  | none ↦ (s, err (pane_not_found id))
  | some pane ↦ elim resized [
    | err e ↦ (s, err e)
    | ok _ ↦ (
      record s { panes = modify id (λ p. record p { rows = size.rows; cols = size.cols }) s.panes },
      ok tt,
    )
  ]
]

unfoldable pub pane_info : ℕ → SessionManagerInner → Option PaneInfo
pane_info id s = elim (lookup id s.panes) [
  | none ↦ none
  | some pane ↦ some (record {
    id = pane.id;
    pid = pane.pty_bridge.pid;
    rows = pane.rows;
    cols = pane.cols;
    cwd = pane.cwd;
    title = pane.title;
  })
]
