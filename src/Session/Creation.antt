-- ===== src/Session/Creation.antt =====
-- manager.rs: `create_tab_with_pane_id`, on every branch.
use forgetty.Base.{
  ◌≢◌, sym, subst, length, get_elem?-set_self, get_elem?-set_ne, get_elem?-lt, Option-cases, inl,
  inr, ℕ, ◌≡◌, refl, ap, ◌∙◌, String, List, [], ◌∷◌, ◌++◌, true, Option, none, some, get_elem?, set,
  has, ◌==◌, if◌then◌else◌,
}
use forgetty.Session.Tree.{leaf}
use forgetty.Session.State.{
  PtySize, PtyBridge, SessionWorkspace, SessionManagerInner, Env, Error, Result, ok, err, Outcome,
  Result-cases, workspace_out_of_bounds, at_workspace, send, set_workspaces, pane_created,
  tab_created,
}
use forgetty.Session.Registry.{spawn_bridge, register, leaf_tab}
use forgetty.Session.Tabs.{push_tab, create_tab_with_pane_id}
use forgetty.Session.Invariant.{has-register, spawn_drain_task-Agrees, event_tx-spawn_drain_task}

-- The workspace with a further tab at the end, which has the pane as its only leaf and no focus.
abbrev pub with_last : ℕ → ℕ → SessionWorkspace → SessionWorkspace
with_last tab_id pane_id ws = record ws {
  tabs =
      ws.tabs
      ++ record { id = tab_id; title = ""; pane_tree = leaf pane_id; active_pane_id = none } ∷ [];
}

-- What a new tab with a new pane in the workspace `ws` made of `s`: the others have the positions that
-- they had.
pub record TabAdded (idx tab_id pane_id : ℕ) (ws : SessionWorkspace) (s t : SessionManagerInner)
    : Type 0 where
  pub there : get_elem? s.workspaces idx ≡ some ws
  pub changed : get_elem? t.workspaces idx ≡ some (with_last tab_id pane_id ws)
  pub others : (i : ℕ) → idx ≢ i → get_elem? t.workspaces i ≡ get_elem? s.workspaces i
  pub active : t.active_workspace ≡ s.active_workspace
  pub events :
      t.event_tx ≡ (s.event_tx ++ pane_created pane_id ∷ []) ++ tab_created idx tab_id pane_id ∷ []
  pub panes : (a : ℕ) → has a t.panes ≡ (if pane_id == a then true else has a s.panes)

-- The same by the code's own words.
pub record TabMade (idx tab_id pane_id : ℕ) (ws : SessionWorkspace) (s t : SessionManagerInner)
    : Type 0 where
  pub workspaces : t.workspaces ≡ set s.workspaces idx (push_tab (leaf_tab tab_id pane_id) ws)
  pub active : t.active_workspace ≡ s.active_workspace
  pub events :
      t.event_tx ≡ (s.event_tx ++ pane_created pane_id ∷ []) ++ tab_created idx tab_id pane_id ∷ []
  pub panes : (a : ℕ) → has a t.panes ≡ (if pane_id == a then true else has a s.panes)

-- How a call for a new tab ends. `spawned` is the answer of the spawn.
pub data TabCreated (idx tab_id pane_id : ℕ) (spawned : Result PtyBridge) (s : SessionManagerInner)
    : Outcome (ℕ × ℕ) → Type 0 where
  no_workspace :
      get_elem? s.workspaces idx ≡ none
      → TabCreated idx tab_id pane_id spawned s
          (s, err (workspace_out_of_bounds idx (length s.workspaces)))
  no_process :
      (ws : SessionWorkspace) (e : Error)
      → get_elem? s.workspaces idx ≡ some ws
      → spawned ≡ err e
      → TabCreated idx tab_id pane_id spawned s (s, err e)
  made :
      (ws : SessionWorkspace) (bridge : PtyBridge) (t : SessionManagerInner)
      → spawned ≡ ok bridge
      → TabAdded idx tab_id pane_id ws s t
      → TabCreated idx tab_id pane_id spawned s (t, ok (pane_id, tab_id))

pub create_tab-TabMade :
    (env : Env) (idx : ℕ) (cwd : Option String) (size : PtySize) (command : Option (List String))
    (pane_id : ℕ) (bridge : PtyBridge) (ws : SessionWorkspace) (s : SessionManagerInner)
    → get_elem? s.workspaces idx ≡ some ws
    → spawn_bridge env 0 size cwd command none true ≡ ok bridge
    → let o = create_tab_with_pane_id env idx cwd size command pane_id s in
      (o.1 ≡ ok (pane_id, env.new_uuid 0)) × TabMade idx (env.new_uuid 0) pane_id ws s o.0
unfolding create_tab_with_pane_id send set_workspaces register
create_tab-TabMade env idx cwd size command pane_id bridge ws s e spawned =
    rw (e, at_workspace, spawned)
      (
        refl,
        (let drained = spawn_drain_task-Agrees env pane_id _ in
            record {
              workspaces = ap (λ l. l.workspaces) drained.layout;
              active = ap (λ l. l.active_workspace) drained.layout;
              events = event_tx-spawn_drain_task env pane_id _;
              panes = λ a. drained.registered a ∙ has-register pane_id a _ s;
            }),
      )

TabMade-TabAdded :
    (idx tab_id pane_id : ℕ) (ws : SessionWorkspace) (s t : SessionManagerInner)
    → get_elem? s.workspaces idx ≡ some ws
    → TabMade idx tab_id pane_id ws s t
    → TabAdded idx tab_id pane_id ws s t
unfolding leaf_tab
TabMade-TabAdded idx tab_id pane_id ws s t e new = record {
  there = e;
  changed =
      ap (λ l. get_elem? l idx) new.workspaces
      ∙ get_elem?-set_self s.workspaces idx _ (get_elem?-lt s.workspaces idx ws e);
  others =
      λ i other. ap (λ l. get_elem? l i) new.workspaces ∙ get_elem?-set_ne s.workspaces _ other;
  active = new.active;
  events = new.events;
  panes = new.panes;
}

-- A call for a new tab fails and changes nothing if the workspace does not exist, or if the process
-- cannot be spawned. Otherwise it succeeds: the tab stands at the end of that workspace with the new
-- pane as its only leaf, no other tab or workspace and no active index changes, only the new pane is
-- added to the registry, and subscribers are told of the pane and then of the tab, and of nothing else.
pub create_tab-TabCreated :
    (env : Env) (idx : ℕ) (cwd : Option String) (size : PtySize) (command : Option (List String))
    (pane_id : ℕ) (s : SessionManagerInner)
    → TabCreated idx
        (env.new_uuid 0)
        pane_id
        (spawn_bridge env 0 size cwd command none true)
        s
        (create_tab_with_pane_id env idx cwd size command pane_id s)
unfolding create_tab_with_pane_id
create_tab-TabCreated env idx cwd size command pane_id s =
    let spawned = spawn_bridge env 0 size cwd command none true in
    elim (Option-cases (get_elem? s.workspaces idx)) [
      | inl missing ↦ rw (missing, at_workspace) (no_workspace missing)
      | inr (ws, e) ↦ elim (Result-cases spawned) [
        | inr (why, failed) ↦ rw (e, at_workspace, failed) (no_process ws why e refl)
        | inl (bridge, good) ↦
            let (done, new) =
              create_tab-TabMade env idx cwd size command pane_id bridge ws s e good in
            subst
              (λ r.
                TabCreated idx (env.new_uuid 0) pane_id spawned s
                  ((create_tab_with_pane_id env idx cwd size command pane_id s).0, r))
              (sym done) (made ws bridge _ good (TabMade-TabAdded idx _ pane_id ws s _ e new))
      ]
    ]
