-- ===== src/Session/Invariant/Copies.antt =====
-- Well-formedness of the state after `duplicate_workspace` of manager.rs.
use forgetty.Base.{
  ℕ, suc, ◌+◌, ◌≤◌, ◌<◌, ◌≡◌, refl, sym, ap, subst, map, append-nil, append_assoc, ◌∙◌, min, String,
  List, [], ◌∷◌, ◌++◌, true, Option, none, some, arith, length, length-insert_at, get_elem?,
  insert_at, has, count, count-append, if◌then◌else◌, All, All-insert_at, sum_by, sum_by-insert_at,
  ltb, leb, Option-cases, inl, inr,
}
use forgetty.Session.State.{PtySize, SessionWorkspace, SessionManagerInner, Env, at_workspace, kill}
use forgetty.Session.Registry.{register, new_pane}
use forgetty.Session.Duplicate.{
  Spawned, DuplicatedTab, tab_cwds, spawn_all, kill_spawned, register_all, new_tabs, dup_tabs,
  announce, drain_all, commit, duplicate_workspace,
}
use forgetty.Session.Invariant.Growth.{leaf_tab-IsFocused, occurs-leaf_tab, has_id-leaf_tab}
use forgetty.Session.Invariant.{
  tab_occurs, ws_occurs, layout_occurs, tab_has_id, ws_tab_ids, layout_tab_ids, IsFocused,
  WsIsValid, IsValid, Agrees, Agrees-IsValid, Agrees-refl, Agrees-trans, send-Agrees,
  spawn_drain_task-Agrees, has-register,
}

-- The ids of the panes that were spawned, and the first `n` UUIDs from `k` on.
abbrev pub pane_ids : List Spawned → List ℕ
pane_ids [] = []
pane_ids (p ∷ ps) = p.pane_id ∷ pane_ids ps

abbrev pub uuids : Env → ℕ → List Spawned → List ℕ
uuids env k [] = []
uuids env k (p ∷ ps) = env.new_uuid k ∷ uuids env (suc k) ps

-- They are new to the state, and differ from each other.
pub record AreFresh (env : Env) (spawned : List Spawned) (s : SessionManagerInner) : Type 0 where
  pub new_panes : (a : ℕ) → count a (pane_ids spawned) + layout_occurs a s.workspaces ≤ 1
  pub new_tabs : (t : ℕ) → count t (uuids env 1 spawned) + layout_tab_ids t s.workspaces ≤ 1

pub layout-register_all :
    (env : Env) (size : PtySize) (ps : List Spawned) (s : SessionManagerInner)
    → (register_all env size ps s).layout ≡ s.layout
unfolding register_all
layout-register_all env size [] s = refl
layout-register_all env size (p ∷ ps) s = layout-register_all env size ps _

has-register_all :
    (env : Env) (size : PtySize) (ps : List Spawned) (s : SessionManagerInner) (a : ℕ)
    → has a (register_all env size ps s).panes
      ≡ (if ltb 0 (count a (pane_ids ps)) then true else has a s.panes)
unfolding register_all
has-register_all env size [] s a = ground arith
has-register_all env size (p ∷ ps) s a =
    let pane = new_pane p.pane_id p.bridge p.initial_cwd size in
    ground (
      arith,
      has-register_all env size ps (register p.pane_id pane s) a,
      has-register p.pane_id a pane s,
    )

order-register_all :
    (env : Env) (size : PtySize) (ps : List Spawned) (s : SessionManagerInner) (a : ℕ)
    → count a (register_all env size ps s).pane_order ≡ count a s.pane_order + count a (pane_ids ps)
unfolding register_all register
order-register_all env size [] s a = omega arith
order-register_all env size (p ∷ ps) s a =
    let pane = new_pane p.pane_id p.bridge p.initial_cwd size in
    omega (
      arith,
      order-register_all env size ps (register p.pane_id pane s) a,
      count-append a s.pane_order (p.pane_id ∷ []),
    )

new_tabs_facts :
    (env : Env) (k : ℕ) (ps : List Spawned) (a : ℕ)
    → (sum_by (tab_occurs a) (new_tabs env k ps) ≡ count a (pane_ids ps))
      × (sum_by (tab_has_id a) (new_tabs env k ps) ≡ count a (uuids env k ps))
      × All IsFocused (new_tabs env k ps)
unfolding new_tabs
new_tabs_facts env k [] a = (refl, refl, tt)
new_tabs_facts env k (p ∷ ps) a =
    let (occ, ids, focused) = new_tabs_facts env (suc k) ps a in
    (
      omega (arith, occ, occurs-leaf_tab (env.new_uuid k) p.pane_id a),
      omega (arith, ids, has_id-leaf_tab (env.new_uuid k) p.pane_id a),
      (leaf_tab-IsFocused (env.new_uuid k) p.pane_id, focused),
    )

announce-Agrees :
    (idx : ℕ) (dts : List DuplicatedTab) (s : SessionManagerInner) → Agrees s (announce idx dts s)
unfolding announce
announce-Agrees idx [] s = Agrees-refl s
announce-Agrees idx (dt ∷ dts) s =
    Agrees-trans (Agrees-trans (send-Agrees _ s) (send-Agrees _ _)) (announce-Agrees idx dts _)

drain_all-Agrees :
    (env : Env) (dts : List DuplicatedTab) (s : SessionManagerInner)
    → Agrees s (drain_all env dts s)
unfolding drain_all
drain_all-Agrees env [] s = Agrees-refl s
drain_all-Agrees env (dt ∷ dts) s =
    Agrees-trans (spawn_drain_task-Agrees env dt.pane_id s) (drain_all-Agrees env dts _)

-- The end of `duplicate_workspace`: the events of the tabs, and the drain tasks.
pub finish-Agrees :
    (env : Env) (idx : ℕ) (dts : List DuplicatedTab) (s : SessionManagerInner)
    → Agrees s (drain_all env dts (announce idx dts s))
finish-Agrees env idx dts s =
    Agrees-trans (announce-Agrees idx dts s) (drain_all-Agrees env dts (announce idx dts s))

-- The state of Phase 3 before the events: the panes registered and the workspace inserted.
inserted-IsValid :
    (env : Env) (size : PtySize) (ps : List Spawned) (idx active : ℕ) (ws : SessionWorkspace)
    (s : SessionManagerInner)
    → ws.tabs ≡ new_tabs env 1 ps
    → ws.active_tab ≡ 0
    → active < suc (length s.workspaces)
    → AreFresh env ps s
    → IsValid s
    → IsValid (record (register_all env size ps s) {
      layout = record { workspaces = insert_at s.workspaces idx ws; active_workspace = active };
    })
inserted-IsValid env size ps idx active ws s tabs zero_tab lt fresh v =
    let occ = λ (a : ℕ). ap (sum_by (tab_occurs a)) tabs ∙ (new_tabs_facts env 1 ps a).0 in
    let ids = λ (t : ℕ). ap (sum_by (tab_has_id t)) tabs ∙ (new_tabs_facts env 1 ps t).1 in
    record {
      active = omega (arith, lt, length-insert_at s.workspaces idx ws);
      each = All-insert_at WsIsValid s.workspaces idx ws v.each (record {
        active = omega arith;
        focused = subst (All IsFocused) (sym tabs) (new_tabs_facts env 1 ps 0).2;
      });
      ordered = λ a. ground (
        arith,
        v.ordered a,
        v.placed a,
        fresh.new_panes a,
        has-register_all env size ps s a,
        order-register_all env size ps s a,
      );
      placed = λ a. ground (
        arith,
        v.placed a,
        has-register_all env size ps s a,
        sum_by-insert_at (ws_occurs a) s.workspaces idx ws,
        occ a,
      );
      once = λ a.
          omega
            (arith, fresh.new_panes a, sum_by-insert_at (ws_occurs a) s.workspaces idx ws, occ a);
      tab_once = λ t.
          omega
            (arith, fresh.new_tabs t, sum_by-insert_at (ws_tab_ids t) s.workspaces idx ws, ids t);
    }

follow_insert-lt :
    (idx active n : ℕ) → active < n → (if leb idx active then active + 1 else active) < suc n
follow_insert-lt idx active n h = ground arith

commit-IsValid :
    (env : Env) (size : PtySize) (name : String) (at : ℕ) (ps : List Spawned)
    (s : SessionManagerInner)
    → AreFresh env ps s
    → IsValid s
    → IsValid (commit env size name at ps s).0
unfolding commit
commit-IsValid env size name at ps s fresh v =
    let idx = min at (length s.workspaces) in
    let same = layout-register_all env size ps s in
    Agrees-IsValid (Agrees-trans (send-Agrees _ _) (finish-Agrees env idx (dup_tabs env 1 ps) _)) (
      rw same (
        inserted-IsValid env size ps idx _ _ s refl refl
          (follow_insert-lt idx s.active_workspace (length s.workspaces) v.active) fresh v))

pub kill_spawned-Agrees :
    (ps : List Spawned) (s : SessionManagerInner) → Agrees s (kill_spawned ps s)
unfolding kill_spawned
kill_spawned-Agrees [] s = Agrees-refl s
kill_spawned-Agrees (p ∷ ps) s =
    Agrees-trans (record { layout = refl; order = refl; registered = λ a. refl })
      (kill_spawned-Agrees ps _)

-- The directories that a copy of the workspace at `idx` starts in; none if there is no workspace.
abbrev pub source_cwds : ℕ → SessionManagerInner → List (Option String)
source_cwds idx s = elim (get_elem? s.workspaces idx) [
  | none ↦ []
  | some ws ↦ tab_cwds s.panes ws.tabs
]

pub duplicate_workspace-IsValid :
    (env : Env) (idx : ℕ) (name : Option String) (size : PtySize) (s : SessionManagerInner)
    → AreFresh env (spawn_all env size 0 (source_cwds idx s)).0 s
    → IsValid s
    → IsValid (duplicate_workspace env idx name size s).0
unfolding duplicate_workspace
duplicate_workspace-IsValid env idx name size s fresh v =
    elim (Option-cases (get_elem? s.workspaces idx)) [
      | inl out ↦ rw (out, at_workspace) v
      | inr (ws, e) ↦
          let spawned = spawn_all env size 0 (tab_cwds s.panes ws.tabs) in
          let new =
            subst
              (λ o.
                AreFresh env
                  (spawn_all env size 0 (elim o [ none ↦ [] | some w ↦ tab_cwds s.panes w.tabs ])).0
                  s)
              e fresh in
          elim (Option-cases spawned.1) [
            | inl done ↦
                rw (e, at_workspace, done) (commit-IsValid env size _ (idx + 1) spawned.0 s new v)
            | inr (x, failed) ↦
                rw (e, at_workspace, failed) (Agrees-IsValid (kill_spawned-Agrees spawned.0 s) v)
          ]
    ]

-- What a failed copy leaves behind: nothing in the manager, and a kill for each process that was
-- spawned, in order.
pub os-kill_spawned :
    (ps : List Spawned) (s : SessionManagerInner)
    → kill_spawned ps s ≡ record s { os = s.os ++ map (λ p. kill p.bridge.handle) ps }
unfolding kill_spawned
os-kill_spawned [] s = λ i. record s { os = sym (append-nil s.os) i }
os-kill_spawned (p ∷ ps) s = os-kill_spawned ps _ ∙ λ i. record s {
  os = append_assoc s.os (kill p.bridge.handle ∷ []) (map (λ p. kill p.bridge.handle) ps) i;
}
