-- ===== src/Session/Deletion.antt =====
-- manager.rs: a `delete_workspace` that succeeds.
use forgetty.Base.{
  ℕ, ◌<◌, ◌≡◌, refl, sym, ap, ◌∙◌, List, [], ◌∷◌, ◌++◌, false, some, arith, length, get_elem?,
  remove_at, has, has-remove, map, append_assoc, append-nil, count, ltb, leb, if◌then◌else◌,
}
use forgetty.Session.Tree.{collect_pane_ids}
use forgetty.Session.Tree.Leaves.{leaves, collect_pane_ids-leaves}
use forgetty.Session.State.{
  SessionTab, SessionWorkspace, SessionManagerInner, ok, at_workspace, pane_closed,
  workspace_deleted, send,
}
use forgetty.Session.Workspaces.{
  collect_tabs, delete_pane, delete_panes, remove_workspace, delete_workspace,
}
use forgetty.Session.Invariant.{ws_occurs, forget_pane_rest}
use forgetty.Session.Invariant.Removal.{
  count-collect_tabs, delete_panes-Removed, event_tx-delete_panes,
}

-- The leaves of the tabs, from left to right.
abbrev pub tab_leaves : List SessionTab → List ℕ
tab_leaves [] = []
tab_leaves (tab ∷ tabs) = leaves tab.pane_tree ++ tab_leaves tabs

collect_tabs-tab_leaves :
    (tabs : List SessionTab) (out : List ℕ) → collect_tabs tabs out ≡ out ++ tab_leaves tabs
unfolding collect_tabs
collect_tabs-tab_leaves [] out = sym (append-nil out)
collect_tabs-tab_leaves (tab ∷ tabs) out =
    collect_tabs-tab_leaves tabs (collect_pane_ids tab.pane_tree out)
    ∙ ap (λ o. o ++ tab_leaves tabs) (collect_pane_ids-leaves tab.pane_tree out)
    ∙ append_assoc out (leaves tab.pane_tree) (tab_leaves tabs)

has_log-delete_panes :
    (pids : List ℕ) (s : SessionManagerInner) (a : ℕ)
    → has a (delete_panes pids s).byte_logs
      ≡ (if ltb 0 (count a pids) then false else has a s.byte_logs)
unfolding delete_panes delete_pane
has_log-delete_panes [] s a = ground arith
has_log-delete_panes (pid ∷ pids) s a = ground (
  arith,
  has_log-delete_panes pids (delete_pane pid s) a,
  ap (has a) (forget_pane_rest pid s).3,
  has-remove pid a s.byte_logs,
)

-- What is left after the workspace `ws` at `idx` was deleted.
pub record Deleted (idx : ℕ) (ws : SessionWorkspace) (s t : SessionManagerInner) : Type 0 where
  pub workspaces : t.workspaces ≡ remove_at s.workspaces idx
  pub events :
      t.event_tx
      ≡ (s.event_tx ++ map pane_closed (tab_leaves ws.tabs)) ++ workspace_deleted idx ws.id ∷ []
  pub panes : (a : ℕ) → has a t.panes ≡ (if ltb 0 (ws_occurs a ws) then false else has a s.panes)
  pub logs :
      (a : ℕ) → has a t.byte_logs ≡ (if ltb 0 (ws_occurs a ws) then false else has a s.byte_logs)

-- Deleting a workspace that is not the only one succeeds. Only it leaves the list; exactly the panes
-- of its trees leave the registry, with their byte logs; and subscribers are told of each of these
-- panes, from left to right, and then of the workspace, and of nothing else.
pub delete_workspace-Deleted :
    (idx : ℕ) (ws : SessionWorkspace) (s : SessionManagerInner)
    → get_elem? s.workspaces idx ≡ some ws
    → 1 < length s.workspaces
    → ((delete_workspace idx s).1 ≡ ok tt) × Deleted idx ws s (delete_workspace idx s).0
unfolding delete_workspace remove_workspace send
delete_workspace-Deleted idx ws s e more =
    let pids = collect_tabs ws.tabs [] in
    let removed = delete_panes-Removed pids s in
    let several : leb (length s.workspaces) 1 ≡ false = ground arith in
    let occ = λ (a : ℕ). count-collect_tabs a ws.tabs [] in
    rw (e, at_workspace, several)
      (
        refl,
        record {
          workspaces = ap (λ l. remove_at l.workspaces idx) removed.layout;
          events =
              ap (λ es. es ++ workspace_deleted idx ws.id ∷ [])
                (event_tx-delete_panes pids s
                  ∙ ap (λ ps. s.event_tx ++ map pane_closed ps)
                      (collect_tabs-tab_leaves ws.tabs []));
          panes = λ a. ground (arith, removed.registered a, occ a);
          logs = λ a. ground (arith, has_log-delete_panes pids s a, occ a);
        },
      )
