-- ===== src/Session/Invariant/Quiet.antt =====
-- Well-formedness of the state after a change of manager.rs that leaves the leaves and the registered ids alone.
use forgetty.Base.{
  ℕ, ◌≡◌, refl, ap, String, List, [], ◌∷◌, Bool, true, false, Option, none, some, arith, length,
  lookup, lookup-cons, has, has-modify, modify, count, All, sum_by, Option-cases, inl, inr,
}
use forgetty.Session.Tree.{PaneTreeLayout, update_ratio_for_pane}
use forgetty.Session.Tree.Ratio.{clamp}
use forgetty.Session.Tree.Leaves.{leaves-update_ratio}
use forgetty.Session.State.{
  call_os, PtySize, PaneState, SessionTab, SessionWorkspace, SessionManagerInner, Env, Result,
  Result-cases, set_workspaces, send, set_pinned, set_byte_log_config,
}
use forgetty.Session.Registry.{close_pane_byte_log}
use forgetty.Session.Panes.{
  ratio_in_tabs, ratio_in_workspaces, update_split_ratios, set_pane_cwd, resize_pane,
}
use forgetty.Session.Output.{
  refresh_cwd, process_pane_bytes, send_sigint, write_pty, kill_each, kill_all,
}
use forgetty.Session.Snapshot.{refresh_pane_cwds, snapshot_to_workspace_state}
use forgetty.Session.Invariant.{
  tab_occurs, layout_occurs, tab_has_id, layout_tab_ids, InTree, IsFocused, WsIsValid, IsValid,
  Agrees, Agrees-IsValid, Agrees-refl, Agrees-trans,
}

module _ (pane_id ratio : ℕ) where
  abbrev changed : PaneTreeLayout → PaneTreeLayout
  changed tree = (update_ratio_for_pane tree pane_id ratio).0

  -- The focus, the leaves and the ids of the tabs stay.
  tabs_same :
      (a : ℕ) (tabs : List SessionTab)
      → (sum_by (tab_occurs a) (ratio_in_tabs pane_id ratio tabs) ≡ sum_by (tab_occurs a) tabs)
        × (sum_by (tab_has_id a) (ratio_in_tabs pane_id ratio tabs) ≡ sum_by (tab_has_id a) tabs)
        × (length (ratio_in_tabs pane_id ratio tabs) ≡ length tabs)
  unfolding ratio_in_tabs
  tabs_same a [] = (refl, refl, refl)
  tabs_same a (tab ∷ tabs) =
      let (occ, ids, len) = tabs_same a tabs in
      (
        omega (arith, occ, ap (count a) (leaves-update_ratio tab.pane_tree pane_id ratio)),
        omega (arith, ids),
        omega (arith, len),
      )

  InTree-changed : (p : Option ℕ) (tree : PaneTreeLayout) → InTree p tree → InTree p (changed tree)
  InTree-changed none tree h = tt
  InTree-changed (some p) tree h =
      omega (arith, h, ap (count p) (leaves-update_ratio tree pane_id ratio))

  IsFocused-same :
      (tabs : List SessionTab)
      → All IsFocused tabs
      → All IsFocused (ratio_in_tabs pane_id ratio tabs)
  unfolding ratio_in_tabs
  IsFocused-same [] h = tt
  IsFocused-same (tab ∷ tabs) h =
      (InTree-changed tab.active_pane_id tab.pane_tree h.0, IsFocused-same tabs h.1)

  workspaces_same :
      (a : ℕ) (wss : List SessionWorkspace)
      → (layout_occurs a (ratio_in_workspaces pane_id ratio wss) ≡ layout_occurs a wss)
        × (layout_tab_ids a (ratio_in_workspaces pane_id ratio wss) ≡ layout_tab_ids a wss)
        × (length (ratio_in_workspaces pane_id ratio wss) ≡ length wss)
  unfolding ratio_in_workspaces
  workspaces_same a [] = (refl, refl, refl)
  workspaces_same a (ws ∷ wss) =
      let (occ, ids, len) = workspaces_same a wss in
      let (occ', ids', _) = tabs_same a ws.tabs in
      (omega (arith, occ, occ'), omega (arith, ids, ids'), omega (arith, len))

  each_same :
      (wss : List SessionWorkspace)
      → All WsIsValid wss
      → All WsIsValid (ratio_in_workspaces pane_id ratio wss)
  unfolding ratio_in_workspaces
  each_same [] h = tt
  each_same (ws ∷ wss) h = (
    record {
      active = omega (arith, h.0.active, (tabs_same 0 ws.tabs).2);
      focused = IsFocused-same ws.tabs h.0.focused;
    },
    each_same wss h.1,
  )

  ratio-IsValid :
      (s : SessionManagerInner)
      → IsValid s
      → IsValid (set_workspaces (ratio_in_workspaces pane_id ratio s.workspaces) s)
  unfolding set_workspaces
  ratio-IsValid s v =
      let same = λ (a : ℕ). workspaces_same a s.workspaces in
      record {
        active = omega (arith, v.active, (same 0).2);
        each = each_same s.workspaces v.each;
        ordered = v.ordered;
        placed = λ a. omega (arith, v.placed a, (same a).0);
        once = λ a. omega (arith, v.once a, (same a).0);
        tab_once = λ t. omega (arith, v.tab_once t, (same t).1);
      }

pub update_split_ratios-IsValid :
    (updates : List (ℕ × ℕ)) (s : SessionManagerInner)
    → IsValid s
    → IsValid (update_split_ratios updates s)
unfolding update_split_ratios
update_split_ratios-IsValid [] s v = v
update_split_ratios-IsValid ((pane_id, ratio) ∷ updates) s v =
    update_split_ratios-IsValid updates _ (ratio-IsValid pane_id (clamp ratio) s v)

modify-Agrees :
    (id : ℕ) (f : PaneState → PaneState) (s : SessionManagerInner)
    → Agrees s (record s { panes = modify id f s.panes })
modify-Agrees id f s = record {
  layout = refl;
  order = refl;
  registered = λ a. has-modify id a f s.panes;
}

pub set_pane_cwd-IsValid :
    (id : ℕ) (cwd : String) (s : SessionManagerInner) → IsValid s → IsValid (set_pane_cwd id cwd s)
unfolding set_pane_cwd
set_pane_cwd-IsValid id cwd s v = Agrees-IsValid (modify-Agrees id _ s) v

pub resize_pane-IsValid :
    (resized : Result (Unit {0})) (id : ℕ) (size : PtySize) (s : SessionManagerInner)
    → IsValid s
    → IsValid (resize_pane resized id size s).0
unfolding resize_pane
resize_pane-IsValid resized id size s v = elim (Option-cases (lookup id s.panes)) [
  | inl gone ↦ rw (gone, resize_pane) v
  | inr (pane, there) ↦ elim (Result-cases resized) [
    | inr (e, failed) ↦ rw (there, failed, resize_pane) v
    | inl (u, done) ↦ rw (there, done, resize_pane) (Agrees-IsValid (modify-Agrees id _ s) v)
  ]
]

pub process_pane_bytes-IsValid :
    (env : Env) (id : ℕ) (bytes : List ℕ) (s : SessionManagerInner)
    → IsValid s
    → IsValid (process_pane_bytes env id bytes s).0
unfolding process_pane_bytes send
process_pane_bytes-IsValid env id bytes s v = elim (Option-cases (lookup id s.panes)) [
  | inl gone ↦ rw (gone, process_pane_bytes) v
  | inr (pane, there) ↦
      rw (there, process_pane_bytes)
        (Agrees-IsValid
          (record {
            layout = refl;
            order = refl;
            registered = λ a. has-modify id a (refresh_cwd env) s.panes;
          })
          v)
]

has-refresh_pane_cwds :
    (env : Env) (a : ℕ) (panes : List (ℕ × PaneState))
    → has a (refresh_pane_cwds env panes) ≡ has a panes
unfolding refresh_pane_cwds
has-refresh_pane_cwds env a [] = refl
has-refresh_pane_cwds env a ((id, pane) ∷ panes) = ground (
  arith,
  has-refresh_pane_cwds env a panes,
  lookup-cons a id pane panes,
  lookup-cons a id (refresh_cwd env pane) (refresh_pane_cwds env panes),
)

pub snapshot-IsValid :
    (env : Env) (s : SessionManagerInner)
    → IsValid s
    → IsValid (snapshot_to_workspace_state env s).0
unfolding snapshot_to_workspace_state
snapshot-IsValid env s v =
    Agrees-IsValid
      (record {
        layout = refl;
        order = refl;
        registered = λ a. has-refresh_pane_cwds env a s.panes;
      })
      v

pub write_pty-Agrees :
    (written : Result (Unit {0})) (id : ℕ) (bytes : List ℕ) (s : SessionManagerInner)
    → Agrees s (write_pty written id bytes s).0
unfolding write_pty
write_pty-Agrees written id bytes s = record {
  layout = ground arith;
  order = ground arith;
  registered = λ a. ground arith;
}

pub send_sigint-Agrees :
    (my_pid : ℕ) (comm : Option String) (foreground : Option ℕ) (id : ℕ) (s : SessionManagerInner)
    → Agrees s (send_sigint my_pid comm foreground id s)
unfolding send_sigint
send_sigint-Agrees my_pid comm foreground id s = record {
  layout = ground arith;
  order = ground arith;
  registered = λ a. ground arith;
}

pub close_pane_byte_log-Agrees :
    (id : ℕ) (s : SessionManagerInner) → Agrees s (close_pane_byte_log id s)
unfolding close_pane_byte_log
close_pane_byte_log-Agrees id s = record { layout = refl; order = refl; registered = λ a. refl }

pub set_byte_log_config-Agrees :
    (ring_kb max_mb : ℕ) (s : SessionManagerInner) → Agrees s (set_byte_log_config ring_kb max_mb s)
unfolding set_byte_log_config
set_byte_log_config-Agrees ring_kb max_mb s = record {
  layout = refl;
  order = refl;
  registered = λ a. refl;
}

pub set_pinned-Agrees : (pinned : Bool) (s : SessionManagerInner) → Agrees s (set_pinned pinned s)
unfolding set_pinned
set_pinned-Agrees pinned s = record { layout = refl; order = refl; registered = λ a. refl }

kill_each-Agrees :
    (panes : List (ℕ × PaneState)) (s : SessionManagerInner) → Agrees s (kill_each panes s)
unfolding kill_each call_os
kill_each-Agrees [] s = Agrees-refl s
kill_each-Agrees ((id, pane) ∷ panes) s =
    Agrees-trans (record { layout = refl; order = refl; registered = λ a. refl })
      (kill_each-Agrees panes _)

pub kill_all-Agrees : (locked : Bool) (s : SessionManagerInner) → Agrees s (kill_all locked s)
unfolding kill_all
kill_all-Agrees true s = Agrees-refl s
kill_all-Agrees false s = kill_each-Agrees s.panes s
