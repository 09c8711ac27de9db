-- ===== src/Session/Invariant/Removal.antt =====
-- The loops of `delete_workspace` and `close_tab`, manager.rs, which close the listed panes.
use forgetty.Base.{
  ℕ, ◌+◌, ◌≡◌, refl, sym, ap, ◌∙◌, List, [], ◌∷◌, ◌++◌, false, arith, has, count, count-append,
  count-retain_ne, if◌then◌else◌, sum_by, ltb, map, append_assoc, append-nil, Bool-cases, inl, inr,
}
use forgetty.Session.Tree.{collect_pane_ids}
use forgetty.Session.Tree.Leaves.{leaves, collect_pane_ids-leaves}
use forgetty.Session.State.{SessionTab, SessionManagerInner, pane_closed}
use forgetty.Session.Registry.{forget_pane}
use forgetty.Session.Workspaces.{collect_tabs, delete_pane, delete_panes}
use forgetty.Session.Tabs.{close_tab_pane, close_tab_panes}
use forgetty.Session.Invariant.{tab_occurs, has-forget_pane, forget_pane_rest}

pub count-collect_tabs :
    (a : ℕ) (tabs : List SessionTab) (out : List ℕ)
    → count a (collect_tabs tabs out) ≡ count a out + sum_by (tab_occurs a) tabs
unfolding collect_tabs
count-collect_tabs a [] out = omega arith
count-collect_tabs a (tab ∷ tabs) out = omega (
  arith,
  count-collect_tabs a tabs (collect_pane_ids tab.pane_tree out),
  ap (count a) (collect_pane_ids-leaves tab.pane_tree out),
  count-append a out (leaves tab.pane_tree),
)

-- What a loop over `pids` did to the state: the layout is left alone, and the panes are gone.
pub record Removed (pids : List ℕ) (s t : SessionManagerInner) : Type 0 where
  pub layout : t.layout ≡ s.layout
  pub registered : (a : ℕ) → has a t.panes ≡ (if ltb 0 (count a pids) then false else has a s.panes)
  pub order :
      (a : ℕ) → count a t.pane_order ≡ (if ltb 0 (count a pids) then 0 else count a s.pane_order)

forget_pane-Removed : (pid : ℕ) (s : SessionManagerInner) → Removed (pid ∷ []) s (forget_pane pid s)
forget_pane-Removed pid s = record {
  layout = (forget_pane_rest pid s).0;
  registered = λ a. ground (arith, has-forget_pane pid a s);
  order = λ a.
      ground (arith, ap (count a) (forget_pane_rest pid s).2, count-retain_ne pid a s.pane_order);
}

pub Removed-cons :
    (pid : ℕ) (pids : List ℕ) (s t u : SessionManagerInner)
    → Removed (pid ∷ []) s t
    → Removed pids t u
    → Removed (pid ∷ pids) s u
Removed-cons pid pids s t u r q = record {
  layout = q.layout ∙ r.layout;
  registered = λ a. ground (arith, q.registered a, r.registered a);
  order = λ a. ground (arith, q.order a, r.order a);
}

Removed-nil : (s : SessionManagerInner) → Removed [] s s
Removed-nil s = record { layout = refl; registered = λ a. ground arith; order = λ a. ground arith }

delete_pane-Removed : (pid : ℕ) (s : SessionManagerInner) → Removed (pid ∷ []) s (delete_pane pid s)
unfolding delete_pane
delete_pane-Removed pid s =
    let f = forget_pane-Removed pid s in
    record { layout = f.layout; registered = f.registered; order = f.order }

pub delete_panes-Removed :
    (pids : List ℕ) (s : SessionManagerInner) → Removed pids s (delete_panes pids s)
unfolding delete_panes
delete_panes-Removed [] s = Removed-nil s
delete_panes-Removed (pid ∷ pids) s =
    Removed-cons pid pids s (delete_pane pid s) _ (delete_pane-Removed pid s)
      (delete_panes-Removed pids (delete_pane pid s))

close_tab_pane-Removed :
    (pid : ℕ) (s : SessionManagerInner) → Removed (pid ∷ []) s (close_tab_pane pid s)
unfolding close_tab_pane
close_tab_pane-Removed pid s =
    let f = forget_pane-Removed pid s in
    elim (Bool-cases (has pid s.panes)) [
      | inl there ↦
          rw there (record { layout = f.layout; registered = f.registered; order = f.order })
      | inr gone ↦ rw gone f
    ]

pub close_tab_panes-Removed :
    (pids : List ℕ) (s : SessionManagerInner) → Removed pids s (close_tab_panes pids s)
unfolding close_tab_panes
close_tab_panes-Removed [] s = Removed-nil s
close_tab_panes-Removed (pid ∷ pids) s =
    Removed-cons pid pids s (close_tab_pane pid s) _ (close_tab_pane-Removed pid s)
      (close_tab_panes-Removed pids (close_tab_pane pid s))

-- `delete_workspace` reports every pane of its list, in order.
pub event_tx-delete_panes :
    (pids : List ℕ) (s : SessionManagerInner)
    → (delete_panes pids s).event_tx ≡ s.event_tx ++ map pane_closed pids
unfolding delete_panes
event_tx-delete_panes [] s = sym (append-nil s.event_tx)
event_tx-delete_panes (pid ∷ pids) s =
    event_tx-delete_panes pids (delete_pane pid s)
    ∙ ap (λ es. (es ++ pane_closed pid ∷ []) ++ map pane_closed pids) (forget_pane_rest pid s).1
    ∙ append_assoc s.event_tx (pane_closed pid ∷ []) (map pane_closed pids)
