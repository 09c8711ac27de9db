-- ===== src/Session/Invariant.antt =====
-- Well-formedness of the state of the session manager, and the helpers of Registry.antt.
pub mod Growth
pub mod Removal
pub mod Workspaces
pub mod Shrink
pub mod Tabs
pub mod TabMoves
pub mod Splits
pub mod Panes
pub mod Closing
pub mod Copies
pub mod Quiet
use forgetty.Base.{
  ℕ, suc, ◌+◌, ◌-◌, ◌≤◌, ◌<◌, ◌≡◌, refl, sym, ap, subst, ◌∙◌, List, [], ◌∷◌, ◌++◌, Bool, true,
  false, Option, none, some, arith, length, lookup, has, insert, remove, modify, retain_ne,
  has-insert, has-remove, has-modify, remove_absent, count, count-append, count-retain_ne, to_nat,
  ◌==◌, if◌then◌else◌, All, sum_by, ltb, is_some, Option-cases, inl, inr,
}
use forgetty.Session.Tree.{PaneTreeLayout}
use forgetty.Session.Tree.Leaves.{leaves, occurs}
use forgetty.Session.State.{
  PaneState, SessionEvent, SessionTab, SessionWorkspace, SessionManagerInner, Env, OsCall, send,
  call_os,
}
use forgetty.Session.Registry.{
  register, create_byte_log_for, take_rx, take_pane_output_rx, spawn_drain_task, kill_pane,
  forget_pane,
}

-- How often a pane is a leaf of the layout, and how often a tab id stands in it.
abbrev pub tab_occurs : ℕ → SessionTab → ℕ
tab_occurs a tab = occurs a tab.pane_tree

abbrev pub ws_occurs : ℕ → SessionWorkspace → ℕ
ws_occurs a ws = sum_by (tab_occurs a) ws.tabs

abbrev pub layout_occurs : ℕ → List SessionWorkspace → ℕ
layout_occurs a = sum_by (ws_occurs a)

abbrev pub tab_has_id : ℕ → SessionTab → ℕ
tab_has_id t tab = to_nat (tab.id == t)

abbrev pub ws_tab_ids : ℕ → SessionWorkspace → ℕ
ws_tab_ids t ws = sum_by (tab_has_id t) ws.tabs

abbrev pub layout_tab_ids : ℕ → List SessionWorkspace → ℕ
layout_tab_ids t = sum_by (ws_tab_ids t)

-- The focused pane, if any, is a leaf of the tree.
abbrev pub InTree : Option ℕ → PaneTreeLayout → Type 0
InTree none tree = Unit
InTree (some p) tree = 1 ≤ occurs p tree

abbrev pub IsFocused : SessionTab → Type 0
IsFocused tab = InTree tab.active_pane_id tab.pane_tree

-- The active tab exists, or is 0 in a workspace without tabs; every tab focuses a leaf of its own.
pub record WsIsValid (ws : SessionWorkspace) : Type 0 where
  pub active : ws.active_tab ≤ length ws.tabs - 1
  pub focused : All IsFocused ws.tabs

-- The active workspace exists; `pane_order` lists exactly the panes of the registry, each once; each
-- pane of the registry is a leaf of the layout; and no two leaves and no two tabs have one id.
pub record IsValid (s : SessionManagerInner) : Type 0 where
  pub active : s.active_workspace < length s.workspaces
  pub each : All WsIsValid s.workspaces
  pub ordered : (a : ℕ) → count a s.pane_order ≡ to_nat (has a s.panes)
  pub placed : (a : ℕ) → to_nat (has a s.panes) ≤ layout_occurs a s.workspaces
  pub once : (a : ℕ) → layout_occurs a s.workspaces ≤ 1
  pub tab_once : (t : ℕ) → layout_tab_ids t s.workspaces ≤ 1

-- An id that no leaf, no pane and no tab has.
pub record IsFresh (pane_id tab_id : ℕ) (s : SessionManagerInner) : Type 0 where
  pub new_pane : layout_occurs pane_id s.workspaces ≡ 0
  pub new_tab : layout_tab_ids tab_id s.workspaces ≡ 0

-- Two states with the same layout, order and registered ids.
pub record Agrees (s t : SessionManagerInner) : Type 0 where
  pub layout : t.layout ≡ s.layout
  pub order : t.pane_order ≡ s.pane_order
  pub registered : (a : ℕ) → has a t.panes ≡ has a s.panes

pub Agrees-IsValid : {s t : SessionManagerInner} → Agrees s t → IsValid s → IsValid t
Agrees-IsValid {s} {t} g v = record {
  active = rw (g.layout) v.active;
  each = rw (g.layout) v.each;
  ordered = λ a. rw (g.order, g.registered a) (v.ordered a);
  placed = λ a. rw (g.layout, g.registered a) (v.placed a);
  once = λ a. rw (g.layout) (v.once a);
  tab_once = λ a. rw (g.layout) (v.tab_once a);
}

pub Agrees-refl : (s : SessionManagerInner) → Agrees s s
Agrees-refl s = record { layout = refl; order = refl; registered = λ a. refl }

pub Agrees-trans : {s t u : SessionManagerInner} → Agrees s t → Agrees t u → Agrees s u
Agrees-trans g h = record {
  layout = h.layout ∙ g.layout;
  order = h.order ∙ g.order;
  registered = λ a. h.registered a ∙ g.registered a;
}

pub send-Agrees : (e : SessionEvent) (s : SessionManagerInner) → Agrees s (send e s)
unfolding send
send-Agrees e s = record { layout = refl; order = refl; registered = λ a. refl }

panes-create_byte_log_for :
    (env : Env) (id : ℕ) (s : SessionManagerInner) → (create_byte_log_for env id s).panes ≡ s.panes
unfolding create_byte_log_for
panes-create_byte_log_for env id s = ground arith

has-take_pane_output_rx :
    (id a : ℕ) (s : SessionManagerInner) → has a (take_pane_output_rx id s).0.panes ≡ has a s.panes
unfolding take_pane_output_rx
has-take_pane_output_rx id a s = ground (arith, has-modify id a take_rx s.panes)

pub spawn_drain_task-Agrees :
    (env : Env) (id : ℕ) (s : SessionManagerInner) → Agrees s (spawn_drain_task env id s)
unfolding spawn_drain_task
spawn_drain_task-Agrees env id s = record {
  layout = ground arith;
  order = ground arith;
  registered = λ a.
      has-take_pane_output_rx id a (create_byte_log_for env id s)
      ∙ ap (has a) (panes-create_byte_log_for env id s);
}

pub event_tx-spawn_drain_task :
    (env : Env) (id : ℕ) (s : SessionManagerInner)
    → (spawn_drain_task env id s).event_tx ≡ s.event_tx
unfolding spawn_drain_task
event_tx-spawn_drain_task env id s = ground arith

-- A pane that is forgotten is out of the registry and the order, and nothing else is.
pub has-forget_pane :
    (pid a : ℕ) (s : SessionManagerInner)
    → has a (forget_pane pid s).panes ≡ (if pid == a then false else has a s.panes)
unfolding forget_pane
has-forget_pane pid a s = ground (arith, has-remove pid a s.panes)

pub forget_pane_rest :
    (pid : ℕ) (s : SessionManagerInner)
    → ((forget_pane pid s).layout ≡ s.layout)
      × ((forget_pane pid s).event_tx ≡ s.event_tx)
      × ((forget_pane pid s).pane_order ≡ retain_ne pid s.pane_order)
      × ((forget_pane pid s).byte_logs ≡ remove pid s.byte_logs)
unfolding forget_pane
forget_pane_rest pid s = ground arith

pub has-register :
    (id a : ℕ) (pane : PaneState) (s : SessionManagerInner)
    → has a (register id pane s).panes ≡ (if id == a then true else has a s.panes)
unfolding register
has-register id a pane s = has-insert id a pane s.panes
