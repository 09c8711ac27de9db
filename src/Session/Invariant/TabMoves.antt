-- ===== src/Session/Invariant/TabMoves.antt =====
-- Well-formedness of the state after the operations of manager.rs that move a tab or set what is active.
use forgetty.Base.{
  ℕ, ◌-◌, ◌≤◌, ◌≡◌, refl, min, List, true, Option, none, some, arith, length, length-set,
  length-remove_at, length-insert_at, get_elem?, get_elem?-lt, set, remove_at, insert_at, ◌==◌, All,
  All-get, All-set, All-remove_at, All-insert_at, sum_by, sum_by-set, sum_by-remove_at,
  sum_by-insert_at, leb, Bool-cases, Option-cases, inl, inr,
}
use forgetty.Session.Tree.Leaves.{contains_leaf-occurs}
use forgetty.Session.State.{
  SessionTab, SessionWorkspace, SessionManagerInner, Outcome, at_workspace-cases, set_workspaces,
}
use forgetty.Session.Tabs.{
  position, find_tab, follow_tab, move_tab, set_active_tab, is_focusable, same_pane,
  set_active_pane,
}
use forgetty.Session.Tabs.Search.{position_zero, find_tab-IsFound}
use forgetty.Session.Invariant.Workspaces.{set-IsValid, send-IsValid}
use forgetty.Session.Invariant.{tab_occurs, tab_has_id, InTree, IsFocused, WsIsValid, IsValid}

abbrev Keeps {ℓ} : {A : Type ℓ} → Outcome A → Type 0
Keeps o = IsValid o.0

pub set_active_tab-IsValid :
    (idx tab_idx : ℕ) (s : SessionManagerInner)
    → IsValid s
    → IsValid (set_active_tab idx tab_idx s).0
unfolding set_active_tab
set_active_tab-IsValid idx tab_idx s v = at_workspace-cases Keeps idx s _ v λ ws e.
    let w = All-get WsIsValid s.workspaces idx ws v.each e in
    elim (Bool-cases (leb (length ws.tabs) tab_idx)) [
      | inl out ↦ rw out v
      | inr inside ↦ rw inside (
          send-IsValid _ _ (
            set-IsValid idx s ws (record ws { active_tab = tab_idx }) e
              (record { active = ground arith; focused = w.focused }) (λ a. refl) (λ t. refl) v))
    ]

is_focusable-InTree :
    (tab : SessionTab) (pane_id : Option ℕ)
    → is_focusable tab.pane_tree pane_id ≡ true
    → InTree pane_id tab.pane_tree
is_focusable-InTree tab none h = tt
is_focusable-InTree tab (some pid) h = ground (arith, contains_leaf-occurs tab.pane_tree pid)

-- The focus of one tab set to one of its leaves, or cleared.
focus-IsValid :
    (idx i : ℕ) (ws : SessionWorkspace) (tab : SessionTab) (pane_id : Option ℕ)
    (s : SessionManagerInner)
    → get_elem? s.workspaces idx ≡ some ws
    → get_elem? ws.tabs i ≡ some tab
    → InTree pane_id tab.pane_tree
    → IsValid s
    → let tab' = record tab { active_pane_id = pane_id } in
      IsValid (set_workspaces (set s.workspaces idx (record ws { tabs = set ws.tabs i tab' })) s)
focus-IsValid idx i ws tab pane_id s e at inside v =
    let w = All-get WsIsValid s.workspaces idx ws v.each e in
    let tab' : SessionTab = record tab { active_pane_id = pane_id } in
    set-IsValid idx s ws (record ws { tabs = set ws.tabs i tab' }) e
      (record {
        active = rw (length-set ws.tabs i tab') w.active;
        focused = All-set IsFocused ws.tabs i tab' w.focused inside;
      })
      (λ a. omega (arith, sum_by-set (tab_occurs a) ws.tabs i tab tab' at))
      (λ t. omega (arith, sum_by-set (tab_has_id t) ws.tabs i tab tab' at)) v

pub set_active_pane-IsValid :
    (idx tab_id : ℕ) (pane_id : Option ℕ) (s : SessionManagerInner)
    → IsValid s
    → IsValid (set_active_pane idx tab_id pane_id s).0
unfolding set_active_pane
set_active_pane-IsValid idx tab_id pane_id s v = at_workspace-cases Keeps idx s _ v λ ws e.
    elim (Option-cases (position 0 tab_id ws.tabs)) [
      | inl missing ↦ rw missing v
      | inr ((i, tab), there) ↦
          let at = (position_zero tab_id ws.tabs i tab there).0 in
          elim (Bool-cases (is_focusable tab.pane_tree pane_id)) [
            | inr outside ↦ rw (there, outside) v
            | inl inside ↦ elim (Bool-cases (same_pane tab.active_pane_id pane_id)) [
              | inl same ↦ rw (there, inside, same) v
              | inr new ↦
                  rw (there, inside, new)
                    (send-IsValid _ _ (
                      focus-IsValid idx i ws tab pane_id s e at
                        (is_focusable-InTree tab pane_id inside) v))
            ]
          ]
    ]

follow_tab-lt :
    (tabs : List SessionTab) (active : ℕ) (moved : List SessionTab)
    → length moved ≡ length tabs
    → active ≤ length tabs - 1
    → follow_tab tabs active moved ≤ length moved - 1
unfolding follow_tab
follow_tab-lt tabs active moved len h = elim (Option-cases (get_elem? tabs active)) [
  | inl out ↦ rw (out, follow_tab) (omega arith)
  | inr (tab, at) ↦ elim (Option-cases (position 0 tab.id moved)) [
    | inl missing ↦ rw (at, follow_tab, missing) (omega arith)
    | inr ((i, x), there) ↦
        rw (at, follow_tab, there)
          (omega (arith, get_elem?-lt moved i x (position_zero tab.id moved i x there).0))
  ]
]

module _ (tabs : List SessionTab) (i j : ℕ) (tab : SessionTab)
    (at : get_elem? tabs i ≡ some tab) where
  abbrev moved : List SessionTab
  moved = insert_at (remove_at tabs i) j tab

  length-moved : length moved ≡ length tabs
  length-moved = omega (
    arith,
    length-insert_at (remove_at tabs i) j tab,
    length-remove_at tabs i (get_elem?-lt tabs i tab at),
  )

  sum_by-moved : (f : SessionTab → ℕ) → sum_by f moved ≡ sum_by f tabs
  sum_by-moved f =
      omega (arith, sum_by-insert_at f (remove_at tabs i) j tab, sum_by-remove_at f tabs i tab at)

  All-moved : (P : SessionTab → Type 0) → All P tabs → All P moved
  All-moved P h =
      All-insert_at P (remove_at tabs i) j tab (All-remove_at P tabs i h)
        (All-get P tabs i tab h at)

pub move_tab-IsValid :
    (tab_id new_index : ℕ) (s : SessionManagerInner)
    → IsValid s
    → IsValid (move_tab tab_id new_index s).0
unfolding move_tab
move_tab-IsValid tab_id new_index s v = elim (Option-cases (find_tab 0 tab_id s.workspaces)) [
  | inl missing ↦ rw (missing, move_tab) v
  | inr (f, e) ↦
      let found = find_tab-IsFound tab_id s.workspaces f e in
      let target = min new_index (length f.ws.tabs - 1) in
      let w = All-get WsIsValid s.workspaces f.ws_idx f.ws v.each found.at_ws in
      let len = length-moved f.ws.tabs f.tab_idx target f.tab found.place in
      let sums = sum_by-moved f.ws.tabs f.tab_idx target f.tab found.place in
      elim (Bool-cases (f.tab_idx == target)) [
        | inl same ↦ rw (e, move_tab, same) v
        | inr new ↦
            rw (e, move_tab, new)
              (send-IsValid _ _ (
                set-IsValid f.ws_idx s f.ws _ found.at_ws
                  (record {
                    active = follow_tab-lt f.ws.tabs f.ws.active_tab _ len w.active;
                    focused =
                        All-moved f.ws.tabs f.tab_idx target f.tab found.place IsFocused w.focused;
                  })
                  (λ a. sums (tab_occurs a)) (λ t. sums (tab_has_id t)) v))
      ]
]
