-- ===== src/Session/Invariant/Workspaces.antt =====
-- Well-formedness of the state after the operations of Workspaces.antt, manager.rs.
use text.Mathlib.Text.{◌==◌ as str_eq}
use forgetty.Base.{
  ℕ, suc, ◌<◌, ◌≡◌, ◌≢◌, refl, ◌∙◌, String, List, [], ◌∷◌, Option, some, arith, length,
  length-append, length-set, length-remove_at, get_elem?, get_elem?-lt, get_elem?-set_ne, set,
  remove_at, count, ◌==◌, All-append, All-get, All-set, All-remove_at, sum_by, sum_by-append,
  sum_by-set, sum_by-remove_at, leb, Bool-cases, Option-cases, inl, inr,
}
use forgetty.Session.State.{
  SessionEvent, workspace_deleted, SessionWorkspace, SessionManagerInner, Outcome,
  at_workspace-cases, send, set_workspaces, same_text,
}
use forgetty.Session.Workspaces.{
  create_workspace, rename_workspace, set_workspace_color, follow_swap, move_workspace,
  collect_tabs, delete_panes, follow_remove, delete_workspace, set_active_workspace,
  remove_workspace,
}
use forgetty.Session.Invariant.Removal.{Removed, delete_panes-Removed, count-collect_tabs}
use forgetty.Session.Invariant.{
  ws_occurs, ws_tab_ids, WsIsValid, IsValid, send-Agrees, Agrees-IsValid,
}

abbrev Keeps {ℓ} : {A : Type ℓ} → Outcome A → Type 0
Keeps o = IsValid o.0

-- Another workspace at the same place, with the same leaves and tab ids, keeps the state valid.
pub set-IsValid :
    (idx : ℕ) (s : SessionManagerInner) (ws ws' : SessionWorkspace)
    → get_elem? s.workspaces idx ≡ some ws
    → WsIsValid ws'
    → ((a : ℕ) → ws_occurs a ws' ≡ ws_occurs a ws)
    → ((t : ℕ) → ws_tab_ids t ws' ≡ ws_tab_ids t ws)
    → IsValid s
    → IsValid (set_workspaces (set s.workspaces idx ws') s)
unfolding set_workspaces
set-IsValid idx s ws ws' e w same same_ids v = record {
  active = rw (length-set s.workspaces idx ws') v.active;
  each = All-set WsIsValid s.workspaces idx ws' v.each w;
  ordered = v.ordered;
  placed =
      λ a. omega (arith, v.placed a, same a, sum_by-set (ws_occurs a) s.workspaces idx ws ws' e);
  once = λ a. omega (arith, v.once a, same a, sum_by-set (ws_occurs a) s.workspaces idx ws ws' e);
  tab_once = λ t.
      omega (arith, v.tab_once t, same_ids t, sum_by-set (ws_tab_ids t) s.workspaces idx ws ws' e);
}

pub send-IsValid : (e : SessionEvent) (s : SessionManagerInner) → IsValid s → IsValid (send e s)
send-IsValid e s v = Agrees-IsValid (send-Agrees e s) v

pub create_workspace-IsValid :
    (id : ℕ) (name : String) (s : SessionManagerInner)
    → IsValid s
    → IsValid (create_workspace id name s).0
unfolding create_workspace
create_workspace-IsValid id name s v = record {
  active = omega (arith, v.active, length-append s.workspaces (_ ∷ []));
  each =
      All-append WsIsValid s.workspaces (_ ∷ []) v.each
        (record { active = omega arith; focused = tt }, tt);
  ordered = v.ordered;
  placed = λ a. omega (arith, v.placed a, sum_by-append (ws_occurs a) s.workspaces (_ ∷ []));
  once = λ a. omega (arith, v.once a, sum_by-append (ws_occurs a) s.workspaces (_ ∷ []));
  tab_once = λ t. omega (arith, v.tab_once t, sum_by-append (ws_tab_ids t) s.workspaces (_ ∷ []));
}

pub rename_workspace-IsValid :
    (idx : ℕ) (name : String) (s : SessionManagerInner)
    → IsValid s
    → IsValid (rename_workspace idx name s).0
unfolding rename_workspace
rename_workspace-IsValid idx name s v = at_workspace-cases Keeps idx s _ v λ ws e.
    let w = All-get WsIsValid s.workspaces idx ws v.each e in
    let kept =
      set-IsValid idx s ws (record ws { name = name }) e
        (record { active = w.active; focused = w.focused }) (λ a. refl) (λ t. refl) v in
    elim (Bool-cases (str_eq ws.name name)) [
      | inl same ↦ rw same v
      | inr new ↦ rw new (send-IsValid _ _ kept)
    ]

pub set_workspace_color-IsValid :
    (idx : ℕ) (color : Option String) (s : SessionManagerInner)
    → IsValid s
    → IsValid (set_workspace_color idx color s).0
unfolding set_workspace_color
set_workspace_color-IsValid idx color s v = at_workspace-cases Keeps idx s _ v λ ws e.
    let w = All-get WsIsValid s.workspaces idx ws v.each e in
    let kept =
      set-IsValid idx s ws (record ws { color = color }) e
        (record { active = w.active; focused = w.focused }) (λ a. refl) (λ t. refl) v in
    elim (Bool-cases (same_text ws.color color)) [
      | inl same ↦ rw same v
      | inr new ↦ rw new (send-IsValid _ _ kept)
    ]

pub set_active_workspace-IsValid :
    (idx : ℕ) (s : SessionManagerInner) → IsValid s → IsValid (set_active_workspace idx s).0
unfolding set_active_workspace
set_active_workspace-IsValid idx s v = elim (Bool-cases (leb (length s.workspaces) idx)) [
  | inl out ↦ rw out v
  | inr inside ↦ elim (Bool-cases (s.active_workspace == idx)) [
    | inl same ↦ rw (inside, same) v
    | inr new ↦
        rw (inside, new)
          (record {
            active = ground arith;
            each = v.each;
            ordered = v.ordered;
            placed = v.placed;
            once = v.once;
            tab_once = v.tab_once;
          })
  ]
]

follow_swap-lt :
    (active from_idx to_idx n : ℕ)
    → active < n
    → from_idx < n
    → to_idx < n
    → follow_swap active from_idx to_idx < n
unfolding follow_swap
follow_swap-lt active from_idx to_idx n h k l = ground arith

-- Two writes that swap two elements keep every sum.
pub sum_by-swap {ℓ} :
    {A : Type ℓ} (f : A → ℕ) (xs : List A) (i j : ℕ) (x y : A)
    → get_elem? xs i ≡ some x
    → get_elem? xs j ≡ some y
    → i ≢ j
    → sum_by f (set (set xs i y) j x) ≡ sum_by f xs
sum_by-swap f xs i j x y ei ej ne = omega (
  arith,
  sum_by-set f xs i x y ei,
  sum_by-set f (set xs i y) j y x (get_elem?-set_ne xs y ne ∙ ej),
)

pub move_workspace-IsValid :
    (from_idx to_idx : ℕ) (s : SessionManagerInner)
    → IsValid s
    → IsValid (move_workspace from_idx to_idx s).0
unfolding move_workspace
move_workspace-IsValid from_idx to_idx s v = elim (Option-cases (get_elem? s.workspaces from_idx)) [
  | inl e ↦ rw (e, move_workspace) v
  | inr (x, ex) ↦ elim (Option-cases (get_elem? s.workspaces to_idx)) [
    | inl e ↦ rw (ex, e, move_workspace) v
    | inr (y, ey) ↦ elim (Bool-cases (from_idx == to_idx)) [
      | inl same ↦ rw (ex, ey, same, move_workspace) v
      | inr moved ↦
          let ne : from_idx ≢ to_idx = ground arith in
          let once = set s.workspaces from_idx y in
          rw (ex, ey, moved, move_workspace)
            (record {
              active =
                  rw (length-set once to_idx x, length-set s.workspaces from_idx y)
                    (follow_swap-lt s.active_workspace from_idx to_idx (length s.workspaces)
                      v.active (get_elem?-lt s.workspaces from_idx x ex)
                      (get_elem?-lt s.workspaces to_idx y ey));
              each =
                  All-set WsIsValid once to_idx x
                    (All-set WsIsValid s.workspaces from_idx y v.each
                      (All-get WsIsValid s.workspaces to_idx y v.each ey))
                    (All-get WsIsValid s.workspaces from_idx x v.each ex);
              ordered = v.ordered;
              placed = λ a.
                  rw (sum_by-swap (ws_occurs a) s.workspaces from_idx to_idx x y ex ey ne)
                    (v.placed a);
              once = λ a.
                  rw (sum_by-swap (ws_occurs a) s.workspaces from_idx to_idx x y ex ey ne)
                    (v.once a);
              tab_once = λ t.
                  rw (sum_by-swap (ws_tab_ids t) s.workspaces from_idx to_idx x y ex ey ne)
                    (v.tab_once t);
            })
    ]
  ]
]

follow_remove-lt :
    (active idx n : ℕ) → active < suc n → idx < suc n → 0 < n → follow_remove active idx n < n
unfolding follow_remove
follow_remove-lt active idx n h k l = ground arith

-- Without one workspace and the panes that its tabs list.
remove_workspace-IsValid :
    (idx : ℕ) (s t : SessionManagerInner) (ws : SessionWorkspace) (pids : List ℕ)
    → get_elem? s.workspaces idx ≡ some ws
    → ((a : ℕ) → count a pids ≡ ws_occurs a ws)
    → Removed pids s t
    → 1 < length s.workspaces
    → IsValid s
    → IsValid (remove_workspace idx t)
unfolding remove_workspace
remove_workspace-IsValid idx s t ws pids e listed r more v =
    let inside = get_elem?-lt s.workspaces idx ws e in
    let len = length-remove_at s.workspaces idx inside in
    record {
      active = rw (r.layout) (
          follow_remove-lt s.active_workspace idx (length (remove_at s.workspaces idx))
            (omega (arith, v.active)) (omega arith) (omega arith));
      each = rw (r.layout) (All-remove_at WsIsValid s.workspaces idx v.each);
      ordered = λ a. ground (arith, v.ordered a, r.registered a, r.order a);
      placed = λ a. rw (r.layout) (
          ground (
            arith,
            v.placed a,
            r.registered a,
            listed a,
            sum_by-remove_at (ws_occurs a) s.workspaces idx ws e,
          ));
      once = λ a.
          rw (r.layout)
            (omega (arith, v.once a, sum_by-remove_at (ws_occurs a) s.workspaces idx ws e));
      tab_once = λ a.
          rw (r.layout)
            (omega (arith, v.tab_once a, sum_by-remove_at (ws_tab_ids a) s.workspaces idx ws e));
    }

pub delete_workspace-IsValid :
    (idx : ℕ) (s : SessionManagerInner) → IsValid s → IsValid (delete_workspace idx s).0
unfolding delete_workspace
delete_workspace-IsValid idx s v = at_workspace-cases Keeps idx s _ v λ ws e.
    let pids = collect_tabs ws.tabs [] in
    let t = delete_panes pids s in
    elim (Bool-cases (leb (length s.workspaces) 1)) [
      | inl last ↦ rw last v
      | inr more ↦ rw more (
          send-IsValid (workspace_deleted idx ws.id) (remove_workspace idx t) (
            remove_workspace-IsValid idx s t ws pids e
              (λ a. omega (arith, count-collect_tabs a ws.tabs [])) (delete_panes-Removed pids s)
              (ground arith) v))
    ]
