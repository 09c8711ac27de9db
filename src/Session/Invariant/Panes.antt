-- ===== src/Session/Invariant/Panes.antt =====
-- Well-formedness of the state after the operations of Panes.antt, manager.rs.
use forgetty.Base.{
  ℕ, ◌+◌, ◌<◌, ◌≡◌, refl, String, List, [], ◌∷◌, Bool, true, Option, none, some, arith, length, has,
  to_nat, ◌==◌, All, Bool-cases, Option-cases, inl, inr,
}
use forgetty.Session.State.{
  PtySize, PaneState, SessionWorkspace, SessionManagerInner, Env, Result-cases, set_workspaces,
}
use forgetty.Session.Registry.{spawn_bridge, register, leaf_tab}
use forgetty.Session.Panes.{
  push_first, create_pane, split_in_workspaces, split_pane_with_ratio_and_pane_id,
}
use forgetty.Session.Invariant.Growth.{
  grow-IsValid, push_tab-WsIsValid, ws_occurs-push_tab, ws_tab_ids-push_tab,
}
use forgetty.Session.Invariant.Splits.{
  occurs-in_workspaces, workspaces_missing, ids-in_workspaces, valid-in_workspaces,
}
use forgetty.Session.Invariant.Workspaces.{send-IsValid}
use forgetty.Session.Invariant.Tabs.{DrawsFresh}
use forgetty.Session.Invariant.{
  layout_occurs, layout_tab_ids, WsIsValid, IsValid, Agrees-IsValid, spawn_drain_task-Agrees,
}

module _ (tab_id pane_id : ℕ) where
  abbrev pushed : List SessionWorkspace → List SessionWorkspace
  pushed = push_first (leaf_tab tab_id pane_id)

  length-push_first : (wss : List SessionWorkspace) → length (pushed wss) ≡ length wss
  unfolding push_first
  length-push_first [] = refl
  length-push_first (ws ∷ wss) = refl

  valid-push_first : (wss : List SessionWorkspace) → All WsIsValid wss → All WsIsValid (pushed wss)
  unfolding push_first
  valid-push_first [] h = tt
  valid-push_first (ws ∷ wss) h = (push_tab-WsIsValid tab_id pane_id ws h.0, h.1)

  occurs-push_first :
      (a : ℕ) (wss : List SessionWorkspace)
      → 0 < length wss
      → layout_occurs a (pushed wss) ≡ layout_occurs a wss + to_nat (pane_id == a)
  unfolding push_first
  occurs-push_first a [] h = absurd (omega arith)
  occurs-push_first a (ws ∷ wss) h = omega (arith, ws_occurs-push_tab tab_id pane_id a ws)

  ids-push_first :
      (t : ℕ) (wss : List SessionWorkspace)
      → 0 < length wss
      → layout_tab_ids t (pushed wss) ≡ layout_tab_ids t wss + to_nat (tab_id == t)
  unfolding push_first
  ids-push_first t [] h = absurd (omega arith)
  ids-push_first t (ws ∷ wss) h = omega (arith, ws_tab_ids-push_tab tab_id pane_id t ws)

pub create_pane-IsValid :
    (env : Env) (size : PtySize) (cwd : Option String) (command : Option (List String))
    (shell : Option String) (login_shell : Bool) (s : SessionManagerInner)
    → DrawsFresh env s
    → IsValid s
    → IsValid (create_pane env size cwd command shell login_shell s).0
unfolding create_pane
create_pane-IsValid env size cwd command shell login_shell s fresh v =
    let id = env.new_pane_id 0 in
    let tab_id = env.new_uuid 0 in
    let some_ws : 0 < length s.workspaces = omega (arith, v.active) in
    elim (Result-cases (spawn_bridge env 0 size cwd command shell login_shell)) [
      | inr (e, failed) ↦ rw (failed, create_pane) v
      | inl (bridge, spawned) ↦
          rw (spawned, create_pane)
            (Agrees-IsValid (spawn_drain_task-Agrees env id _) (
              send-IsValid _ _ (
                grow-IsValid id _ s (pushed tab_id id s.workspaces)
                  (length-push_first tab_id id s.workspaces)
                  (valid-push_first tab_id id s.workspaces v.each)
                  (λ a. occurs-push_first tab_id id a s.workspaces some_ws)
                  (λ t. ground (
                    arith,
                    ids-push_first tab_id id t s.workspaces some_ws,
                    v.tab_once t,
                    fresh.new_tab,
                  ))
                  fresh.new_pane v)))
    ]

-- A registered pane is found by the split, so the cleanup of `split_pane` is never reached from a
-- well-formed state: whenever the process can be spawned, the split succeeds.
pub split_found :
    (pane_id new_pane_id : ℕ) (direction : String) (ratio : ℕ) (s : SessionManagerInner)
    → IsValid s
    → has pane_id s.panes ≡ true
    → (tab_id : ℕ) × ((split_in_workspaces pane_id new_pane_id direction ratio s.workspaces).1
        ≡ some tab_id)
split_found pane_id new_pane_id direction ratio s v there =
    elim (Option-cases (split_in_workspaces pane_id new_pane_id direction ratio s.workspaces).1) [
      | inr found ↦ found
      | inl missing ↦ absurd (
          ground (
            arith,
            v.placed pane_id,
            workspaces_missing pane_id new_pane_id direction ratio s.workspaces missing,
          ))
    ]

split-IsValid :
    (pane_id new_pane_id tab_id : ℕ) (direction : String) (ratio : ℕ) (pane : PaneState)
    (s : SessionManagerInner)
    → (split_in_workspaces pane_id new_pane_id direction ratio s.workspaces).1 ≡ some tab_id
    → layout_occurs new_pane_id s.workspaces ≡ 0
    → IsValid s
    → IsValid (
        set_workspaces
          (split_in_workspaces pane_id new_pane_id direction ratio s.workspaces).0
          (register new_pane_id pane s))
split-IsValid pane_id new_pane_id tab_id direction ratio pane s found fresh v =
    let ids = λ (t : ℕ). ids-in_workspaces pane_id new_pane_id direction ratio t s.workspaces in
    grow-IsValid new_pane_id pane s _ (ids 0).1
      (valid-in_workspaces pane_id new_pane_id direction ratio s.workspaces v.each)
      (λ a.
        ground
          (arith, occurs-in_workspaces pane_id new_pane_id direction ratio a s.workspaces, found))
      (λ t. omega (arith, (ids t).0, v.tab_once t)) fresh v

pub split_pane-IsValid :
    (env : Env) (pane_id : ℕ) (direction : String) (ratio : ℕ) (size : PtySize)
    (cwd : Option String) (new_pane_id : ℕ) (s : SessionManagerInner)
    → layout_occurs new_pane_id s.workspaces ≡ 0
    → IsValid s
    → IsValid
        (split_pane_with_ratio_and_pane_id env pane_id direction ratio size cwd new_pane_id s).0
unfolding split_pane_with_ratio_and_pane_id
split_pane-IsValid env pane_id direction ratio size cwd new_pane_id s fresh v =
    elim (Bool-cases (has pane_id s.panes)) [
      | inr gone ↦ rw gone v
      | inl there ↦ elim (Result-cases (spawn_bridge env 0 size cwd none none true)) [
        | inr (e, failed) ↦ rw (there, failed, split_pane_with_ratio_and_pane_id) v
        | inl (bridge, spawned) ↦
            let (tab_id, found) = split_found pane_id new_pane_id direction ratio s v there in
            rw (there, spawned, split_pane_with_ratio_and_pane_id, found)
              (Agrees-IsValid (spawn_drain_task-Agrees env new_pane_id _) (
                send-IsValid _ _ (
                  send-IsValid _ _
                    (split-IsValid pane_id new_pane_id tab_id direction ratio _ s found fresh v))))
      ]
    ]
