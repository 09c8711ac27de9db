-- ===== src/Session/Invariant/Tabs.antt =====
-- Well-formedness of the state after the operations of Tabs.antt, manager.rs.
use forgetty.Base.{
  ℕ, refl, String, List, true, Option, none, arith, length, remove_at, All-get, ltb, Bool-cases,
  Option-cases, inl, inr,
}
use forgetty.Session.State.{
  SessionEvent, PtySize, SessionManagerInner, Env, Outcome, Result-cases, at_workspace-cases, send,
  tab_closed,
}
use forgetty.Session.Registry.{spawn_bridge}
use forgetty.Session.Tabs.{
  create_tab_with_pane_id, find_tab, auto_seed_default_tab, seed_if_empty, is_empty, close_tab,
  default_size,
}
use forgetty.Session.Invariant.Growth.{add_tab-IsValid, push_tab-WsIsValid}
use forgetty.Session.Invariant.Shrink.{Shrinks-IsValid, Shrinks-IsFresh, close_found-Shrinks}
use forgetty.Session.Tabs.Search.{find_tab-IsFound}
use forgetty.Session.Invariant.Workspaces.{send-IsValid}
use forgetty.Session.Invariant.{
  WsIsValid, IsValid, IsFresh, Agrees-IsValid, spawn_drain_task-Agrees,
}

abbrev Keeps {ℓ} : {A : Type ℓ} → Outcome A → Type 0
Keeps o = IsValid o.0

-- The ids that the operation will draw are in use nowhere.
abbrev pub DrawsFresh : Env → SessionManagerInner → Type 0
DrawsFresh env s = IsFresh (env.new_pane_id 0) (env.new_uuid 0) s

pub create_tab_with_pane_id-IsValid :
    (env : Env) (idx : ℕ) (cwd : Option String) (size : PtySize) (command : Option (List String))
    (pane_id : ℕ) (s : SessionManagerInner)
    → IsFresh pane_id (env.new_uuid 0) s
    → IsValid s
    → IsValid (create_tab_with_pane_id env idx cwd size command pane_id s).0
unfolding create_tab_with_pane_id
create_tab_with_pane_id-IsValid env idx cwd size command pane_id s fresh v =
    at_workspace-cases Keeps idx s _ v λ ws e.
      elim (Result-cases (spawn_bridge env 0 size cwd command none true)) [
        | inr (x, failed) ↦ rw failed v
        | inl (bridge, spawned) ↦
            let tab_id = env.new_uuid 0 in
            let w =
              push_tab-WsIsValid tab_id pane_id ws
                (All-get WsIsValid s.workspaces idx ws v.each e) in
            rw spawned (
              Agrees-IsValid (spawn_drain_task-Agrees env pane_id _) (
                send-IsValid _ _ (
                  send-IsValid _ _ (add_tab-IsValid idx tab_id pane_id _ s ws _ e refl w fresh v))))
      ]

auto_seed_default_tab-IsValid :
    (env : Env) (idx : ℕ) (size : PtySize) (s : SessionManagerInner)
    → DrawsFresh env s
    → IsValid s
    → IsValid (auto_seed_default_tab env idx size s).0
unfolding auto_seed_default_tab
auto_seed_default_tab-IsValid env idx size s fresh v = at_workspace-cases Keeps idx s _ v λ ws e.
    elim (Result-cases (spawn_bridge env 0 size none none none true)) [
      | inr (x, failed) ↦ rw failed v
      | inl (bridge, spawned) ↦
          let pane_id = env.new_pane_id 0 in
          let tab_id = env.new_uuid 0 in
          let w =
            push_tab-WsIsValid tab_id pane_id ws (All-get WsIsValid s.workspaces idx ws v.each e) in
          rw spawned (
            send-IsValid _ _ (
              send-IsValid _ _ (
                add_tab-IsValid idx tab_id pane_id _ s ws _ e refl
                  (record { active = omega arith; focused = w.focused }) fresh v)))
    ]

pub seed_if_empty-IsValid :
    (env : Env) (idx : ℕ) (s : SessionManagerInner)
    → DrawsFresh env s
    → IsValid s
    → IsValid (seed_if_empty env idx s)
unfolding seed_if_empty
seed_if_empty-IsValid env idx s fresh v =
    let seeded = auto_seed_default_tab-IsValid env idx default_size s fresh v in
    elim (Bool-cases (ltb 1 (length s.workspaces))) [
      | inr only ↦ rw only v
      | inl more ↦ elim (Result-cases (auto_seed_default_tab env idx default_size s).1) [
        | inr (x, failed) ↦ rw (more, failed) seeded
        | inl ((pane_id, tab_id), spawned) ↦
            rw (more, spawned) (Agrees-IsValid (spawn_drain_task-Agrees env pane_id _) seeded)
      ]
    ]

send-IsFresh :
    (p q : ℕ) (e : SessionEvent) (s : SessionManagerInner) → IsFresh p q s → IsFresh p q (send e s)
unfolding send
send-IsFresh p q e s f = record { new_pane = f.new_pane; new_tab = f.new_tab }

pub close_tab-IsValid :
    (env : Env) (tab_id : ℕ) (s : SessionManagerInner)
    → DrawsFresh env s
    → IsValid s
    → IsValid (close_tab env tab_id s).0
unfolding close_tab
close_tab-IsValid env tab_id s fresh v = elim (Option-cases (find_tab 0 tab_id s.workspaces)) [
  | inl missing ↦ rw (missing, close_tab) v
  | inr (f, e) ↦
      let found = find_tab-IsFound tab_id s.workspaces f e in
      let h = close_found-Shrinks tab_id s f found v in
      let closed = send-IsValid (tab_closed f.ws_idx tab_id) _ (Shrinks-IsValid _ _ _ _ _ _ h v) in
      let unused = Shrinks-IsFresh _ _ _ _ _ _ (env.new_pane_id 0) (env.new_uuid 0) h fresh in
      elim (Bool-cases (is_empty (remove_at f.ws.tabs f.tab_idx))) [
        | inl empty ↦
            rw (e, close_tab, empty)
              (seed_if_empty-IsValid env f.ws_idx _
                (send-IsFresh _ _ (tab_closed f.ws_idx tab_id) _ unused) closed)
        | inr left ↦ rw (e, close_tab, left) closed
      ]
]
