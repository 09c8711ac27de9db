-- ===== src/Session/Run/Undone.antt =====
-- Each operation of the session manager that can fail, after an error.
use forgetty.Base.{
  ℕ, ◌≡◌, refl, String, List, Bool, true, Option, none, some, inl, inr, Bool-cases, Option-cases,
  arith, get_elem?, length, leb, ◌==◌, has, lookup,
}
use text.Mathlib.Text.{◌==◌ as str_eq}
use forgetty.Session.State.{
  PtySize, SessionManagerInner, Env, Error, Result, Result-cases, Outcome, at_workspace-cases,
  same_text,
}
use forgetty.Session.Registry.{spawn_bridge}
use forgetty.Session.Workspaces.{
  rename_workspace, set_workspace_color, move_workspace, delete_workspace, set_active_workspace,
}
use forgetty.Session.Tabs.{
  create_tab_with_pane_id, find_tab, close_tab, move_tab, set_active_tab, position, is_focusable,
  same_pane, set_active_pane,
}
use forgetty.Session.Panes.{create_pane, split_pane_with_ratio_and_pane_id, resize_pane}
use forgetty.Session.Duplicate.{tab_cwds, spawn_all, commit, duplicate_workspace}
use forgetty.Session.Output.{process_pane_bytes, write_pty}
use forgetty.Session.Invariant.{IsValid}
use forgetty.Session.Invariant.Panes.{split_found}
use forgetty.Session.Invariant.Copies.{os-kill_spawned}
use forgetty.Session.Run.{error_of}

module _ (s : SessionManagerInner) where
  -- An error leaves the manager as it was, up to the requests to the operating system.
  abbrev pub Undone {ℓ} : {A : Type ℓ} → Outcome A → Type 0
  Undone o = (e : Error) → error_of o.1 ≡ some e → record (o.0) { os = s.os } ≡ s

  pub rename_workspace-Undone : (idx : ℕ) (name : String) → Undone (rename_workspace idx name s)
  unfolding rename_workspace
  rename_workspace-Undone idx name =
      at_workspace-cases Undone idx s _ (λ e h. refl)
        λ ws at. elim (Bool-cases (str_eq ws.name name)) [
          | inl same ↦ rw same (λ e h. refl)
          | inr new ↦ rw new (λ e h. cc)
        ]

  pub set_workspace_color-Undone :
      (idx : ℕ) (color : Option String) → Undone (set_workspace_color idx color s)
  unfolding set_workspace_color
  set_workspace_color-Undone idx color =
      at_workspace-cases Undone idx s _ (λ e h. refl)
        λ ws at. elim (Bool-cases (same_text ws.color color)) [
          | inl same ↦ rw same (λ e h. refl)
          | inr new ↦ rw new (λ e h. cc)
        ]

  pub move_workspace-Undone : (from_idx to_idx : ℕ) → Undone (move_workspace from_idx to_idx s)
  unfolding move_workspace
  move_workspace-Undone from_idx to_idx = elim (Option-cases (get_elem? s.workspaces from_idx)) [
    | inl out ↦ rw (out, move_workspace) (λ e h. refl)
    | inr (x, ex) ↦ elim (Option-cases (get_elem? s.workspaces to_idx)) [
      | inl out ↦ rw (ex, out, move_workspace) (λ e h. refl)
      | inr (y, ey) ↦ elim (Bool-cases (from_idx == to_idx)) [
        | inl same ↦ rw (ex, ey, same, move_workspace) (λ e h. refl)
        | inr moved ↦ rw (ex, ey, moved, move_workspace) (λ e h. cc)
      ]
    ]
  ]

  pub delete_workspace-Undone : (idx : ℕ) → Undone (delete_workspace idx s)
  unfolding delete_workspace
  delete_workspace-Undone idx =
      at_workspace-cases Undone idx s _ (λ e h. refl)
        λ ws at. elim (Bool-cases (leb (length s.workspaces) 1)) [
          | inl last ↦ rw last (λ e h. refl)
          | inr more ↦ rw more (λ e h. cc)
        ]

  pub set_active_workspace-Undone : (idx : ℕ) → Undone (set_active_workspace idx s)
  unfolding set_active_workspace
  set_active_workspace-Undone idx = elim (Bool-cases (leb (length s.workspaces) idx)) [
    | inl out ↦ rw out (λ e h. refl)
    | inr inside ↦ elim (Bool-cases (s.active_workspace == idx)) [
      | inl same ↦ rw (inside, same) (λ e h. refl)
      | inr new ↦ rw (inside, new) (λ e h. cc)
    ]
  ]

  -- The processes that stand ready when a later one fails are killed, and nothing is registered.
  pub duplicate_workspace-Undone :
      (env : Env) (idx : ℕ) (name : Option String) (size : PtySize)
      → Undone (duplicate_workspace env idx name size s)
  unfolding duplicate_workspace commit
  duplicate_workspace-Undone env idx name size =
      at_workspace-cases Undone idx s _ (λ e h. refl)
        λ ws at.
          let spawned = spawn_all env size 0 (tab_cwds s.panes ws.tabs) in
          elim (Option-cases spawned.1) [
            | inl done ↦ rw done (λ e h. cc)
            | inr (x, failed) ↦ rw (failed, os-kill_spawned spawned.0 s) (λ e h. refl)
          ]

  pub create_tab_with_pane_id-Undone :
      (env : Env) (idx : ℕ) (cwd : Option String) (size : PtySize) (command : Option (List String))
      (pane_id : ℕ)
      → Undone (create_tab_with_pane_id env idx cwd size command pane_id s)
  unfolding create_tab_with_pane_id
  create_tab_with_pane_id-Undone env idx cwd size command pane_id =
      at_workspace-cases Undone idx s _ (λ e h. refl)
        λ ws at. elim (Result-cases (spawn_bridge env 0 size cwd command none true)) [
          | inr (x, failed) ↦ rw failed (λ e h. refl)
          | inl (bridge, spawned) ↦ rw spawned (λ e h. cc)
        ]

  pub close_tab-Undone : (env : Env) (tab_id : ℕ) → Undone (close_tab env tab_id s)
  unfolding close_tab
  close_tab-Undone env tab_id = elim (Option-cases (find_tab 0 tab_id s.workspaces)) [
    | inl missing ↦ rw (missing, close_tab) (λ e h. refl)
    | inr (f, there) ↦ rw (there, close_tab) (λ e h. cc)
  ]

  pub move_tab-Undone : (tab_id new_index : ℕ) → Undone (move_tab tab_id new_index s)
  unfolding move_tab
  move_tab-Undone tab_id new_index = elim (Option-cases (find_tab 0 tab_id s.workspaces)) [
    | inl missing ↦ rw (missing, move_tab) (λ e h. refl)
    | inr (f, there) ↦ rw (there, move_tab) (λ e h. ground arith)
  ]

  pub set_active_tab-Undone : (idx tab_idx : ℕ) → Undone (set_active_tab idx tab_idx s)
  unfolding set_active_tab
  set_active_tab-Undone idx tab_idx =
      at_workspace-cases Undone idx s _ (λ e h. refl)
        λ ws at. elim (Bool-cases (leb (length ws.tabs) tab_idx)) [
          | inl out ↦ rw out (λ e h. refl)
          | inr inside ↦ rw inside (λ e h. cc)
        ]

  pub set_active_pane-Undone :
      (idx tab_id : ℕ) (pane_id : Option ℕ) → Undone (set_active_pane idx tab_id pane_id s)
  unfolding set_active_pane
  set_active_pane-Undone idx tab_id pane_id =
      at_workspace-cases Undone idx s _ (λ e h. refl)
        λ ws at. elim (Option-cases (position 0 tab_id ws.tabs)) [
          | inl missing ↦ rw missing (λ e h. refl)
          | inr ((i, tab), there) ↦ elim (Bool-cases (is_focusable tab.pane_tree pane_id)) [
            | inr outside ↦ rw (there, outside) (λ e h. refl)
            | inl inside ↦ elim (Bool-cases (same_pane tab.active_pane_id pane_id)) [
              | inl same ↦ rw (there, inside, same) (λ e h. refl)
              | inr new ↦ rw (there, inside, new) (λ e h. cc)
            ]
          ]
        ]

  pub create_pane-Undone :
      (env : Env) (size : PtySize) (cwd : Option String) (command : Option (List String))
      (shell : Option String) (login_shell : Bool)
      → Undone (create_pane env size cwd command shell login_shell s)
  unfolding create_pane
  create_pane-Undone env size cwd command shell login_shell =
      elim (Result-cases (spawn_bridge env 0 size cwd command shell login_shell)) [
        | inr (x, failed) ↦ rw (failed, create_pane) (λ e h. refl)
        | inl (bridge, spawned) ↦ rw (spawned, create_pane) (λ e h. cc)
      ]

  pub split_pane-Undone :
      (env : Env) (pane_id : ℕ) (direction : String) (ratio : ℕ) (size : PtySize)
      (cwd : Option String) (new_pane_id : ℕ)
      → IsValid s
      → Undone
          (split_pane_with_ratio_and_pane_id env pane_id direction ratio size cwd new_pane_id s)
  unfolding split_pane_with_ratio_and_pane_id
  split_pane-Undone env pane_id direction ratio size cwd new_pane_id v =
      elim (Bool-cases (has pane_id s.panes)) [
        | inr gone ↦ rw gone (λ e h. refl)
        | inl there ↦ elim (Result-cases (spawn_bridge env 0 size cwd none none true)) [
          | inr (x, failed) ↦ rw (there, failed, split_pane_with_ratio_and_pane_id) (λ e h. refl)
          | inl (bridge, spawned) ↦
              let (tab_id, found) = split_found pane_id new_pane_id direction ratio s v there in
              rw (there, spawned, split_pane_with_ratio_and_pane_id, found) (λ e h. cc)
        ]
      ]

  pub resize_pane-Undone :
      (resized : Result (Unit {0})) (id : ℕ) (size : PtySize)
      → Undone (resize_pane resized id size s)
  unfolding resize_pane
  resize_pane-Undone resized id size = elim (Option-cases (lookup id s.panes)) [
    | inl gone ↦ rw (gone, resize_pane) (λ e h. refl)
    | inr (pane, there) ↦ elim (Result-cases resized) [
      | inr (x, failed) ↦ rw (there, failed, resize_pane) (λ e h. refl)
      | inl (u, done) ↦ rw (there, done, resize_pane) (λ e h. cc)
    ]
  ]

  pub write_pty-Undone :
      (written : Result (Unit {0})) (id : ℕ) (bytes : List ℕ)
      → Undone (write_pty written id bytes s)
  unfolding write_pty
  write_pty-Undone written id bytes = elim (Option-cases (lookup id s.panes)) [
    | inl gone ↦ rw (gone, write_pty) (λ e h. refl)
    | inr (pane, there) ↦ rw (there, write_pty) (λ e h. refl)
  ]

  pub process_pane_bytes-Undone :
      (env : Env) (id : ℕ) (bytes : List ℕ) → Undone (process_pane_bytes env id bytes s)
  unfolding process_pane_bytes
  process_pane_bytes-Undone env id bytes = elim (Option-cases (lookup id s.panes)) [
    | inl gone ↦ rw (gone, process_pane_bytes) (λ e h. refl)
    | inr (pane, there) ↦ rw (there, process_pane_bytes) (λ e h. cc)
  ]
