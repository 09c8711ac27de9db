-- ===== src/Session/Run/Fresh.antt =====
-- What the random ids of manager.rs promise, whatever call is made.
use forgetty.Base.{
  ℕ, suc, ◌≤◌, ◌≡◌, ◌≢◌, ◌⊎◌, refl, ap, ◌∙◌, String, List, [], ◌∷◌, Bool, true, false, Option, none,
  arith, inl, inr, count, ◌==◌, Bool-cases,
}
use forgetty.Session.State.{PtySize, SessionManagerInner, Env, Result-cases}
use forgetty.Session.Registry.{spawn_bridge}
use forgetty.Session.Duplicate.{Spawned, spawn_all}
use forgetty.Session.Invariant.{layout_occurs, layout_tab_ids, IsValid}
use forgetty.Session.Invariant.Copies.{pane_ids, uuids, AreFresh, source_cwds}
use forgetty.Session.Run.{
  Command, duplicate_workspace_call, create_tab_with_pane_id_call,
  split_pane_with_ratio_and_pane_id_call, NewIds,
}

-- The ids that are drawn differ from one another, and no leaf and no tab has one.
pub record DrawsNew (env : Env) (s : SessionManagerInner) : Type 0 where
  pub panes_differ : (n m : ℕ) → n ≢ m → env.new_pane_id n ≢ env.new_pane_id m
  pub uuids_differ : (n m : ℕ) → n ≢ m → env.new_uuid n ≢ env.new_uuid m
  pub panes_new : (n : ℕ) → layout_occurs (env.new_pane_id n) s.workspaces ≡ 0
  pub uuids_new : (n : ℕ) → layout_tab_ids (env.new_uuid n) s.workspaces ≡ 0

-- A call that is told the id of a pane to come.
abbrev pub is_given_id : Command → Bool
is_given_id (create_tab_with_pane_id_call idx cwd size command id) = true
is_given_id (split_pane_with_ratio_and_pane_id_call id direction ratio size cwd new_id) = true
is_given_id command = false

-- An id stands in the list not at all, or once and as a later draw.
abbrev Drawn : (ℕ → ℕ) → ℕ → ℕ → List ℕ → Type 0
Drawn draw from a ids =
    (count a ids ≡ 0) ⊎ ((m : ℕ) × (from ≤ m) × (a ≡ draw m) × (count a ids ≡ 1))

Drawn-cons :
    (draw : ℕ → ℕ) (from a : ℕ) (ids : List ℕ)
    → ((n m : ℕ) → n ≢ m → draw n ≢ draw m)
    → Drawn draw (suc from) a ids
    → Drawn draw from a (draw from ∷ ids)
Drawn-cons draw from a ids differ (inl absent) = elim (Bool-cases (draw from == a)) [
  | inl same ↦ inr (from, omega arith, ground arith, ground arith)
  | inr other ↦ inl (ground arith)
]
Drawn-cons draw from a ids differ (inr (m, later, drawn, once)) =
    let other = differ from m (omega arith) in inr (m, omega arith, drawn, ground (arith, other))

module _ (env : Env) (s : SessionManagerInner) (fresh : DrawsNew env s) where
  pane_ids-Drawn :
      (size : PtySize) (from a : ℕ) (cwds : List (Option String))
      → Drawn env.new_pane_id from a (pane_ids (spawn_all env size from cwds).0)
  unfolding spawn_all
  pane_ids-Drawn size from a [] = inl refl
  pane_ids-Drawn size from a (cwd ∷ cwds) =
      elim (Result-cases (spawn_bridge env from size cwd none none true)) [
        | inl (bridge, spawned) ↦
            rw (spawned, spawn_all, pane_ids)
              (Drawn-cons env.new_pane_id from a _ fresh.panes_differ
                (pane_ids-Drawn size (suc from) a cwds))
        | inr (e, failed) ↦ rw (failed, spawn_all, pane_ids) (inl refl)
      ]

  uuids-Drawn :
      (from a : ℕ) (spawned : List Spawned) → Drawn env.new_uuid from a (uuids env from spawned)
  uuids-Drawn from a [] = inl refl
  uuids-Drawn from a (p ∷ spawned) =
      Drawn-cons env.new_uuid from a _ fresh.uuids_differ (uuids-Drawn (suc from) a spawned)

  DrawsNew-AreFresh :
      (size : PtySize) (cwds : List (Option String))
      → IsValid s
      → AreFresh env (spawn_all env size 0 cwds).0 s
  DrawsNew-AreFresh size cwds v =
      let spawned = (spawn_all env size 0 cwds).0 in
      record {
        new_panes = λ a. elim (pane_ids-Drawn size 0 a cwds) [
          | inl absent ↦ omega (arith, v.once a)
          | inr (m, later, drawn, once) ↦
              omega (arith, ap (λ (b : ℕ). layout_occurs b s.workspaces) drawn, fresh.panes_new m)
        ];
        new_tabs = λ t. elim (uuids-Drawn 1 t spawned) [
          | inl absent ↦ omega (arith, v.tab_once t)
          | inr (m, later, drawn, once) ↦
              omega (arith, ap (λ (b : ℕ). layout_tab_ids b s.workspaces) drawn, fresh.uuids_new m)
        ];
      }

  pub DrawsNew-NewIds :
      (command : Command) → is_given_id command ≡ false → IsValid s → NewIds env command s
  unfolding NewIds
  DrawsNew-NewIds (duplicate_workspace_call idx name size) drawn v =
      DrawsNew-AreFresh size (source_cwds idx s) v
  DrawsNew-NewIds (create_tab_with_pane_id_call idx cwd size command id) drawn v = cc
  DrawsNew-NewIds (split_pane_with_ratio_and_pane_id_call id direction ratio size cwd new_id) drawn
        v =
      cc
  DrawsNew-NewIds command drawn v = record {
    new_pane = fresh.panes_new 0;
    new_tab = fresh.uuids_new 0;
  }

-- The ids are still new after a call that has changed no leaf and no tab.
pub DrawsNew-kept :
    (env : Env) (s t : SessionManagerInner)
    → ((a : ℕ) → layout_occurs a t.workspaces ≡ layout_occurs a s.workspaces)
    → ((a : ℕ) → layout_tab_ids a t.workspaces ≡ layout_tab_ids a s.workspaces)
    → DrawsNew env s
    → DrawsNew env t
DrawsNew-kept env s t same_leaves same_tabs fresh = record {
  panes_differ = fresh.panes_differ;
  uuids_differ = fresh.uuids_differ;
  panes_new = λ n. same_leaves (env.new_pane_id n) ∙ fresh.panes_new n;
  uuids_new = λ n. same_tabs (env.new_uuid n) ∙ fresh.uuids_new n;
}
