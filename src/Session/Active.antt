-- ===== src/Session/Active.antt =====
-- Which workspace is the active one after the operations that move, add and remove workspaces.
use forgetty.Base.{
  ℕ, suc, ◌+◌, ◌-◌, ◌≤◌, ◌<◌, ◌≡◌, ◌≢◌, refl, sym, ap, ◌∙◌, min, String, List, [], true, false,
  Option, some, arith, length, length-set, get_elem?, get_elem?-lt, set, get_elem?-set_self,
  get_elem?-set_ne, get_elem?-none_lt, remove_at, length-remove_at, insert_at,
  get_elem?-remove_at_lt, get_elem?-remove_at_ge, get_elem?-insert_at_lt, get_elem?-insert_at_ge,
  leb, ltb, ◌==◌, if◌then◌else◌, Bool-cases, Option-cases, inl, inr,
}
use forgetty.Session.State.{PtySize, SessionWorkspace, SessionManagerInner, Env, at_workspace, send}
use forgetty.Session.Workspaces.{
  follow_swap, move_workspace, collect_tabs, follow_remove, remove_workspace, delete_workspace,
}
use forgetty.Session.Duplicate.{tab_cwds, spawn_all, dup_tabs, commit, duplicate_workspace}
use forgetty.Session.Invariant.Copies.{layout-register_all, kill_spawned-Agrees, finish-Agrees}
use forgetty.Session.Invariant.Removal.{delete_panes-Removed}

-- `inner.layout.workspaces.get(inner.layout.active_workspace)`
abbrev pub active_ws : SessionManagerInner → Option SessionWorkspace
active_ws s = get_elem? s.workspaces s.active_workspace

module _ {ℓ} {A : Type ℓ} (xs : List A) (i j : ℕ) (x y : A) where
  -- What stands where after the two writes of a swap.
  get_elem?-swap :
      get_elem? xs i ≡ some x
      → get_elem? xs j ≡ some y
      → i ≢ j
      → (k : ℕ) → get_elem? (set (set xs i y) j x) (follow_swap k i j) ≡ get_elem? xs k
  unfolding follow_swap
  get_elem?-swap ex ey ne k = elim (Bool-cases (k == i)) [
    | inl is_i ↦
        let e : k ≡ i = ground arith in
        rw (is_i, e)
          (get_elem?-set_self (set xs i y) j x
              (omega (arith, length-set xs i y, get_elem?-lt xs j y ey))
            ∙ sym ex)
    | inr not_i ↦ elim (Bool-cases (k == j)) [
      | inl is_j ↦
          let e : k ≡ j = ground arith in
          rw (not_i, is_j, e)
            (get_elem?-set_ne (set xs i y) x (λ p. ne (sym p))
              ∙ get_elem?-set_self xs i y (get_elem?-lt xs i x ex)
              ∙ sym ey)
      | inr not_j ↦
          let ne_i : i ≢ k = ground arith in
          let ne_j : j ≢ k = ground arith in
          rw (not_i, not_j) (get_elem?-set_ne (set xs i y) x ne_j ∙ get_elem?-set_ne xs y ne_i)
    ]
  ]

-- Moving a workspace never changes which workspace is active: the index follows it, and on an error
-- nothing moves.
active-move_workspace :
    (from_idx to_idx : ℕ) (s : SessionManagerInner)
    → active_ws (move_workspace from_idx to_idx s).0 ≡ active_ws s
unfolding move_workspace send
active-move_workspace from_idx to_idx s = elim (Option-cases (get_elem? s.workspaces from_idx)) [
  | inl e ↦ rw (e, move_workspace) refl
  | inr (x, ex) ↦ elim (Option-cases (get_elem? s.workspaces to_idx)) [
    | inl e ↦ rw (ex, e, move_workspace) refl
    | inr (y, ey) ↦ elim (Bool-cases (from_idx == to_idx)) [
      | inl same ↦ rw (ex, ey, same, move_workspace) refl
      | inr moved ↦
          rw (ex, ey, moved, move_workspace)
            (get_elem?-swap s.workspaces from_idx to_idx x y ex ey (ground arith)
              s.active_workspace)
    ]
  ]
]

get_elem?-follow_remove {ℓ} :
    {A : Type ℓ} (xs : List A) (active idx : ℕ)
    → active < length xs
    → idx < length xs
    → active ≢ idx
    → get_elem? (remove_at xs idx) (follow_remove active idx (length (remove_at xs idx)))
      ≡ get_elem? xs active
unfolding follow_remove
get_elem?-follow_remove xs active idx h k ne = elim (Bool-cases (ltb idx active)) [
  | inl before ↦
      let e : suc (active - 1) ≡ active = ground arith in
      rw before (get_elem?-remove_at_ge xs idx (active - 1) (ground arith) ∙ ap (get_elem? xs) e)
  | inr after ↦
      let stays : leb (length (remove_at xs idx)) active ≡ false =
        ground (arith, length-remove_at xs idx k) in
      rw (after, stays) (get_elem?-remove_at_lt xs idx active (ground arith))
]

-- Where the index goes when the active workspace itself is removed.
get_elem?-follow_remove_self {ℓ} :
    {A : Type ℓ} (xs : List A) (idx : ℕ)
    → idx < length xs
    → 1 < length xs
    → get_elem? (remove_at xs idx) (follow_remove idx idx (length (remove_at xs idx)))
      ≡ get_elem? xs (if suc idx == length xs then idx - 1 else suc idx)
unfolding follow_remove
get_elem?-follow_remove_self xs idx h more =
    let len = length-remove_at xs idx h in
    let same : ltb idx idx ≡ false = ground arith in
    elim (Bool-cases (suc idx == length xs)) [
      | inl last ↦
          let over : leb (length (remove_at xs idx)) idx ≡ true = ground arith in
          let left : ltb 0 (length (remove_at xs idx)) ≡ true = ground arith in
          let e : length (remove_at xs idx) - 1 ≡ idx - 1 = ground arith in
          rw (same, over, left, last, e) (get_elem?-remove_at_lt xs idx (idx - 1) (ground arith))
      | inr inner ↦
          let inside : leb (length (remove_at xs idx)) idx ≡ false = ground arith in
          rw (same, inside, inner) (get_elem?-remove_at_ge xs idx idx (omega arith))
    ]

-- If there are several workspaces and the active index is valid, then after a workspace is deleted
-- the same workspace is active, unless it is the deleted one: then it is the next one, and the one
-- before if the deleted one was the last.
pub active-delete_workspace :
    (idx : ℕ) (s : SessionManagerInner)
    → s.active_workspace < length s.workspaces
    → idx < length s.workspaces
    → 1 < length s.workspaces
    → active_ws (delete_workspace idx s).0 ≡ (
        if s.active_workspace == idx
        then get_elem? s.workspaces (if suc idx == length s.workspaces then idx - 1 else suc idx)
        else active_ws s)
unfolding delete_workspace send remove_workspace
active-delete_workspace idx s h k more = elim (Option-cases (get_elem? s.workspaces idx)) [
  | inl out ↦ absurd (get_elem?-none_lt s.workspaces idx k out)
  | inr (ws, e) ↦
      let several : leb (length s.workspaces) 1 ≡ false = ground arith in
      let same = (delete_panes-Removed (collect_tabs ws.tabs []) s).layout in
      elim (Bool-cases (s.active_workspace == idx)) [
        | inl here ↦
            let at : s.active_workspace ≡ idx = ground arith in
            rw (e, at_workspace, several, same, here, at)
              (get_elem?-follow_remove_self s.workspaces idx k more)
        | inr other ↦
            rw (e, at_workspace, several, same, other)
              (get_elem?-follow_remove s.workspaces s.active_workspace idx h k (ground arith))
      ]
]

get_elem?-follow_insert {ℓ} :
    {A : Type ℓ} (xs : List A) (active idx : ℕ) (x : A)
    → idx ≤ length xs
    → get_elem? (insert_at xs idx x) (if leb idx active then active + 1 else active)
      ≡ get_elem? xs active
get_elem?-follow_insert xs active idx x h = elim (Bool-cases (leb idx active)) [
  | inl after ↦
      let e : active + 1 ≡ suc active = omega arith in
      rw (after, e) (get_elem?-insert_at_ge xs idx active x h (ground arith))
  | inr before ↦ rw before (get_elem?-insert_at_lt xs idx active x h (ground arith))
]

-- Whether the copy is made or fails, the workspace that was active is still the active one.
active-duplicate_workspace :
    (env : Env) (idx : ℕ) (name : Option String) (size : PtySize) (s : SessionManagerInner)
    → active_ws (duplicate_workspace env idx name size s).0 ≡ active_ws s
unfolding duplicate_workspace commit
active-duplicate_workspace env idx name size s = elim (Option-cases (get_elem? s.workspaces idx)) [
  | inl out ↦ rw (out, at_workspace) refl
  | inr (ws, e) ↦
      let spawned = spawn_all env size 0 (tab_cwds s.panes ws.tabs) in
      elim (Option-cases spawned.1) [
        | inr (x, failed) ↦
            rw (e, at_workspace, failed, (kill_spawned-Agrees spawned.0 s).layout) refl
        | inl done ↦
            let at = min (idx + 1) (length s.workspaces) in
            rw
              (
                e,
                at_workspace,
                done,
                (finish-Agrees env at (dup_tabs env 1 spawned.0) _).layout,
                layout-register_all env size spawned.0 s,
              )
              (get_elem?-follow_insert s.workspaces s.active_workspace at _ (omega arith))
      ]
]
