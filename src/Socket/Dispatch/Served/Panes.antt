-- ===== src/Socket/Dispatch/Served/Panes.antt =====
-- handlers.rs: the methods on single panes, as calls of the manager.
use forgetty.Base.{ℕ, ◌≡◌, refl, ◌||◌, Option, none, some, Bool-cases, Option-cases, inl, inr}
use text.Mathlib.Text.{◌==◌ as str_eq}
use forgetty.Session.State.{SessionManagerInner}
use forgetty.Session.Run.{
  respond, set_active_pane_call, split_pane_call, update_split_ratios_call, resize_pane_call,
}
use forgetty.Session.Tabs.{set_active_pane as focus_that_pane}
use forgetty.Session.Panes.{pane_info}
use forgetty.Socket.Json.{
  Value, null, boolean, integer, other_number, string, array, object, get, as_array,
}
use forgetty.Socket.Protocol.{Request, internal_error}
use forgetty.Socket.Handlers.{Host, Reply, and_then, ok_true}
use forgetty.Socket.Handlers.Tabs.{owner_in_workspaces}
use forgetty.Socket.Handlers.Panes.{
  handle_split_pane, handle_get_pane_info, handle_resize_pane, handle_close_pane,
  handle_set_active_pane, handle_update_split_ratios, focus_value, require_focus, ratio_updates,
}
use forgetty.Socket.Dispatch.{
  split_pane, get_pane_info, resize_pane, close_pane, set_active_pane, update_split_ratios,
}
use forgetty.Socket.Dispatch.Calls.{
  GivesFocus, is_alone, closes_alone, closes_shared, closes_unowned, splits_pane, resizes_pane,
  focuses_pane, updates_ratios,
}
use forgetty.Socket.Dispatch.Served.Tabs.{close_tab-Served, close_pane-Served}
use forgetty.Socket.Dispatch.Served.{
  accepted, Served, read, called, refused-Served, require_str-Served, require_u64-Served,
  require_uuid-Served, require_pane_id-Served, answer-Served,
}

module _ (h : Host) (request : Request) (s : SessionManagerInner) where
  pub handle_close_pane-Served : Served h request s close_pane (handle_close_pane h request s)
  unfolding handle_close_pane
  handle_close_pane-Served = require_pane_id-Served h request s close_pane _ λ id here.
      elim (Option-cases (owner_in_workspaces id s.workspaces)) [
        | inl nowhere ↦
            rw nowhere
              (close_pane-Served h request s close_pane id (closes_unowned id here nowhere))
        | inr (tab, owner) ↦ rw owner (elim (Bool-cases (is_alone tab)) [
          | inl alone ↦ rw alone (
              close_tab-Served h request s close_pane tab.id _
                (closes_alone id tab here owner alone))
          | inr shared ↦
              rw shared (
                close_pane-Served h request s close_pane id
                  (closes_shared id tab here owner shared))
        ])
      ]

  pub handle_split_pane-Served : Served h request s split_pane (handle_split_pane h request s)
  unfolding handle_split_pane respond
  handle_split_pane-Served = require_pane_id-Served h request s split_pane _ λ id here.
      require_str-Served h request s split_pane "direction" _ λ direction given.
        elim (Bool-cases (str_eq direction "horizontal" || str_eq direction "vertical")) [
          | inl known ↦ rw known (
              answer-Served h request s split_pane (split_pane_call id direction _ _) _ _ _ _
                (splits_pane id _ _ direction here given (refl, refl)) refl)
          | inr bad ↦ rw bad (refused-Served h request s split_pane _ _)
        ]

  pub handle_get_pane_info-Served :
      Served h request s get_pane_info (handle_get_pane_info h request s)
  unfolding handle_get_pane_info
  handle_get_pane_info-Served = require_pane_id-Served h request s get_pane_info _ λ id here.
      elim (Option-cases (pane_info id s)) [
        | inl gone ↦ rw gone (refused-Served h request s get_pane_info _ _)
        | inr (info, there) ↦ rw there (read refl (accepted _))
      ]

  pub handle_resize_pane-Served : Served h request s resize_pane (handle_resize_pane h request s)
  unfolding handle_resize_pane respond
  handle_resize_pane-Served = require_pane_id-Served h request s resize_pane _ λ id here.
      require_u64-Served h request s resize_pane "rows" _ λ rows high.
        require_u64-Served h request s resize_pane "cols" _ λ cols wide.
          answer-Served h request s resize_pane (resize_pane_call h.resized id _) _ _ _ _
            (resizes_pane id rows cols here high wide) refl

  focus_value-Served :
      (v : Value) (body : Option ℕ → Reply)
      → get "pane_id" request.params ≡ some v
      → ((id : Option ℕ) → GivesFocus h request id → Served h request s set_active_pane (body id))
      → Served h request s set_active_pane (focus_value h request s body v)
  focus_value-Served null body there then_ok = then_ok none (inr there)
  focus_value-Served (string text) body there then_ok =
      require_uuid-Served h request s set_active_pane text _
        λ id parsed. then_ok (some id) (text, there, parsed)
  focus_value-Served (boolean b) body there then_ok = refused-Served h request s set_active_pane _ _
  focus_value-Served (integer n) body there then_ok = refused-Served h request s set_active_pane _ _
  focus_value-Served (other_number x) body there then_ok =
      refused-Served h request s set_active_pane _ _
  focus_value-Served (array vs) body there then_ok = refused-Served h request s set_active_pane _ _
  focus_value-Served (object fields) body there then_ok =
      refused-Served h request s set_active_pane _ _

  require_focus-Served :
      (body : Option ℕ → Reply)
      → ((id : Option ℕ) → GivesFocus h request id → Served h request s set_active_pane (body id))
      → Served h request s set_active_pane (require_focus h request s body)
  require_focus-Served body then_ok = elim (Option-cases (get "pane_id" request.params)) [
    | inl missing ↦ rw (missing, require_focus) (then_ok none (inl missing))
    | inr (v, there) ↦ rw (there, require_focus) (focus_value-Served v body there then_ok)
  ]

  pub handle_set_active_pane-Served :
      Served h request s set_active_pane (handle_set_active_pane h request s)
  unfolding handle_set_active_pane respond
  handle_set_active_pane-Served =
      require_u64-Served h request s set_active_pane "workspace_idx" _ λ idx given.
        require_str-Served h request s set_active_pane "tab_id" _ λ text named.
          require_uuid-Served h request s set_active_pane text _ λ tab_id parsed.
            require_focus-Served _ λ id focus.
              answer-Served h request s set_active_pane (set_active_pane_call idx tab_id id)
                internal_error "set_active_pane" (λ a. ok_true) (focus_that_pane idx tab_id id s)
                (focuses_pane idx tab_id id given (text, named, parsed) focus) refl

  pub handle_update_split_ratios-Served :
      Served h request s update_split_ratios (handle_update_split_ratios h request s)
  unfolding handle_update_split_ratios respond
  handle_update_split_ratios-Served =
      elim (Option-cases (and_then (get "ratios" request.params) as_array)) [
        | inl missing ↦
            rw (missing, handle_update_split_ratios)
              (refused-Served h request s update_split_ratios _ _)
        | inr (entries, there) ↦
            rw (there, handle_update_split_ratios)
              (called (update_split_ratios_call (ratio_updates h entries))
                (updates_ratios entries there) refl (accepted ok_true))
      ]
