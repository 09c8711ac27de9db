-- ===== src/Socket/Layout/Client.antt =====
-- daemon_client.rs: how a window reads the notifications of the layout.
use text.Mathlib.Text.{◌==◌ as str_eq}
use forgetty.Base.{ℕ, String, List, [], ◌∷◌, Option, none, some, unwrap_or, if◌then◌else◌}
use forgetty.Socket.Json.{
  Value, null, boolean, integer, other_number, string, array, object, get, as_str, as_u64,
}
use forgetty.Socket.Handlers.{and_then}

pub data LayoutEvent : Type 0 where
  tab_created : ℕ → ℕ → ℕ → LayoutEvent
  tab_closed : ℕ → ℕ → LayoutEvent
  pane_split : ℕ → ℕ → ℕ → String → LayoutEvent
  tab_moved : ℕ → ℕ → ℕ → LayoutEvent
  active_tab_changed : ℕ → ℕ → LayoutEvent
  workspace_renamed : ℕ → ℕ → String → LayoutEvent
  workspace_deleted : ℕ → ℕ → LayoutEvent
  workspace_color_changed : ℕ → ℕ → Option String → LayoutEvent
  workspaces_reordered : ℕ → ℕ → ℕ → ℕ → LayoutEvent
  active_pane_changed : ℕ → ℕ → Option ℕ → LayoutEvent

-- `params.get(key).and_then(|v| v.as_u64()).unwrap_or(0)`, and the same with `as_str`.
abbrev pub u64_or_zero : String → Value → ℕ
u64_or_zero key params = unwrap_or (and_then (get key params) as_u64) 0

abbrev pub str_or : String → String → Value → String
str_or fallback key params = unwrap_or (and_then (get key params) as_str) fallback

-- `pane_id` of `active_pane_changed`: none of none is the cleared focus, and none skips the line.
abbrev pub focused_pane : (String → Option ℕ) → Option Value → Option (Option ℕ)
focused_pane parse none = some none
focused_pane parse (some null) = some none
focused_pane parse (some (string s)) = and_then (parse s) (λ id. some (some id))
focused_pane parse (some (boolean b)) = none
focused_pane parse (some (integer n)) = none
focused_pane parse (some (other_number x)) = none
focused_pane parse (some (array values)) = none
focused_pane parse (some (object fields)) = none

module _ (parse : String → Option ℕ) where
  -- A UUID, without which the line is skipped.
  abbrev pub with_uuid : String → Value → (ℕ → Option LayoutEvent) → Option LayoutEvent
  with_uuid key params body = and_then (parse (str_or "" key params)) body

  -- The arms of the match on the method; none is `continue`.
  unfoldable pub layout_event : String → Value → Option LayoutEvent
  layout_event method params =
      let idx = u64_or_zero "workspace_idx" params in
      if str_eq method "tab_created"
      then with_uuid "tab_id" params
          (λ tab_id. with_uuid "pane_id" params λ pane_id. some (tab_created idx tab_id pane_id))
      else if str_eq method "tab_closed"
      then with_uuid "tab_id" params (λ tab_id. some (tab_closed idx tab_id))
      else if str_eq method "pane_split"
      then with_uuid "tab_id" params (λ tab_id. with_uuid "parent_pane_id" params λ parent.
        with_uuid "new_pane_id" params λ new_pane.
          some (pane_split tab_id parent new_pane (str_or "horizontal" "direction" params)))
      else if str_eq method "tab_moved"
      then with_uuid "tab_id" params
          (λ tab_id. some (tab_moved idx tab_id (u64_or_zero "new_index" params)))
      else if str_eq method "active_tab_changed"
      then some (active_tab_changed idx (u64_or_zero "tab_idx" params))
      else if str_eq method "workspace_renamed"
      then with_uuid "workspace_id" params
          (λ id. some (workspace_renamed idx id (str_or "" "name" params)))
      else if str_eq method "workspace_deleted"
      then with_uuid "workspace_id" params (λ id. some (workspace_deleted idx id))
      else if str_eq method "workspace_color_changed"
      then with_uuid "workspace_id" params
          (λ id. some (workspace_color_changed idx id (and_then (get "color" params) as_str)))
      else if str_eq method "workspaces_reordered"
      then with_uuid "from_workspace_id" params (λ from_id.
        with_uuid "to_workspace_id" params λ to_id. some (
          workspaces_reordered (u64_or_zero "from_idx" params) (u64_or_zero "to_idx" params) from_id
            to_id))
      else if str_eq method "active_pane_changed"
      then with_uuid "tab_id" params (λ tab_id.
        and_then (focused_pane parse (get "pane_id" params))
          λ pane_id. some (active_pane_changed idx tab_id pane_id))
      else none

  unfoldable pub read_notification : Value → Option LayoutEvent
  unfolding layout_event
  read_notification v = layout_event (str_or "" "method" v) (unwrap_or (get "params" v) null)

  -- The loop over the lines, each of which is the text of a value.
  unfoldable pub subscribe_layout_task : List Value → List LayoutEvent
  unfolding read_notification
  subscribe_layout_task [] = []
  subscribe_layout_task (v ∷ lines) =
      let more = subscribe_layout_task lines in
      elim (read_notification v) [ none ↦ more | some e ↦ e ∷ more ]
