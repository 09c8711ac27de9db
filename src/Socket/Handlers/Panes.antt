-- ===== src/Socket/Handlers/Panes.antt =====
-- handlers.rs: the methods on single panes.
use text.Mathlib.Text.{◌==◌ as str_eq}
use forgetty.Base.{
  ℕ, String, List, [], ◌∷◌, ◌++◌, ◌||◌, Option, none, some, length, leb, if◌then◌else◌, unwrap_or,
}
use forgetty.Session.Tree.{PaneTreeLayout, leaf, split}
use forgetty.Session.State.{SessionManagerInner}
use forgetty.Session.Tabs.{close_tab, set_active_pane}
use forgetty.Session.Panes.{pane_info, split_pane, update_split_ratios, resize_pane}
use forgetty.Socket.Json.{
  Value, null, boolean, integer, other_number, string, array, object, get, as_str, as_array, as_f32,
  json_object, or_null,
}
use forgetty.Socket.Protocol.{
  Request, invalid_params, internal_error, missing_param, bad_direction, bad_type, pane_not_found,
  success,
}
use forgetty.Socket.Handlers.{
  Host, Reply, default_rows, default_cols, size_of, as_u16, and_then, param_u64, refuse, ok_true,
  answer, answer_ok, require_str, require_u64, require_uuid, require_pane_id,
}
use forgetty.Socket.Handlers.Tabs.{param_cwd, owner_in_workspaces, answer_close_pane}

unfoldable pub collect_all_pane_ids : PaneTreeLayout → List ℕ → List ℕ
collect_all_pane_ids (leaf id) out = out ++ id ∷ []
collect_all_pane_ids (split d r first second) out =
    collect_all_pane_ids second (collect_all_pane_ids first out)

-- A pane that is alone in its tab closes the tab. One that no tab has is closed by itself, too.
unfoldable pub handle_close_pane : Host → Request → SessionManagerInner → Reply
unfolding collect_all_pane_ids
handle_close_pane h request s = require_pane_id h request s λ pane_id.
    elim (owner_in_workspaces pane_id s.workspaces) [
      | none ↦ answer_close_pane h request pane_id s
      | some tab ↦
          if leb (length (collect_all_pane_ids tab.pane_tree [])) 1
          then answer_ok request "close_pane (via close_tab)" (close_tab h.env tab.id s)
          else answer_close_pane h request pane_id s
    ]

-- The directory that is given, or else that of the pane.
abbrev pub split_cwd : Host → Request → ℕ → SessionManagerInner → Option String
split_cwd h request id s = elim (param_cwd h request) [
  | some cwd ↦ some cwd
  | none ↦ elim (pane_info id s) [ none ↦ none | some info ↦ some (info.cwd) ]
]

unfoldable pub handle_split_pane : Host → Request → SessionManagerInner → Reply
handle_split_pane h request s = require_pane_id h request s λ pane_id.
    require_str "direction" request s λ direction.
      if str_eq direction "horizontal" || str_eq direction "vertical"
      then (let rows = as_u16 (unwrap_or (param_u64 "rows" request) default_rows) in
          let cols = as_u16 (unwrap_or (param_u64 "cols" request) default_cols) in
          answer request internal_error "split_pane"
            (λ id. json_object (("pane_id", string (h.to_string id)) ∷ []))
            (split_pane h.env pane_id direction (size_of rows cols) (split_cwd h request pane_id s)
              s))
      else refuse request s invalid_params bad_direction

unfoldable pub handle_get_pane_info : Host → Request → SessionManagerInner → Reply
handle_get_pane_info h request s = require_pane_id h request s λ id. elim (pane_info id s) [
  | none ↦ refuse request s invalid_params (pane_not_found (h.to_string id))
  | some info ↦ (
    s,
    success request.id (
        json_object (
          ("pane_id", string (h.to_string info.id))
          ∷ ("rows", integer info.rows)
          ∷ ("cols", integer info.cols)
          ∷ ("title", string info.title)
          ∷ ("cwd", string info.cwd)
          ∷ ("pid", or_null integer info.pid)
          ∷ [])),
  )
]

unfoldable pub handle_resize_pane : Host → Request → SessionManagerInner → Reply
handle_resize_pane h request s = require_pane_id h request s λ id.
    require_u64 "rows" request s λ rows. require_u64 "cols" request s λ cols.
      answer_ok request "resize pane"
        (resize_pane h.resized id (size_of (as_u16 rows) (as_u16 cols)) s)

-- The parameter `pane_id` of `set_active_pane`: absent or null, a text, or of another type.
abbrev pub focus_value : Host → Request → SessionManagerInner → (Option ℕ → Reply) → Value → Reply
focus_value h request s body null = body none
focus_value h request s body (string text) = require_uuid h text request s λ id. body (some id)
focus_value h request s body (boolean b) = refuse request s invalid_params bad_type
focus_value h request s body (integer n) = refuse request s invalid_params bad_type
focus_value h request s body (other_number x) = refuse request s invalid_params bad_type
focus_value h request s body (array vs) = refuse request s invalid_params bad_type
focus_value h request s body (object fields) = refuse request s invalid_params bad_type

abbrev pub require_focus : Host → Request → SessionManagerInner → (Option ℕ → Reply) → Reply
require_focus h request s body = elim (get "pane_id" request.params) [
  | none ↦ body none
  | some v ↦ focus_value h request s body v
]

unfoldable pub handle_set_active_pane : Host → Request → SessionManagerInner → Reply
handle_set_active_pane h request s = require_u64 "workspace_idx" request s λ workspace_idx.
    require_str "tab_id" request s λ text. require_uuid h text request s λ tab_id.
      require_focus h request s λ pane_id.
        answer_ok request "set_active_pane" (set_active_pane workspace_idx tab_id pane_id s)

-- An entry of `ratios`; one that is not complete is skipped.
unfoldable pub ratio_entry : Host → Value → Option (ℕ × ℕ)
ratio_entry h entry = and_then (and_then (get "pane_id" entry) as_str) λ text.
    and_then (h.parse_str text)
      λ id. and_then (and_then (get "ratio" entry) (as_f32 h.f32_of)) λ ratio. some (id, ratio)

unfoldable pub ratio_updates : Host → List Value → List (ℕ × ℕ)
unfolding ratio_entry
ratio_updates h [] = []
ratio_updates h (entry ∷ entries) =
    let rest = ratio_updates h entries in
    elim (ratio_entry h entry) [ none ↦ rest | some update ↦ update ∷ rest ]

unfoldable pub handle_update_split_ratios : Host → Request → SessionManagerInner → Reply
unfolding ratio_updates
handle_update_split_ratios h request s = elim (and_then (get "ratios" request.params) as_array) [
  | none ↦ refuse request s invalid_params (missing_param "ratios")
  | some entries ↦ (update_split_ratios (ratio_updates h entries) s, success request.id ok_true)
]
