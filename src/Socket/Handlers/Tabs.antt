-- ===== src/Socket/Handlers/Tabs.antt =====
-- handlers.rs: the methods on tabs, and the layout query.
use text.Mathlib.Text.{◌==◌ as str_eq}
use forgetty.Base.{
  ℕ, ◌+◌, String, List, [], ◌∷◌, Bool, ◌||◌, Option, none, some, map, ◌==◌, if◌then◌else◌,
  unwrap_or,
}
use forgetty.Session.Tree.{PaneTreeLayout, leaf, split}
use forgetty.Session.State.{
  SessionTab, SessionWorkspace, SessionLayout, SessionManagerInner, PaneInfo,
}
use forgetty.Session.Tabs.{create_tab, close_tab, move_tab, set_active_tab}
use forgetty.Session.Panes.{pane_info, close_pane}
use forgetty.Socket.Json.{
  Value, integer, other_number, string, get, as_str, as_array, json_object, json_array, or_null,
}
use forgetty.Socket.Protocol.{
  Request, invalid_params, internal_error, missing_param, tab_not_found, success,
}
use forgetty.Socket.Handlers.{
  Host, Reply, default_rows, default_cols, size_of, as_u16, and_then, param_str, param_u64, refuse,
  ok_true, answer, answer_ok, require_str, require_u64, require_uuid, require_live,
}

tab_value : Host → PaneInfo → Value
tab_value h info = json_object (
    ("pane_id", string (h.to_string info.id))
    ∷ ("pid", or_null integer info.pid)
    ∷ ("rows", integer info.rows)
    ∷ ("cols", integer info.cols)
    ∷ ("cwd", string info.cwd)
    ∷ ("title", string info.title)
    ∷ [])

-- `filter_map`, one `pane_info` for each id.
tab_values : Host → SessionManagerInner → List ℕ → List Value
tab_values h s [] = []
tab_values h s (id ∷ ids) =
    let rest = tab_values h s ids in
    elim (pane_info id s) [ none ↦ rest | some info ↦ tab_value h info ∷ rest ]

unfoldable pub handle_list_tabs : Host → Request → SessionManagerInner → Reply
unfolding tab_value tab_values
handle_list_tabs h request s =
    (s, success request.id (json_object (("tabs", json_array (tab_values h s s.pane_order)) ∷ [])))

-- The `Serialize` instances of the layout types; an enum is an object with the variant's name.
tree_to_value : Host → PaneTreeLayout → Value
tree_to_value h (leaf id) =
    json_object (("Leaf", json_object (("pane_id", string (h.to_string id)) ∷ [])) ∷ [])
tree_to_value h (split direction ratio first second) = json_object (
    (
      "Split",
      json_object (
          ("direction", string direction)
          ∷ ("ratio", other_number ratio)
          ∷ ("first", tree_to_value h first)
          ∷ ("second", tree_to_value h second)
          ∷ []),
    )
    ∷ [])

tab_to_value : Host → SessionTab → Value
tab_to_value h tab = json_object (
    ("id", string (h.to_string tab.id))
    ∷ ("title", string tab.title)
    ∷ ("pane_tree", tree_to_value h tab.pane_tree)
    ∷ ("active_pane_id", or_null (λ id. string (h.to_string id)) tab.active_pane_id)
    ∷ [])

workspace_to_value : Host → SessionWorkspace → Value
workspace_to_value h ws = json_object (
    ("id", string (h.to_string ws.id))
    ∷ ("name", string ws.name)
    ∷ ("tabs", json_array (map (tab_to_value h) ws.tabs))
    ∷ ("active_tab", integer ws.active_tab)
    ∷ ("color", or_null string ws.color)
    ∷ [])

unfoldable pub layout_to_value : Host → SessionLayout → Value
unfolding tree_to_value tab_to_value workspace_to_value
layout_to_value h layout = json_object (
    ("workspaces", json_array (map (workspace_to_value h) layout.workspaces))
    ∷ ("active_workspace", integer layout.active_workspace)
    ∷ [])

-- The layout has no value that serde_json cannot serialize.
unfoldable pub handle_get_layout : Host → Request → SessionManagerInner → Reply
handle_get_layout h request s = (s, success request.id (layout_to_value h s.layout))

-- `filter_map(|v| v.as_str().map(String::from))`
texts : List Value → List String
texts [] = []
texts (v ∷ vs) = let rest = texts vs in elim (as_str v) [ none ↦ rest | some text ↦ text ∷ rest ]

nonempty : List String → Option (List String)
nonempty [] = none
nonempty (text ∷ rest) = some (text ∷ rest)

-- A directory from the parameter `cwd`.
unfoldable pub param_cwd : Host → Request → Option String
param_cwd h request =
    and_then (param_str "cwd" request)
      λ text. if str_eq text "" then none else (if h.is_dir text then some text else none)

unfoldable pub param_command : Request → Option (List String)
unfolding texts nonempty
param_command request =
    and_then (and_then (get "command" request.params) as_array) λ vs. nonempty (texts vs)

abbrev pub pane_and_tab : Host → ℕ × ℕ → Value
pane_and_tab h ids =
    json_object
      (("tab_id", string (h.to_string ids.1)) ∷ ("pane_id", string (h.to_string ids.0)) ∷ [])

unfoldable pub handle_new_tab : Host → Request → SessionManagerInner → Reply
unfolding param_cwd param_command
handle_new_tab h request s =
    let workspace_idx = unwrap_or (param_u64 "workspace_idx" request) 0 in
    let rows = as_u16 (unwrap_or (param_u64 "rows" request) default_rows) in
    let cols = as_u16 (unwrap_or (param_u64 "cols" request) default_cols) in
    answer request internal_error "create tab" (pane_and_tab h) (
      create_tab h.env workspace_idx (param_cwd h request) (size_of rows cols)
        (param_command request) s)

unfoldable pub tree_contains_pane : PaneTreeLayout → ℕ → Bool
tree_contains_pane (leaf id) pane_id = id == pane_id
tree_contains_pane (split d r first second) pane_id =
    tree_contains_pane first pane_id || tree_contains_pane second pane_id

unfoldable pub tab_contains_pane : SessionTab → ℕ → Bool
tab_contains_pane tab pane_id = tree_contains_pane tab.pane_tree pane_id

-- The inner loop and the outer loop of a search through the tabs: the first one that has the pane.
unfoldable pub owner_in_tabs : ℕ → List SessionTab → Option SessionTab
owner_in_tabs pane_id [] = none
owner_in_tabs pane_id (tab ∷ tabs) =
    if tab_contains_pane tab pane_id then some tab else owner_in_tabs pane_id tabs

unfoldable pub owner_in_workspaces : ℕ → List SessionWorkspace → Option SessionTab
owner_in_workspaces pane_id [] = none
owner_in_workspaces pane_id (ws ∷ rest) = elim (owner_in_tabs pane_id ws.tabs) [
  | some tab ↦ some tab
  | none ↦ owner_in_workspaces pane_id rest
]

unfoldable pub find_tab_for_pane : SessionLayout → ℕ → Option ℕ
find_tab_for_pane layout pane_id = elim (owner_in_workspaces pane_id layout.workspaces) [
  | none ↦ none
  | some tab ↦ some tab.id
]

-- A `close_pane` of the manager, which never fails.
abbrev pub answer_close_pane : Host → Request → ℕ → SessionManagerInner → Reply
answer_close_pane h request id s = (close_pane h.env id s, success request.id ok_true)

-- The parameter `tab_id`, or else the pane whose tab is meant.
unfoldable pub handle_close_tab : Host → Request → SessionManagerInner → Reply
handle_close_tab h request s = elim (param_str "tab_id" request) [
  | some text ↦
      require_uuid h text request s
        λ tab_id. answer_ok request "close tab" (close_tab h.env tab_id s)
  | none ↦ elim (param_str "pane_id" request) [
    | some raw ↦ require_uuid h raw request s λ pane_id. require_live pane_id raw request s λ info.
        elim (find_tab_for_pane s.layout pane_id) [
          | some tab_id ↦ answer_ok request "close tab" (close_tab h.env tab_id s)
          | none ↦ answer_close_pane h request pane_id s
        ]
    | none ↦ refuse request s invalid_params (missing_param "tab_id or pane_id")
  ]
]

-- The two loops of `handle_focus_tab`: the workspace and the index of the tab.
unfoldable pub index_in_tabs : ℕ → ℕ → List SessionTab → Option ℕ
index_in_tabs i tab_id [] = none
index_in_tabs i tab_id (tab ∷ tabs) =
    if tab.id == tab_id then some i else index_in_tabs (i + 1) tab_id tabs

unfoldable pub index_in_workspaces : ℕ → ℕ → List SessionWorkspace → Option (ℕ × ℕ)
unfolding index_in_tabs
index_in_workspaces i tab_id [] = none
index_in_workspaces i tab_id (ws ∷ rest) = elim (index_in_tabs 0 tab_id ws.tabs) [
  | some j ↦ some (i, j)
  | none ↦ index_in_workspaces (i + 1) tab_id rest
]

unfoldable pub handle_focus_tab : Host → Request → SessionManagerInner → Reply
handle_focus_tab h request s = require_str "tab_id" request s λ text.
    require_uuid h text request s λ tab_id. elim (index_in_workspaces 0 tab_id s.workspaces) [
      | none ↦ refuse request s invalid_params (tab_not_found text)
      | some (ws_idx, tab_idx) ↦
          answer_ok request "set_active_tab" (set_active_tab ws_idx tab_idx s)
    ]

unfoldable pub handle_move_tab : Host → Request → SessionManagerInner → Reply
handle_move_tab h request s = require_str "tab_id" request s λ text.
    require_uuid h text request s λ tab_id.
      require_u64 "new_index" request s
        λ new_index. answer_ok request "move_tab" (move_tab tab_id new_index s)
