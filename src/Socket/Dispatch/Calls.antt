-- ===== src/Socket/Dispatch/Calls.antt =====
-- handlers.rs: which call of the session manager each method is for, and with which parameters.
use forgetty.Base.{
  ℕ, ◌≡◌, ◌⊎◌, refl, String, List, [], ◌∷◌, Bool, true, false, Option, none, some, unwrap_or,
}
use forgetty.Base.{length, leb}
use forgetty.Session.State.{SessionTab, SessionManagerInner, Error, PaneInfo}
use forgetty.Session.Panes.{pane_info}
use forgetty.Session.Output.{intr_byte}
use forgetty.Session.Run.{
  Command, respond, rename_workspace_call, set_workspace_color_call, move_workspace_call,
  delete_workspace_call, duplicate_workspace_call, set_active_workspace_call, create_tab_call,
  close_tab_call, move_tab_call, set_active_tab_call, set_active_pane_call, split_pane_call,
  close_pane_call, update_split_ratios_call, resize_pane_call, write_pty_call, set_pinned_call,
}
use forgetty.Session.Run.Fresh.{is_given_id}
use forgetty.Socket.Json.{Value, null, string, get, as_array, as_bool}
use forgetty.Socket.Protocol.{Request}
use forgetty.Socket.Handlers.{
  Host, param_str, param_u64, and_then, size_of, as_u16, default_rows, default_cols,
}
use forgetty.Socket.Handlers.Tabs.{
  param_cwd, param_command, find_tab_for_pane, owner_in_workspaces, index_in_workspaces,
}
use forgetty.Socket.Handlers.Panes.{collect_all_pane_ids, split_cwd, ratio_updates}
use forgetty.Socket.Dispatch.{
  Method, new_tab, close_tab, focus_tab, set_active_workspace, split_pane, move_tab, send_input,
  resize_pane, send_sigint, close_pane, rename_workspace, delete_workspace, duplicate_workspace,
  set_workspace_color, move_workspace, set_active_pane, update_split_ratios, set_pinned,
}

module _ (h : Host) (request : Request) where
  -- The parameter is the text of a UUID.
  abbrev pub GivesUuid : String → ℕ → Type 0
  GivesUuid key id =
      (text : String) × (param_str key request ≡ some text) × (h.parse_str text ≡ some id)

  -- The parameter `pane_id` names a pane of the registry.
  abbrev pub GivesPane : SessionManagerInner → ℕ → Type 0
  GivesPane s id = GivesUuid "pane_id" id × ((info : PaneInfo) × (pane_info id s ≡ some info))

  -- The parameter `pane_id` names a pane, or is null or missing.
  abbrev pub GivesFocus : Option ℕ → Type 0
  GivesFocus none =
      (get "pane_id" request.params ≡ none) ⊎ (get "pane_id" request.params ≡ some null)
  GivesFocus (some id) =
      (text : String) × (get "pane_id" request.params ≡ some (string text))
      × (h.parse_str text ≡ some id)

-- The size that the parameters `rows` and `cols` give.
abbrev pub GivesSize : Request → ℕ → ℕ → Type 0
GivesSize request rows cols =
    (rows ≡ as_u16 (unwrap_or (param_u64 "rows" request) default_rows))
    × (cols ≡ as_u16 (unwrap_or (param_u64 "cols" request) default_cols))

abbrev pub is_alone : SessionTab → Bool
is_alone tab = leb (length (collect_all_pane_ids tab.pane_tree [])) 1

-- A request of the method makes the call, with the parameters that it gives.
pub data Calls (h : Host) (request : Request) (s : SessionManagerInner)
    : Method → Command → Type 0 where
  opens_tab :
      (rows cols : ℕ)
      → GivesSize request rows cols
      → Calls h request s new_tab (
          create_tab_call
            (unwrap_or (param_u64 "workspace_idx" request) 0)
            (param_cwd h request)
            (size_of rows cols)
            (param_command request))
  closes_tab :
      (id : ℕ) → GivesUuid h request "tab_id" id → Calls h request s close_tab (close_tab_call id)
  -- Without a `tab_id`, the tab of the pane, or the pane alone if no tab has it.
  closes_owner :
      (pane_id id : ℕ)
      → param_str "tab_id" request ≡ none
      → GivesPane h request s pane_id
      → find_tab_for_pane s.layout pane_id ≡ some id
      → Calls h request s close_tab (close_tab_call id)
  closes_stray :
      (pane_id : ℕ)
      → param_str "tab_id" request ≡ none
      → GivesPane h request s pane_id
      → find_tab_for_pane s.layout pane_id ≡ none
      → Calls h request s close_tab (close_pane_call pane_id)
  focuses_tab :
      (id idx tab_idx : ℕ)
      → GivesUuid h request "tab_id" id
      → index_in_workspaces 0 id s.workspaces ≡ some (idx, tab_idx)
      → Calls h request s focus_tab (set_active_tab_call idx tab_idx)
  moves_tab :
      (id new_index : ℕ)
      → GivesUuid h request "tab_id" id
      → param_u64 "new_index" request ≡ some new_index
      → Calls h request s move_tab (move_tab_call id new_index)
  activates_workspace :
      (idx : ℕ)
      → param_u64 "workspace_idx" request ≡ some idx
      → Calls h request s set_active_workspace (set_active_workspace_call idx)
  renames_workspace :
      (idx : ℕ) (name : String)
      → param_u64 "workspace_idx" request ≡ some idx
      → param_str "name" request ≡ some name
      → Calls h request s rename_workspace (rename_workspace_call idx name)
  deletes_workspace :
      (idx : ℕ)
      → param_u64 "workspace_idx" request ≡ some idx
      → Calls h request s delete_workspace (delete_workspace_call idx)
  duplicates_workspace :
      (idx : ℕ)
      → param_u64 "source_workspace_idx" request ≡ some idx
      → Calls h request s duplicate_workspace (
          duplicate_workspace_call idx
            (param_str "new_name" request)
            (size_of default_rows default_cols))
  colors_workspace :
      (idx : ℕ)
      → param_u64 "workspace_idx" request ≡ some idx
      → Calls h request s set_workspace_color
          (set_workspace_color_call idx (param_str "color" request))
  moves_workspace :
      (from_idx to_idx : ℕ)
      → param_u64 "from_idx" request ≡ some from_idx
      → param_u64 "to_idx" request ≡ some to_idx
      → Calls h request s move_workspace (move_workspace_call from_idx to_idx)
  -- The tab of a pane that is alone in it; another pane is closed by itself.
  closes_alone :
      (pane_id : ℕ) (tab : SessionTab)
      → GivesPane h request s pane_id
      → owner_in_workspaces pane_id s.workspaces ≡ some tab
      → is_alone tab ≡ true
      → Calls h request s close_pane (close_tab_call tab.id)
  closes_shared :
      (pane_id : ℕ) (tab : SessionTab)
      → GivesPane h request s pane_id
      → owner_in_workspaces pane_id s.workspaces ≡ some tab
      → is_alone tab ≡ false
      → Calls h request s close_pane (close_pane_call pane_id)
  closes_unowned :
      (pane_id : ℕ)
      → GivesPane h request s pane_id
      → owner_in_workspaces pane_id s.workspaces ≡ none
      → Calls h request s close_pane (close_pane_call pane_id)
  splits_pane :
      (pane_id rows cols : ℕ) (direction : String)
      → GivesPane h request s pane_id
      → param_str "direction" request ≡ some direction
      → GivesSize request rows cols
      → Calls h request s split_pane
          (split_pane_call pane_id direction (size_of rows cols) (split_cwd h request pane_id s))
  resizes_pane :
      (pane_id rows cols : ℕ)
      → GivesPane h request s pane_id
      → param_u64 "rows" request ≡ some rows
      → param_u64 "cols" request ≡ some cols
      → Calls h request s resize_pane
          (resize_pane_call h.resized pane_id (size_of (as_u16 rows) (as_u16 cols)))
  focuses_pane :
      (idx tab_id : ℕ) (pane_id : Option ℕ)
      → param_u64 "workspace_idx" request ≡ some idx
      → GivesUuid h request "tab_id" tab_id
      → GivesFocus h request pane_id
      → Calls h request s set_active_pane (set_active_pane_call idx tab_id pane_id)
  updates_ratios :
      (entries : List Value)
      → and_then (get "ratios" request.params) as_array ≡ some entries
      → Calls h request s update_split_ratios (update_split_ratios_call (ratio_updates h entries))
  sends_input :
      (pane_id : ℕ) (text : String) (bytes : List ℕ)
      → GivesPane h request s pane_id
      → param_str "data" request ≡ some text
      → h.decode_base64 text ≡ some bytes
      → Calls h request s send_input (write_pty_call h.written pane_id bytes)
  -- The write that fails, after which the process group is not signalled.
  fails_interrupt :
      (pane_id byte : ℕ) (e : Error)
      → GivesPane h request s pane_id
      → byte ≡ unwrap_or (intr_byte h.vintr pane_id s) 3
      → (respond h.env (write_pty_call h.written pane_id (byte ∷ [])) s).1 ≡ some e
      → Calls h request s send_sigint (write_pty_call h.written pane_id (byte ∷ []))
  pins :
      (flag : Bool)
      → and_then (get "pinned" request.params) as_bool ≡ some flag
      → Calls h request s set_pinned (set_pinned_call flag)

-- No request gives the id of a pane to come.
pub is_given_id-Calls :
    {h : Host} {request : Request} {s : SessionManagerInner} {m : Method} {command : Command}
    → Calls h request s m command
    → is_given_id command ≡ false
is_given_id-Calls (opens_tab _ _ _) = refl
is_given_id-Calls (closes_tab _ _) = refl
is_given_id-Calls (closes_owner _ _ _ _ _) = refl
is_given_id-Calls (closes_stray _ _ _ _) = refl
is_given_id-Calls (focuses_tab _ _ _ _ _) = refl
is_given_id-Calls (moves_tab _ _ _ _) = refl
is_given_id-Calls (activates_workspace _ _) = refl
is_given_id-Calls (renames_workspace _ _ _ _) = refl
is_given_id-Calls (deletes_workspace _ _) = refl
is_given_id-Calls (duplicates_workspace _ _) = refl
is_given_id-Calls (colors_workspace _ _) = refl
is_given_id-Calls (moves_workspace _ _ _ _) = refl
is_given_id-Calls (closes_alone _ _ _ _ _) = refl
is_given_id-Calls (closes_shared _ _ _ _ _) = refl
is_given_id-Calls (closes_unowned _ _ _) = refl
is_given_id-Calls (splits_pane _ _ _ _ _ _ _) = refl
is_given_id-Calls (resizes_pane _ _ _ _ _ _) = refl
is_given_id-Calls (focuses_pane _ _ _ _ _ _) = refl
is_given_id-Calls (updates_ratios _ _) = refl
is_given_id-Calls (sends_input _ _ _ _ _ _) = refl
is_given_id-Calls (fails_interrupt _ _ _ _ _ _) = refl
is_given_id-Calls (pins _ _) = refl
