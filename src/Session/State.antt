-- ===== src/Session/State.antt =====
-- The data of crates/forgetty-session: layout.rs, pane.rs, pty_bridge.rs, events.rs, and the struct
-- `SessionManagerInner` of manager.rs, which every operation locks. A UUID is a number, and a path a
-- text. What an operation is told by the operating system is an argument, `Env`.
use text.Mathlib.Text.{◌==◌ as str_eq}
use forgetty.Base.{
  ℕ, String, List, [], ◌∷◌, ◌++◌, Bool, true, false, Option, none, some, length, get_elem?,
  Option-cases, inl, inr, ◌≡◌, ◌⊎◌, refl,
}
use forgetty.Session.ByteLog.{ByteLog, LogFile}
use forgetty.Session.Tree.{PaneTreeLayout}

pub record PtySize : Type 0 where
  pub rows : ℕ
  pub cols : ℕ
  pub pixel_width : ℕ
  pub pixel_height : ℕ

-- `handle` stands for the `PtyProcess`, and `pty_rx` for the receiver until it is taken.
pub record PtyBridge : Type 0 where
  pub handle : ℕ
  pub pid : Option ℕ
  pub pty_rx : Option ℕ

pub record PaneState : Type 0 where
  pub id : ℕ
  pub pty_bridge : PtyBridge
  pub cwd : String
  pub title : String
  pub rows : ℕ
  pub cols : ℕ

pub record PaneInfo : Type 0 where
  pub id : ℕ
  pub pid : Option ℕ
  pub rows : ℕ
  pub cols : ℕ
  pub cwd : String
  pub title : String

pub record SessionTab : Type 0 where
  pub id : ℕ
  pub title : String
  pub pane_tree : PaneTreeLayout
  pub active_pane_id : Option ℕ

pub record SessionWorkspace : Type 0 where
  pub id : ℕ
  pub name : String
  pub tabs : List SessionTab
  pub active_tab : ℕ
  pub color : Option String

pub record SessionLayout : Type 0 where
  pub workspaces : List SessionWorkspace
  pub active_workspace : ℕ

-- `SessionLayout::new_default`, with the id that `Uuid::new_v4` returns.
unfoldable pub new_default : ℕ → SessionLayout
new_default id = record {
  workspaces = record { id = id; name = "Default"; tabs = []; active_tab = 0; color = none } ∷ [];
  active_workspace = 0;
}

pub data SessionEvent : Type 0 where
  pty_output : ℕ → List ℕ → SessionEvent
  pane_created pane_closed : ℕ → SessionEvent
  tab_created : ℕ → ℕ → ℕ → SessionEvent
  tab_closed : ℕ → ℕ → SessionEvent
  pane_split : ℕ → ℕ → ℕ → String → SessionEvent
  tab_moved : ℕ → ℕ → ℕ → SessionEvent
  active_tab_changed : ℕ → ℕ → SessionEvent
  active_workspace_changed : ℕ → SessionEvent
  workspace_created workspace_renamed : ℕ → ℕ → String → SessionEvent
  workspace_deleted : ℕ → ℕ → SessionEvent
  workspace_color_changed : ℕ → ℕ → Option String → SessionEvent
  workspaces_reordered : ℕ → ℕ → ℕ → ℕ → SessionEvent
  active_pane_changed : ℕ → ℕ → Option ℕ → SessionEvent

-- The errors, `ForgettyError::Pty` with a text each, with what the text is made of.
pub data Error : Type 0 where
  pty : String → Error
  workspace_out_of_bounds from_out_of_bounds to_out_of_bounds tab_out_of_bounds : ℕ → ℕ → Error
  last_workspace : Error
  tab_not_found pane_not_found pane_not_in_tree : ℕ → Error
  pane_not_leaf : Option ℕ → ℕ → Error
  duplicate_spawn_failed : ℕ → ℕ → Error → Error

pub data Result {ℓ} (A : Type ℓ) : Type ℓ where
  ok : A → Result A
  err : Error → Result A

pub Result-cases {ℓ} :
    {A : Type ℓ} (r : Result A) → ((a : A) × (r ≡ ok a)) ⊎ ((e : Error) × (r ≡ err e))
Result-cases (ok a) = inl (a, refl)
Result-cases (err e) = inr (e, refl)

-- Requests to the operating system. Only the failure of a write reaches the caller.
pub data OsCall : Type 0 where
  kill : ℕ → OsCall
  unlink_log : ℕ → OsCall
  interrupt : ℕ → OsCall
  write : ℕ → List ℕ → OsCall

-- `event_tx` is what was sent so far, oldest first, and `os` the requests made so far.
pub record SessionManagerInner : Type 0 where
  pub panes : List (ℕ × PaneState)
  pub pane_order : List ℕ
  pub event_tx : List SessionEvent
  pub layout : SessionLayout
  pub open layout use *
  pub pinned : Bool
  pub byte_logs : List (ℕ × ByteLog)
  pub byte_log_ring_kb : ℕ
  pub byte_log_max_mb : ℕ
  pub os : List OsCall

-- The state after an operation, and its result.
abbrev pub Outcome {ℓ} : Type ℓ → Type ℓ
Outcome A = SessionManagerInner × Result A

-- The arguments of `PtyProcess::spawn`.
pub record SpawnRequest : Type 0 where
  pub size : PtySize
  pub working_dir : Option String
  pub command : Option (List String)
  pub login_shell : Bool

-- What the operating system, the clock and the random numbers answer during one operation:
-- `$HOME` or `/`; the answer to the n-th `PtyProcess::spawn`; the n-th new pane id and UUID; the log
-- file of a pane; the working directory of a process; and whether a process is alive.
pub record Env : Type 0 where
  pub home_dir_fallback : String
  pub spawn : ℕ → SpawnRequest → Result PtyBridge
  pub new_pane_id : ℕ → ℕ
  pub new_uuid : ℕ → ℕ
  pub log_file : ℕ → LogFile
  pub proc_cwd : ℕ → Option String
  pub is_alive : ℕ → Bool

-- `SessionManager::new`
unfoldable pub new : ℕ → SessionManagerInner
unfolding new_default
new id = record {
  panes = [];
  pane_order = [];
  event_tx = [];
  layout = new_default id;
  pinned = false;
  byte_logs = [];
  byte_log_ring_kb = 1024;
  byte_log_max_mb = 10;
  os = [];
}

-- `let _ = inner.event_tx.send(event)`
unfoldable pub send : SessionEvent → SessionManagerInner → SessionManagerInner
send event s = record s { event_tx = s.event_tx ++ event ∷ [] }

unfoldable pub call_os : OsCall → SessionManagerInner → SessionManagerInner
call_os call s = record s { os = s.os ++ call ∷ [] }

unfoldable pub set_workspaces : List SessionWorkspace → SessionManagerInner → SessionManagerInner
set_workspaces workspaces s = record s { layout = record (s.layout) { workspaces = workspaces } }

-- The check `if idx >= inner.layout.workspaces.len() { return Err(…) }` and the index that follows.
abbrev pub at_workspace {ℓ} :
    {A : Type ℓ} → ℕ → SessionManagerInner → (SessionWorkspace → Outcome A) → Outcome A
at_workspace idx s body = elim (get_elem? s.workspaces idx) [
  | none ↦ (s, err (workspace_out_of_bounds idx (length s.workspaces)))
  | some ws ↦ body ws
]

-- To prove a statement of such an operation: for the error, and for the workspace that is there.
pub at_workspace-cases {ℓ κ} :
    {A : Type ℓ} (P : Outcome A → Type κ) (idx : ℕ) (s : SessionManagerInner)
    (body : SessionWorkspace → Outcome A)
    → P (s, err (workspace_out_of_bounds idx (length s.workspaces)))
    → ((ws : SessionWorkspace) → get_elem? s.workspaces idx ≡ some ws → P (body ws))
    → P (at_workspace idx s body)
at_workspace-cases P idx s body out inside = elim (Option-cases (get_elem? s.workspaces idx)) [
  | inl e ↦ rw (e, at_workspace) out
  | inr (ws, e) ↦ rw (e, at_workspace) (inside ws e)
]

-- `==` on an optional text.
abbrev pub same_text : Option String → Option String → Bool
same_text none none = true
same_text (some a) (some b) = str_eq a b
same_text _ _ = false

-- `SessionManager::set_byte_log_config`
unfoldable pub set_byte_log_config : ℕ → ℕ → SessionManagerInner → SessionManagerInner
set_byte_log_config ring_kb max_mb s = record s {
  byte_log_ring_kb = ring_kb;
  byte_log_max_mb = max_mb;
}

unfoldable pub set_pinned : Bool → SessionManagerInner → SessionManagerInner
set_pinned pinned s = record s { pinned = pinned }
