-- ===== src/Socket/Dispatch/Served.antt =====
-- handlers.rs: what a request does to the session manager, as calls of its methods.
pub mod Tabs
pub mod Workspaces
pub mod Panes
pub mod Input
use forgetty.Base.{
  ℕ, ◌≡◌, ◌≢◌, ◌⊎◌, refl, sym, ap, subst, String, List, [], ◌∷◌, Bool, true, false, Option, none,
  some, Bool-cases, Option-cases, inl, inr, unwrap_or, arith, length,
}
use forgetty.Session.State.{
  PtySize, SessionManagerInner, Env, Error, Result, ok, err, Outcome, Result-cases, PaneInfo,
}
use forgetty.Session.Run.{
  Command, respond, error_of, without_value, create_workspace_call, create_tab_call, write_pty_call,
  create_tab_with_pane_id_call, split_pane_with_ratio_and_pane_id_call, send_sigint_call,
  set_pinned_call, snapshot_call,
}
use forgetty.Session.Panes.{pane_info}
use forgetty.Session.Output.{intr_byte}
use forgetty.Socket.Json.{Value, get, as_bool}
use forgetty.Socket.Protocol.{
  Request, Response, RpcError, ErrorCode, internal_error, Message, operation_failed, success,
  failure,
}
use forgetty.Socket.Handlers.{
  Host, Reply, param_str, param_u64, refuse, answer, require_str, require_u64, require_uuid,
  require_live, require_pane_id, and_then, size_of, default_rows, default_cols,
}
use forgetty.Socket.Dispatch.{
  Method, list_tabs, get_layout, get_pane_info, notify, get_pinned, list_devices, revoke_device,
  get_pairing_info, enable_pairing, create_workspace, send_sigint, set_pinned,
}
use forgetty.Socket.Dispatch.Calls.{Calls, GivesPane}

-- A response of the request: its id is the request's, and it has a result or else an error.
pub data Answers (request : Request) : Response → Bool → Type 0 where
  accepted : (v : Value) → Answers request (success request.id v) true
  denied :
      (code : ErrorCode) (message : Message)
      → Answers request (failure request.id code message) false

-- The response to a call is a result if the call succeeds, and an error if it fails.
abbrev pub succeeds : Option Error → Bool
succeeds none = true
succeeds (some e) = false

-- The methods that leave the manager alone.
abbrev pub is_query : Method → Bool
is_query list_tabs = true
is_query get_layout = true
is_query get_pane_info = true
is_query notify = true
is_query get_pinned = true
is_query list_devices = true
is_query revoke_device = true
is_query get_pairing_info = true
is_query enable_pairing = true
is_query m = false

-- When the requests of two calls make them.
abbrev pub Populates : Request → SessionManagerInner → Method → String → ℕ → Type 0
Populates request s m name idx =
    (m ≡ create_workspace)
    × (name ≡ unwrap_or (param_str "name" request) "Workspace")
    × (idx ≡ length s.workspaces)

abbrev pub Interrupts : Host → Request → SessionManagerInner → Method → ℕ → ℕ → Type 0
Interrupts h request s m id byte =
    (m ≡ send_sigint) × GivesPane h request s id × (byte ≡ unwrap_or (intr_byte h.vintr id s) 3)

abbrev pub Pins : Request → Method → Bool → Type 0
Pins request m flag =
    (m ≡ set_pinned) × (and_then (get "pinned" request.params) as_bool ≡ some flag)

abbrev pub is_written : Option String → Bool
is_written none = true
is_written (some e) = false

-- What a request of the method does to the manager.
pub data Served (h : Host) (request : Request) (s : SessionManagerInner) (m : Method)
    : Reply → Type 0 where
  -- It is refused.
  refused : {r : Response} → Answers request r false → Served h request s m (s, r)
  -- It is answered from the state alone.
  read : {r : Response} → is_query m ≡ true → Answers request r true → Served h request s m (s, r)
  -- It is one call of the manager, the one that the method is for.
  called :
      {good : Bool} {r : Response} (command : Command)
      → Calls h request s m command
      → good ≡ succeeds (respond h.env command s).1
      → Answers request r good
      → Served h request s m ((respond h.env command s).0, r)
  -- `create_workspace`: the call, and then the one for the first tab.
  populated :
      {good : Bool} {r : Response} (name : String) (idx : ℕ)
      → Populates request s m name idx
      → (let t = (respond h.env (create_workspace_call name) s).0 in
          good
          ≡ succeeds
              (respond h.env_next
                (create_tab_call idx none (size_of default_rows default_cols) none)
                t).1)
      → Answers request r good
      → Served h request s m (
          let t = (respond h.env (create_workspace_call name) s).0 in
          (
            (respond h.env_next
                (create_tab_call idx none (size_of default_rows default_cols) none)
                t).0,
            r,
          ))
  -- `send_sigint`: the interrupt byte is written, and then the process group is signalled.
  interrupted :
      {r : Response} (id byte : ℕ)
      → Interrupts h request s m id byte
      → (respond h.env (write_pty_call h.written id (byte ∷ [])) s).1 ≡ none
      → Answers request r true
      → Served h request s m (
          let t = (respond h.env (write_pty_call h.written id (byte ∷ [])) s).0 in
          ((respond h.env (send_sigint_call h.my_pid h.comm h.foreground id) t).0, r))
  -- `set_pinned` of a daemon with a session id: the flag is set and the session is saved, and the
  -- response is a result if the file is written.
  pinned :
      {good : Bool} {r : Response} (flag : Bool)
      → Pins request m flag
      → good ≡ is_written h.save_failure
      → Answers request r good
      → Served h request s m (
          let t = (respond h.env (set_pinned_call flag) s).0 in
          ((respond h.env snapshot_call t).0, r))

-- The body of a handler after a parameter was taken, and the answers that end it.
module _ (h : Host) (request : Request) (s : SessionManagerInner) (m : Method) where
  pub refused-Served :
      (code : ErrorCode) (message : Message) → Served h request s m (refuse request s code message)
  unfolding failure
  refused-Served code message = refused (denied code message)

  pub require_str-Served :
      (key : String) (body : String → Reply)
      → ((text : String) → param_str key request ≡ some text → Served h request s m (body text))
      → Served h request s m (require_str key request s body)
  require_str-Served key body then_ok = elim (Option-cases (param_str key request)) [
    | inl missing ↦ rw (missing, require_str) (refused-Served _ _)
    | inr (text, there) ↦ rw (there, require_str) (then_ok text there)
  ]

  pub require_u64-Served :
      (key : String) (body : ℕ → Reply)
      → ((n : ℕ) → param_u64 key request ≡ some n → Served h request s m (body n))
      → Served h request s m (require_u64 key request s body)
  require_u64-Served key body then_ok = elim (Option-cases (param_u64 key request)) [
    | inl missing ↦ rw (missing, require_u64) (refused-Served _ _)
    | inr (n, there) ↦ rw (there, require_u64) (then_ok n there)
  ]

  pub require_uuid-Served :
      (text : String) (body : ℕ → Reply)
      → ((uuid : ℕ) → h.parse_str text ≡ some uuid → Served h request s m (body uuid))
      → Served h request s m (require_uuid h text request s body)
  require_uuid-Served text body then_ok = elim (Option-cases (h.parse_str text)) [
    | inl bad ↦ rw (bad, require_uuid) (refused-Served _ _)
    | inr (uuid, good) ↦ rw (good, require_uuid) (then_ok uuid good)
  ]

  pub require_live-Served :
      (id : ℕ) (raw : String) (body : PaneInfo → Reply)
      → ((info : PaneInfo) → pane_info id s ≡ some info → Served h request s m (body info))
      → Served h request s m (require_live id raw request s body)
  require_live-Served id raw body then_ok = elim (Option-cases (pane_info id s)) [
    | inl gone ↦ rw (gone, require_live) (refused-Served _ _)
    | inr (info, there) ↦ rw (there, require_live) (then_ok info there)
  ]

  pub require_pane_id-Served :
      (body : ℕ → Reply)
      → ((id : ℕ) → GivesPane h request s id → Served h request s m (body id))
      → Served h request s m (require_pane_id h request s body)
  require_pane_id-Served body then_ok = require_str-Served "pane_id" _ λ raw given.
      require_uuid-Served raw _ λ id parsed.
        require_live-Served id raw _ λ info live. then_ok id ((raw, given, parsed), (info, live))

  -- The answer of `answer` to the outcome of a call.
  pub answer-Answers {ℓ} :
      {A : Type ℓ} (code : ErrorCode) (what : String) (value : A → Value) (o : Outcome A)
      → Answers request (answer request code what value o).1 (succeeds (without_value o).1)
  answer-Answers code what value o = elim (Result-cases o.1) [
    | inl (a, done) ↦ rw done (accepted (value a))
    | inr (e, failed) ↦ rw failed (denied code (operation_failed what e))
  ]

  pub answer-Served {ℓ} :
      {A : Type ℓ} (command : Command) (code : ErrorCode) (what : String) (value : A → Value)
      (o : Outcome A)
      → Calls h request s m command
      → respond h.env command s ≡ without_value o
      → Served h request s m (answer request code what value o)
  answer-Served command code what value o drawn same =
      subst (λ t. Served h request s m (t.0, (answer request code what value o).1)) same
        (called command drawn (ap (λ t. succeeds t.1) (sym same))
          (answer-Answers code what value o))
