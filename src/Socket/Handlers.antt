-- ===== src/Socket/Handlers.antt =====
-- crates/forgetty-socket/src/handlers.rs: what the handlers share, and what they are told from outside.
-- A `usize` has 64 bits. Between the calls that one handler makes on the session manager, no other
-- call runs here.
pub mod Tabs
pub mod Workspaces
pub mod Panes
pub mod Input
pub mod Devices
use forgetty.Base.{
  ℕ, ◌%◌, ◌^◌, ◌≡◌, String, List, [], ◌∷◌, Bool, true, Option, none, some, Option-cases, unwrap_or,
  inl, inr,
}
use forgetty.Session.State.{
  PtySize, SessionManagerInner, Env, Error, Result, ok, err, Outcome, PaneInfo,
}
use forgetty.Session.Panes.{pane_info}
use forgetty.Socket.Json.{Value, integer, string, boolean, get, as_str, as_u64, json_object}
use forgetty.Socket.Protocol.{
  Request, Response, ErrorCode, invalid_params, internal_error, Message, missing_param,
  invalid_uuid, pane_not_found, operation_failed, success, failure,
}

-- The libraries and the operating system during one request: the text of a UUID and back, base64,
-- whether a path is a directory, and the cast of an integer to `f32`; what the first and the second
-- call on the manager are told; the answers of the terminal's ioctls and writes; the daemon's process
-- id and the name of the foreground process; and how the write of the session file fails, if it does.
pub record Host : Type 0 where
  pub parse_str : String → Option ℕ
  pub to_string : ℕ → String
  pub decode_base64 : String → Option (List ℕ)
  pub is_dir : String → Bool
  pub f32_of : ℕ → ℕ
  pub env : Env
  pub env_next : Env
  pub resized : Result (Unit {0})
  pub written : Result (Unit {0})
  pub vintr : ℕ → Option ℕ
  pub my_pid : ℕ
  pub foreground : Option ℕ
  pub comm : Option String
  pub save_failure : Option String

-- The manager after the request, and the response.
abbrev pub Reply : Type 0
Reply = SessionManagerInner × Response

-- `DEFAULT_ROWS` and `DEFAULT_COLS`
abbrev pub default_rows : ℕ
default_rows = 24

abbrev pub default_cols : ℕ
default_cols = 80

abbrev pub size_of : ℕ → ℕ → PtySize
size_of rows cols = record { rows = rows; cols = cols; pixel_width = 0; pixel_height = 0 }

-- `n as u16`
abbrev pub as_u16 : ℕ → ℕ
as_u16 n = n % 2 ^ 16

abbrev pub and_then {ℓ κ} : {A : Type ℓ} {B : Type κ} → Option A → (A → Option B) → Option B
and_then none f = none
and_then (some a) f = f a

-- `request.params.get(key).and_then(|v| v.as_str())`, and the same with `as_u64`.
abbrev pub param_str : String → Request → Option String
param_str key request = and_then (get key request.params) as_str

abbrev pub param_u64 : String → Request → Option ℕ
param_u64 key request = and_then (get key request.params) as_u64

abbrev pub refuse : Request → SessionManagerInner → ErrorCode → Message → Reply
refuse request s code message = (s, failure request.id code message)

-- `json!({ "ok": true })`
abbrev pub ok_true : Value
ok_true = json_object (("ok", boolean true) ∷ [])

-- `match sm.op(…) { Ok(a) => Response::success(…), Err(e) => Response::error(…) }`
abbrev pub answer {ℓ} :
    {A : Type ℓ} → Request → ErrorCode → String → (A → Value) → Outcome A → Reply
answer request code what value o = (
  o.0,
  elim (o.1) [
    | ok a ↦ success request.id (value a)
    | err e ↦ failure request.id code (operation_failed what e)
  ],
)

abbrev pub answer_ok {ℓ} : {A : Type ℓ} → Request → String → Outcome A → Reply
answer_ok request what o = answer request internal_error what (λ a. ok_true) o

-- A parameter, or the return of `INVALID_PARAMS`.
abbrev pub require_str : String → Request → SessionManagerInner → (String → Reply) → Reply
require_str key request s body = elim (param_str key request) [
  | none ↦ refuse request s invalid_params (missing_param key)
  | some text ↦ body text
]

abbrev pub require_u64 : String → Request → SessionManagerInner → (ℕ → Reply) → Reply
require_u64 key request s body = elim (param_u64 key request) [
  | none ↦ refuse request s invalid_params (missing_param key)
  | some n ↦ body n
]

abbrev pub require_uuid : Host → String → Request → SessionManagerInner → (ℕ → Reply) → Reply
require_uuid h text request s body = elim (h.parse_str text) [
  | none ↦ refuse request s invalid_params (invalid_uuid text)
  | some uuid ↦ body uuid
]

-- The check that the pane is in the registry.
abbrev pub require_live : ℕ → String → Request → SessionManagerInner → (PaneInfo → Reply) → Reply
require_live id raw request s body = elim (pane_info id s) [
  | none ↦ refuse request s invalid_params (pane_not_found raw)
  | some info ↦ body info
]

abbrev pub require_pane_id : Host → Request → SessionManagerInner → (ℕ → Reply) → Reply
require_pane_id h request s body =
    require_str "pane_id" request s
      λ raw. require_uuid h raw request s λ id. require_live id raw request s λ info. body id
