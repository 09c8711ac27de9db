-- ===== src/Socket/Protocol.antt =====
-- crates/forgetty-socket/src/protocol.rs: requests and responses of JSON-RPC 2.0. An error message is
-- kept as what its text is made of.
use text.Mathlib.Text.{◌==◌ as str_eq}
use forgetty.Base.{String, Option, none, some, if◌then◌else◌}
use forgetty.Session.State.{Error}
use forgetty.Socket.Json.{Value}

pub record Request : Type 0 where
  pub jsonrpc : String
  pub method : String
  pub params : Value
  pub id : Option Value

-- -32700, -32600, -32601, -32602 and -32603
pub data ErrorCode : Type 0 where
  parse_error invalid_request method_not_found invalid_params internal_error : ErrorCode

pub data Message : Type 0 where
  not_json wrong_version empty_method bad_direction bad_base64 bad_type no_sync : Message
  unknown_method missing_param invalid_uuid pane_not_found tab_not_found : String → Message
  -- The name of the operation, and its error.
  operation_failed : String → Error → Message
  -- An error that is no `ForgettyError`: of the disk, the registry or the QR library.
  other_failure : String → Message

pub record RpcError : Type 0 where
  pub code : ErrorCode
  pub message : Message

-- The field `data` of an error is `None` wherever the code makes one.
pub record Response : Type 0 where
  pub jsonrpc : String
  pub result : Option Value
  pub error : Option RpcError
  pub id : Option Value

-- `Response::success`
unfoldable pub success : Option Value → Value → Response
success id result = record { jsonrpc = "2.0"; result = some result; error = none; id = id }

-- `Response::error`
unfoldable pub failure : Option Value → ErrorCode → Message → Response
failure id code message = record {
  jsonrpc = "2.0";
  result = none;
  error = some (record { code = code; message = message });
  id = id;
}

pub data Parsed : Type 0 where
  request : Request → Parsed
  rejected : Response → Parsed

-- `Request::parse`; `from_str` is what serde_json makes of the line.
unfoldable pub parse : (String → Option Request) → String → Parsed
unfolding failure
parse from_str input = elim (from_str input) [
  | none ↦ rejected (failure none parse_error not_json)
  | some r ↦
      if str_eq r.jsonrpc "2.0"
      then (if str_eq r.method ""
          then rejected (failure r.id invalid_request empty_method)
          else request r)
      else rejected (failure r.id invalid_request wrong_version)
]
