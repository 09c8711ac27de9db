-- ===== src/Socket/Server/Answers.antt =====
-- server.rs: the responses of a connection.
use text.Mathlib.Text.{◌==◌ as str_eq}
use forgetty.Base.{
  Bool, ◌||◌, ◌&&◌, ◌≡◌, ◌⊎◌, String, List, [], ◌∷◌, true, false, Option, none, some,
}
use forgetty.Socket.Json.{Value}
use forgetty.Socket.Protocol.{Request, Response, RpcError}
use forgetty.Socket.Handlers.{Host}
use forgetty.Socket.Handlers.Devices.{SyncHost}
use forgetty.Socket.Server.{Server, ServerIo}

-- A response of JSON-RPC 2.0 with the id: it has a result or else an error.
abbrev pub IsAnswerTo : Option Value → Response → Type 0
IsAnswerTo id r =
    (r.jsonrpc ≡ "2.0")
    × (r.id ≡ id)
    × (((v : Value) × (r.result ≡ some v) × (r.error ≡ none))
        ⊎ ((e : RpcError) × (r.result ≡ none) × (r.error ≡ some e)))

-- One response is written, and it has the id.
abbrev pub AnswersOnce : Option Value → List Response → Type 0
AnswersOnce id written = (r : Response) × (written ≡ r ∷ []) × IsAnswerTo id r

-- The id of a line's request, if it parses.
abbrev pub id_of : (String → Option Request) → String → Option Value
id_of from_str line = elim (from_str line) [ none ↦ none | some q ↦ q.id ]

-- The method ends the reading of lines: it turns the connection into a stream, or ends the daemon.
abbrev pub is_last : String → Bool
is_last method =
    str_eq method "subscribe_output"
    || str_eq method "subscribe_layout"
    || str_eq method "shutdown_save"
    || str_eq method "shutdown_clean"
    || str_eq method "disconnect"
    || str_eq method "shutdown"

-- The line is a request of version 2.0 with such a method.
abbrev pub ends_lines : (String → Option Request) → String → Bool
ends_lines from_str line = elim (from_str line) [
  | none ↦ false
  | some q ↦ str_eq q.jsonrpc "2.0" && is_last q.method
]

-- The responses answer the lines in order: one to each line that is not blank, up to the end of the
-- lines, or to the first one that ends the reading, whose response is the last.
pub data Answered (from_str : String → Option Request)
    : List (ServerIo × Host × SyncHost × String) → List Response → Type 0 where
  over : Answered from_str [] []
  ended :
      (io : ServerIo) (h : Host) (sh : SyncHost) (line : String) (r : Response)
      (lines : List (ServerIo × Host × SyncHost × String))
      → str_eq line "" ≡ false
      → IsAnswerTo (id_of from_str line) r
      → ends_lines from_str line ≡ true
      → Answered from_str ((io, h, sh, line) ∷ lines) (r ∷ [])
  blank :
      (io : ServerIo) (h : Host) (sh : SyncHost) (line : String)
      (lines : List (ServerIo × Host × SyncHost × String)) (written : List Response)
      → str_eq line "" ≡ true
      → Answered from_str lines written
      → Answered from_str ((io, h, sh, line) ∷ lines) written
  answered :
      (io : ServerIo) (h : Host) (sh : SyncHost) (line : String) (r : Response)
      (lines : List (ServerIo × Host × SyncHost × String)) (written : List Response)
      → str_eq line "" ≡ false
      → IsAnswerTo (id_of from_str line) r
      → ends_lines from_str line ≡ false
      → Answered from_str lines written
      → Answered from_str ((io, h, sh, line) ∷ lines) (r ∷ written)
