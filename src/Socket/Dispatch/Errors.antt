-- ===== src/Socket/Dispatch/Errors.antt =====
-- handlers.rs: the responses, and the state of the manager after an error.
use forgetty.Base.{
  ◌≡◌, subst, refl, sym, ap, ◌∙◌, [], ◌∷◌, ◌++◌, ◌⊎◌, Bool, true, false, Option, none, some,
  unwrap_or, inl, inr,
}
use forgetty.Session.State.{SessionWorkspace, SessionManagerInner, Error}
use forgetty.Session.Invariant.{IsValid}
use forgetty.Session.Run.{error_of}
use forgetty.Session.Run.Atomic.{respond-error}
use forgetty.Session.Run.Undone.{create_tab_with_pane_id-Undone}
use forgetty.Session.Workspaces.{create_workspace as add_workspace}
use forgetty.Session.Tabs.{create_tab}
use forgetty.Socket.Json.{Value}
use forgetty.Socket.Protocol.{Request, Response, RpcError, success, failure}
use forgetty.Socket.Handlers.{Host, Reply, param_str, size_of, default_rows, default_cols}
use forgetty.Socket.Handlers.Devices.{SyncHost}
use forgetty.Socket.Handlers.Workspaces.{handle_create_workspace}
use forgetty.Socket.Dispatch.Served.{
  Answers, accepted, denied, succeeds, Served, refused, read, called, populated, interrupted,
  pinned, answer-Answers,
}
use forgetty.Socket.Dispatch.Requests.{dispatch-Served}
use forgetty.Socket.Dispatch.{Daemon, Method, create_workspace, set_pinned, route, dispatch}

Served-Answers :
    {h : Host} {request : Request} {s : SessionManagerInner} {m : Method} {reply : Reply}
    → Served h request s m reply
    → (good : Bool) × Answers request reply.1 good
Served-Answers (refused answer) = (false, answer)
Served-Answers (read query answer) = (true, answer)
Served-Answers (called {good} command calls same answer) = (good, answer)
Served-Answers (populated {good} name idx once same answer) = (good, answer)
Served-Answers (interrupted pane byte once sent answer) = (true, answer)
Served-Answers (pinned {good} flag once written answer) = (good, answer)

-- A response of JSON-RPC 2.0 to the request: the version, the id, and a result or else an error.
abbrev pub IsResponse : Request → Response → Type 0
IsResponse request r =
    (r.jsonrpc ≡ "2.0")
    × (r.id ≡ request.id)
    × (((v : Value) × (r.result ≡ some v) × (r.error ≡ none))
        ⊎ ((e : RpcError) × (r.result ≡ none) × (r.error ≡ some e)))

Answers-IsResponse :
    {request : Request} {r : Response} {good : Bool} → Answers request r good → IsResponse request r
unfolding success failure
Answers-IsResponse (accepted v) = (refl, refl, inl (v, refl, refl))
Answers-IsResponse (denied code message) =
    (refl, refl, inr (record { code = code; message = message }, refl, refl))

-- Whatever the request, the response is of version 2.0, has the request's id, and has a result or an
-- error, but not both.
pub dispatch-IsResponse :
    (h : Host) (sh : SyncHost) (request : Request) (d : Daemon)
    → IsResponse request (dispatch h sh request d).1
dispatch-IsResponse h sh request d =
    Answers-IsResponse (Served-Answers (dispatch-Served h sh request d).0).1

-- An error response is to a call that failed.
Answers-failed :
    {request : Request} {r : Response} {good : Bool} (e : RpcError)
    → Answers request r good
    → r.error ≡ some e
    → good ≡ false
unfolding success
Answers-failed e (accepted v) h = cc
Answers-failed e (denied code message) h = refl

succeeds-failed : (o : Option Error) → succeeds o ≡ false → (e : Error) × (o ≡ some e)
succeeds-failed none h = cc
succeeds-failed (some e) h = (e, refl)

-- The methods that make at most one call that can fail.
abbrev pub is_atomic : Method → Bool
is_atomic create_workspace = false
is_atomic set_pinned = false
is_atomic m = true

Served-error :
    {h : Host} {request : Request} {s : SessionManagerInner} {m : Method} {reply : Reply}
    (e : RpcError)
    → Served h request s m reply
    → IsValid s
    → is_atomic m ≡ true
    → reply.1.error ≡ some e
    → record (reply.0) { os = s.os } ≡ s
Served-error e (refused answer) v one failed = refl
Served-error e (read query answer) v one failed = refl
Served-error {h} {s = s} e (called command calls good answer) v one failed =
    let (why, because) = succeeds-failed _ (sym good ∙ Answers-failed e answer failed) in
    respond-error h.env command s why v because
Served-error e (populated name idx once good answer) v one failed =
    let two = subst (λ m. is_atomic m ≡ true) once.0 one in cc
Served-error e (interrupted pane byte once sent answer) v one failed =
    let bad = Answers-failed e answer failed in cc
Served-error e (pinned flag once written answer) v one failed =
    let two = subst (λ m. is_atomic m ≡ true) once.0 one in cc

-- A request that is answered with an error changes nothing of a well-formed session: no pane, layout,
-- order, event or byte log, only the list of requests to the operating system. The method is neither
-- `create_workspace` nor `set_pinned`.
pub dispatch-error :
    (h : Host) (sh : SyncHost) (request : Request) (d : Daemon) (e : RpcError)
    → IsValid d.sm
    → is_atomic (route request.method) ≡ true
    → (dispatch h sh request d).1.error ≡ some e
    → record ((dispatch h sh request d).0.sm) { os = d.sm.os } ≡ d.sm
dispatch-error h sh request d e v one failed =
    Served-error e (dispatch-Served h sh request d).0 v one failed

-- What `create_workspace` appends before the tab is created.
abbrev pub bare_workspace : Host → Request → SessionWorkspace
bare_workspace h request = record {
  id = h.env.new_uuid 0;
  name = unwrap_or (param_str "name" request) "Workspace";
  tabs = [];
  active_tab = 0;
  color = none;
}

-- A `create_workspace` that is answered with an error has added the workspace all the same, without a
-- tab, and registered no pane.
pub handle_create_workspace-error :
    (h : Host) (request : Request) (s : SessionManagerInner) (e : RpcError)
    → (handle_create_workspace h request s).1.error ≡ some e
    → ((handle_create_workspace h request s).0.workspaces
        ≡ s.workspaces ++ bare_workspace h request ∷ [])
      × ((handle_create_workspace h request s).0.panes ≡ s.panes)
unfolding handle_create_workspace add_workspace create_tab success
handle_create_workspace-error h request s e failed =
    let name = unwrap_or (param_str "name" request) "Workspace" in
    let t = (add_workspace (h.env.new_uuid 0) name s).0 in
    let idx = ((add_workspace (h.env.new_uuid 0) name s).1).1 in
    let size = size_of default_rows default_cols in
    let tab = create_tab h.env_next idx none size none t in
    let answer = answer-Answers h request s create_workspace _ _ _ tab in
    let (why, because) = succeeds-failed (error_of tab.1) (Answers-failed e answer failed) in
    let undone = create_tab_with_pane_id-Undone t h.env_next idx none size none _ why because in
    (
      ap (λ (u : SessionManagerInner). u.workspaces) undone,
      ap (λ (u : SessionManagerInner). u.panes) undone,
    )
