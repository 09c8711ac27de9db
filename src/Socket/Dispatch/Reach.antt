-- ===== src/Socket/Dispatch/Reach.antt =====
-- handlers.rs: the states of the session manager that clients reach through the socket.
use forgetty.Base.{ℕ, refl, ap, String, [], ◌∷◌, none, arith, sum_by-append}
use forgetty.Session.State.{SessionManagerInner, Env}
use forgetty.Session.Workspaces.{create_workspace}
use forgetty.Session.Invariant.{
  ws_occurs, ws_tab_ids, layout_occurs, layout_tab_ids, Agrees, IsValid,
}
use forgetty.Session.Invariant.Quiet.{write_pty-Agrees, set_pinned-Agrees}
use forgetty.Session.Run.{
  respond, run, call, Reach, then_call, create_workspace_call, create_tab_call, write_pty_call,
  send_sigint_call, set_pinned_call, snapshot_call,
}
use forgetty.Session.Run.Fresh.{DrawsNew, DrawsNew-NewIds, DrawsNew-kept}
use forgetty.Session.Run.Reachable.{Reach-IsValid}
use forgetty.Socket.Protocol.{Request}
use forgetty.Socket.Handlers.{Host, Reply, size_of, default_rows, default_cols}
use forgetty.Socket.Handlers.Devices.{SyncHost}
use forgetty.Socket.Dispatch.Served.{Served, refused, read, called, populated, interrupted, pinned}
use forgetty.Socket.Dispatch.Requests.{dispatch-Served}
use forgetty.Socket.Dispatch.Calls.{is_given_id-Calls}
use forgetty.Socket.Dispatch.{Daemon, Method, dispatch}

-- The ids that both calls of a request may draw are new.
pub record AreNew (h : Host) (s : SessionManagerInner) : Type 0 where
  pub first : DrawsNew h.env s
  pub next : DrawsNew h.env_next s

create_workspace-DrawsNew :
    (env : Env) (id : ℕ) (name : String) (s : SessionManagerInner)
    → DrawsNew env s
    → DrawsNew env (create_workspace id name s).0
unfolding create_workspace
create_workspace-DrawsNew env id name s =
    DrawsNew-kept env s _ (λ a. omega (arith, sum_by-append (ws_occurs a) s.workspaces (_ ∷ [])))
      (λ a. omega (arith, sum_by-append (ws_tab_ids a) s.workspaces (_ ∷ [])))

Agrees-DrawsNew :
    (env : Env) (s t : SessionManagerInner) → Agrees s t → DrawsNew env s → DrawsNew env t
Agrees-DrawsNew env s t same =
    DrawsNew-kept env s t (λ a. ap (λ l. layout_occurs a l.workspaces) same.layout)
      (λ a. ap (λ l. layout_tab_ids a l.workspaces) same.layout)

Served-Reach :
    {h : Host} {request : Request} {s : SessionManagerInner} {m : Method} {id : ℕ} {reply : Reply}
    → Served h request s m reply
    → AreNew h s
    → Reach id s
    → Reach id reply.0
unfolding run respond
Served-Reach (refused answer) fresh r = r
Served-Reach (read query answer) fresh r = r
Served-Reach {h} {s = s} (called command calls good answer) fresh r = then_call r (
    call h.env command
      (DrawsNew-NewIds h.env s fresh.first command (is_given_id-Calls calls) (Reach-IsValid r)))
Served-Reach {h} {s = s} (populated name idx once good answer) fresh r =
    let create = create_workspace_call name in
    let r1 =
      then_call r
        (call h.env create (DrawsNew-NewIds h.env s fresh.first create refl (Reach-IsValid r))) in
    then_call r1 (
      call h.env_next (create_tab_call idx none (size_of default_rows default_cols) none) (
        DrawsNew-NewIds h.env_next _ (create_workspace-DrawsNew h.env_next _ name s fresh.next) _
          refl (Reach-IsValid r1)))
Served-Reach {h} {s = s} (interrupted pane byte once sent answer) fresh r =
    let write = write_pty_call h.written pane (byte ∷ []) in
    let r1 =
      then_call r
        (call h.env write (DrawsNew-NewIds h.env s fresh.first write refl (Reach-IsValid r))) in
    then_call r1 (
      call h.env (send_sigint_call h.my_pid h.comm h.foreground pane) (
        DrawsNew-NewIds h.env _
          (Agrees-DrawsNew h.env s _ (write_pty-Agrees h.written pane (byte ∷ []) s) fresh.first) _
          refl (Reach-IsValid r1)))
Served-Reach {h} {s = s} (pinned flag once written answer) fresh r =
    let pin = set_pinned_call flag in
    let r1 =
      then_call r
        (call h.env pin (DrawsNew-NewIds h.env s fresh.first pin refl (Reach-IsValid r))) in
    then_call r1 (
      call h.env snapshot_call (
        DrawsNew-NewIds h.env _ (Agrees-DrawsNew h.env s _ (set_pinned-Agrees flag s) fresh.first) _
          refl (Reach-IsValid r1)))

-- Whatever request a client sends, a reachable state of the session manager stays reachable, so that
-- it is well formed, if the random ids that are drawn are new.
pub dispatch-Reach :
    {id : ℕ} (h : Host) (sh : SyncHost) (request : Request) (d : Daemon)
    → AreNew h d.sm
    → Reach id d.sm
    → Reach id ((dispatch h sh request d).0.sm) × IsValid ((dispatch h sh request d).0.sm)
dispatch-Reach h sh request d fresh r =
    let after = Served-Reach (dispatch-Served h sh request d).0 fresh r in
    (after, Reach-IsValid after)
