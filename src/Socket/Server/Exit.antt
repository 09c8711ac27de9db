-- ===== src/Socket/Server/Exit.antt =====
-- server.rs and persistence.rs together: what is left of a session whose daemon exits.
use forgetty.Base.{
  ℕ, ◌≡◌, refl, ◌∙◌, Bool, true, false, none, some, arith, lookup, lookup-insert, lookup-remove,
  insert,
}
use forgetty.Session.State.{SessionManagerInner, Env}
use forgetty.Session.Snapshot.{snapshot_to_workspace_state}
use forgetty.Workspace.Store.{
  File, Store, session, replaced, renamed, save_to_path, move_to_active, rename_with_fallback,
  move_active_to_sessions, move_active_to_trash, pinned_aware_exit_move, load_session_for,
  load_from_path,
}
use forgetty.Workspace.Migration.{MigrationIo}
use forgetty.Workspace.Startup.{RecoveryIo, AllWell, start, sessions-start}
use forgetty.Socket.Server.{close_session}

-- The files of a session are where it was closed to: a pinned one can be loaded again, and another one
-- is in trash/.
abbrev pub Closed : ℕ → Bool → File → Store → Store → Type 0
Closed sid true file before after =
    (lookup sid after.sessions ≡ some file) × (lookup sid after.active ≡ none)
Closed sid false file before after =
    (lookup sid after.trash ≡ some file)
    × (lookup sid after.active ≡ none)
    × (after.sessions ≡ before.sessions)

-- The file of the session's last state.
abbrev pub last_file : ℕ → Env → SessionManagerInner → File
last_file now env s = record {
  contents = session ((snapshot_to_workspace_state env s).1);
  modified = now;
}

exit_move-Closed :
    (sid : ℕ) (pinned : Bool) (file : File) (before : Store)
    → Closed sid pinned file before (
        pinned_aware_exit_move renamed sid pinned
          (record before { active = insert sid file before.active }))
unfolding pinned_aware_exit_move move_active_to_sessions move_active_to_trash rename_with_fallback
exit_move-Closed sid true file before =
    let there : lookup sid (insert sid file before.active) ≡ some file =
      ground (arith, lookup-insert sid sid file before.active) in
    rw (there, move_active_to_sessions)
      (
        ground (arith, lookup-insert sid sid file before.sessions),
        ground (arith, lookup-remove sid sid (insert sid file before.active)),
      )
exit_move-Closed sid false file before =
    let there : lookup sid (insert sid file before.active) ≡ some file =
      ground (arith, lookup-insert sid sid file before.active) in
    rw (there, move_active_to_trash)
      (
        ground (arith, lookup-insert sid sid file before.trash),
        ground (arith, lookup-remove sid sid (insert sid file before.active)),
        refl,
      )

close_session-Closed :
    (now : ℕ) (env : Env) (sid : ℕ) (s : SessionManagerInner) (store : Store)
    → Closed sid s.pinned
        (last_file now env s)
        store
        (close_session (replaced now) renamed env sid s store).1
unfolding close_session move_to_active save_to_path snapshot_to_workspace_state
close_session-Closed now env sid s store = exit_move-Closed sid s.pinned (last_file now env s) store

marker-pinned_aware_exit_move :
    (sid : ℕ) (pinned : Bool) (s : Store)
    → (pinned_aware_exit_move renamed sid pinned s).marker ≡ s.marker
unfolding pinned_aware_exit_move move_active_to_sessions move_active_to_trash
marker-pinned_aware_exit_move sid pinned s = ground arith

marked :
    (now : ℕ) (env : Env) (sid : ℕ) (s : SessionManagerInner) (store : Store)
    → store.marker ≡ true
    → (close_session (replaced now) renamed env sid s store).1.marker ≡ true
unfolding close_session move_to_active save_to_path
marked now env sid s store over = marker-pinned_aware_exit_move sid _ _ ∙ over

Closed-pinned :
    (sid : ℕ) (pinned : Bool) (file : File) (before after : Store)
    → Closed sid pinned file before after
    → pinned ≡ true
    → (lookup sid after.sessions ≡ some file) × (lookup sid after.active ≡ none)
Closed-pinned sid true file before after closed h = closed
Closed-pinned sid false file before after closed h = cc

-- A pinned session outlives its daemon: after an exit by `shutdown_save`, `shutdown_clean` or
-- `disconnect`, and a window's start afterwards, its file in sessions/ is loaded as the last state of
-- the session. The file is written and moved without an error, the migration was made, and the
-- recovery of the window that starts meets no error.
pub load-close_session :
    (mio : MigrationIo) (rio : RecoveryIo) (now : ℕ) (env : Env) (sid : ℕ) (s : SessionManagerInner)
    (store : Store)
    → AllWell rio
    → store.marker ≡ true
    → s.pinned ≡ true
    → load_session_for sid (start mio rio (close_session (replaced now) renamed env sid s store).1)
      ≡ some ((snapshot_to_workspace_state env s).1)
unfolding load_session_for load_from_path
load-close_session mio rio now env sid s store well over pinned =
    let closed : Store = (close_session (replaced now) renamed env sid s store).1 in
    let (there, gone) =
      Closed-pinned sid s.pinned (last_file now env s) store closed
        (close_session-Closed now env sid s store) pinned in
    let same = sessions-start mio rio sid closed well (marked now env sid s store over) gone in
    rw (same ∙ there, load_from_path) refl
