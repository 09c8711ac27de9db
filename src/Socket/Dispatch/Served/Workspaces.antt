-- ===== src/Socket/Dispatch/Served/Workspaces.antt =====
-- handlers.rs: the methods on workspaces, as calls of the manager.
use forgetty.Base.{[], ◌∷◌, ◌≡◌, arith, length, length-append, refl, none, unwrap_or}
use forgetty.Session.State.{SessionManagerInner}
use forgetty.Session.Run.{
  respond, rename_workspace_call, set_workspace_color_call, move_workspace_call,
  delete_workspace_call, duplicate_workspace_call, set_active_workspace_call,
}
use forgetty.Session.Tabs.{create_tab}
use forgetty.Session.Workspaces.{create_workspace as add_workspace}
use forgetty.Socket.Protocol.{Request}
use forgetty.Socket.Handlers.{Host, param_str, size_of, default_rows, default_cols}
use forgetty.Socket.Handlers.Workspaces.{
  handle_set_active_workspace, handle_create_workspace, handle_rename_workspace,
  handle_delete_workspace, handle_duplicate_workspace, handle_set_workspace_color,
  handle_move_workspace,
}
use forgetty.Socket.Dispatch.{
  set_active_workspace, create_workspace, rename_workspace, delete_workspace, duplicate_workspace,
  set_workspace_color, move_workspace,
}
use forgetty.Socket.Dispatch.Calls.{
  activates_workspace, renames_workspace, deletes_workspace, duplicates_workspace, colors_workspace,
  moves_workspace,
}
use forgetty.Socket.Dispatch.Served.{
  Served, populated, require_str-Served, require_u64-Served, answer-Answers, answer-Served,
}

module _ (h : Host) (request : Request) (s : SessionManagerInner) where
  pub handle_set_active_workspace-Served :
      Served h request s set_active_workspace (handle_set_active_workspace h request s)
  unfolding handle_set_active_workspace respond
  handle_set_active_workspace-Served =
      require_u64-Served h request s set_active_workspace "workspace_idx" _ λ idx given.
        answer-Served h request s set_active_workspace (set_active_workspace_call idx) _ _ _ _
          (activates_workspace idx given) refl

  pub handle_create_workspace-Served :
      Served h request s create_workspace (handle_create_workspace h request s)
  unfolding handle_create_workspace respond add_workspace
  handle_create_workspace-Served =
      let name = unwrap_or (param_str "name" request) "Workspace" in
      let made = add_workspace (h.env.new_uuid 0) name s in
      let at_the_end : (made.1).1 ≡ length s.workspaces =
        omega (arith, length-append s.workspaces (_ ∷ [])) in
      populated name (made.1).1 (refl, refl, at_the_end) refl
        (answer-Answers h request s create_workspace _ _ _
          (create_tab h.env_next (made.1).1 none (size_of default_rows default_cols) none made.0))

  pub handle_rename_workspace-Served :
      Served h request s rename_workspace (handle_rename_workspace h request s)
  unfolding handle_rename_workspace respond
  handle_rename_workspace-Served =
      require_u64-Served h request s rename_workspace "workspace_idx" _ λ idx given.
        require_str-Served h request s rename_workspace "name" _ λ name named.
          answer-Served h request s rename_workspace (rename_workspace_call idx name) _ _ _ _
            (renames_workspace idx name given named) refl

  pub handle_delete_workspace-Served :
      Served h request s delete_workspace (handle_delete_workspace h request s)
  unfolding handle_delete_workspace respond
  handle_delete_workspace-Served =
      require_u64-Served h request s delete_workspace "workspace_idx" _ λ idx given.
        answer-Served h request s delete_workspace (delete_workspace_call idx) _ _ _ _
          (deletes_workspace idx given) refl

  pub handle_duplicate_workspace-Served :
      Served h request s duplicate_workspace (handle_duplicate_workspace h request s)
  unfolding handle_duplicate_workspace respond
  handle_duplicate_workspace-Served =
      require_u64-Served h request s duplicate_workspace "source_workspace_idx" _ λ idx given.
        answer-Served h request s duplicate_workspace
          (duplicate_workspace_call idx (param_str "new_name" request)
            (size_of default_rows default_cols))
          _ _ _ _ (duplicates_workspace idx given) refl

  pub handle_set_workspace_color-Served :
      Served h request s set_workspace_color (handle_set_workspace_color h request s)
  unfolding handle_set_workspace_color respond
  handle_set_workspace_color-Served =
      require_u64-Served h request s set_workspace_color "workspace_idx" _ λ idx given.
        answer-Served h request s set_workspace_color
          (set_workspace_color_call idx (param_str "color" request)) _ _ _ _
          (colors_workspace idx given) refl

  pub handle_move_workspace-Served :
      Served h request s move_workspace (handle_move_workspace h request s)
  unfolding handle_move_workspace respond
  handle_move_workspace-Served =
      require_u64-Served h request s move_workspace "from_idx" _ λ from_idx given.
        require_u64-Served h request s move_workspace "to_idx" _ λ to_idx told.
          answer-Served h request s move_workspace (move_workspace_call from_idx to_idx) _ _ _ _
            (moves_workspace from_idx to_idx given told) refl
