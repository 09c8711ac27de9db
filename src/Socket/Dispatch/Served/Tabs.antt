-- ===== src/Socket/Dispatch/Served/Tabs.antt =====
-- handlers.rs: the methods on tabs, as calls of the manager.
use forgetty.Base.{ℕ, refl, String, Option-cases, inl, inr}
use forgetty.Session.State.{SessionManagerInner}
use forgetty.Session.Run.{
  respond, create_tab_call, close_tab_call, move_tab_call, set_active_tab_call, close_pane_call,
}
use forgetty.Session.Tabs.{close_tab as close_that_tab}
use forgetty.Socket.Protocol.{Request, internal_error}
use forgetty.Socket.Handlers.{Host, param_str, ok_true, answer}
use forgetty.Socket.Handlers.Tabs.{
  handle_list_tabs, handle_get_layout, handle_new_tab, handle_close_tab, handle_focus_tab,
  handle_move_tab, find_tab_for_pane, index_in_workspaces, answer_close_pane,
}
use forgetty.Socket.Dispatch.{
  Method, list_tabs, get_layout, new_tab, close_tab, focus_tab, move_tab,
}
use forgetty.Socket.Dispatch.Calls.{
  Calls, GivesPane, opens_tab, closes_tab, closes_owner, closes_stray, focuses_tab, moves_tab,
}
use forgetty.Socket.Dispatch.Served.{
  accepted, Served, read, called, refused-Served, require_str-Served, require_u64-Served,
  require_uuid-Served, require_live-Served, answer-Served,
}

module _ (h : Host) (request : Request) (s : SessionManagerInner) where
  pub handle_list_tabs-Served : Served h request s list_tabs (handle_list_tabs h request s)
  unfolding handle_list_tabs
  handle_list_tabs-Served = read refl (accepted _)

  pub handle_get_layout-Served : Served h request s get_layout (handle_get_layout h request s)
  unfolding handle_get_layout
  handle_get_layout-Served = read refl (accepted _)

  pub handle_new_tab-Served : Served h request s new_tab (handle_new_tab h request s)
  unfolding handle_new_tab respond
  handle_new_tab-Served =
      answer-Served h request s new_tab (create_tab_call _ _ _ _) _ _ _ _
        (opens_tab _ _ (refl, refl)) refl

  -- A tab or a pane that a request closes.
  pub close_tab-Served :
      (m : Method) (tab_id : ℕ) (what : String)
      → Calls h request s m (close_tab_call tab_id)
      → Served h request s m
          (answer request internal_error what (λ a. ok_true) (close_that_tab h.env tab_id s))
  unfolding respond
  close_tab-Served m tab_id what calls =
      answer-Served h request s m (close_tab_call tab_id) _ _ _ _ calls refl

  pub close_pane-Served :
      (m : Method) (id : ℕ)
      → Calls h request s m (close_pane_call id)
      → Served h request s m (answer_close_pane h request id s)
  unfolding respond
  close_pane-Served m id calls = called (close_pane_call id) calls refl (accepted ok_true)

  pub handle_close_tab-Served : Served h request s close_tab (handle_close_tab h request s)
  unfolding handle_close_tab
  handle_close_tab-Served = elim (Option-cases (param_str "tab_id" request)) [
    | inr (text, there) ↦
        rw (there, handle_close_tab)
          (require_uuid-Served h request s close_tab text _ λ tab_id parsed.
            close_tab-Served close_tab tab_id _ (closes_tab tab_id (text, there, parsed)))
    | inl missing ↦
        rw (missing, handle_close_tab)
          (elim (Option-cases (param_str "pane_id" request)) [
            | inl neither ↦ rw neither (refused-Served h request s close_tab _ _)
            | inr (raw, there) ↦ rw there (
                require_uuid-Served h request s close_tab raw _ λ id parsed.
                  require_live-Served h request s close_tab id raw _ λ info live.
                    let here : GivesPane h request s id = ((raw, there, parsed), (info, live)) in
                    elim (Option-cases (find_tab_for_pane s.layout id)) [
                      | inl nowhere ↦
                          rw nowhere
                            (close_pane-Served close_tab id (closes_stray id missing here nowhere))
                      | inr (tab_id, owner) ↦ rw owner (
                          close_tab-Served close_tab tab_id _
                            (closes_owner id tab_id missing here owner))
                    ])
          ])
  ]

  pub handle_focus_tab-Served : Served h request s focus_tab (handle_focus_tab h request s)
  unfolding handle_focus_tab respond
  handle_focus_tab-Served = require_str-Served h request s focus_tab "tab_id" _ λ text given.
      require_uuid-Served h request s focus_tab text _ λ tab_id parsed.
        elim (Option-cases (index_in_workspaces 0 tab_id s.workspaces)) [
          | inl missing ↦ rw missing (refused-Served h request s focus_tab _ _)
          | inr (found, there) ↦ rw there (
              answer-Served h request s focus_tab (set_active_tab_call found.0 found.1) _ _ _ _
                (focuses_tab tab_id found.0 found.1 (text, given, parsed) there) refl)
        ]

  pub handle_move_tab-Served : Served h request s move_tab (handle_move_tab h request s)
  unfolding handle_move_tab respond
  handle_move_tab-Served = require_str-Served h request s move_tab "tab_id" _ λ text given.
      require_uuid-Served h request s move_tab text _ λ tab_id parsed.
        require_u64-Served h request s move_tab "new_index" _ λ new_index told.
          answer-Served h request s move_tab (move_tab_call tab_id new_index) _ _ _ _
            (moves_tab tab_id new_index (text, given, parsed) told) refl
