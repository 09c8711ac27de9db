-- ===== src/Session/Splitting.antt =====
-- manager.rs: a split that succeeds.
use forgetty.Base.{
  List, subst, sym, ℕ, ◌+◌, ◌≡◌, refl, ap, ◌∙◌, String, [], ◌∷◌, ◌++◌, true, Option, none, has,
  to_nat, is_some, ◌==◌, if◌then◌else◌,
}
use forgetty.Session.State.{
  PtySize, PtyBridge, SessionWorkspace, SessionManagerInner, Env, ok, send, set_workspaces,
  pane_created, pane_split,
}
use forgetty.Session.Registry.{spawn_bridge, register}
use forgetty.Session.Panes.{split_in_workspaces, split_pane_with_ratio_and_pane_id}
use forgetty.Session.Invariant.{
  layout_occurs, IsValid, has-register, spawn_drain_task-Agrees, event_tx-spawn_drain_task,
}
use forgetty.Session.Invariant.Splits.{occurs-in_workspaces}
use forgetty.Session.Placement.{LayoutSplit, split_in_workspaces-LayoutSplit}
use forgetty.Session.Invariant.Panes.{split_found}

-- What a split of `pane_id` made of `s`.
pub record SplitDone (pane_id new_pane_id : ℕ) (direction : String) (ratio : ℕ)
    (s t : SessionManagerInner) : Type 0 where
  pub tab_id : ℕ
  pub events :
      t.event_tx
      ≡ (s.event_tx ++ pane_created new_pane_id ∷ [])
        ++ pane_split tab_id pane_id new_pane_id direction ∷ []
  pub panes : (a : ℕ) → has a t.panes ≡ (if new_pane_id == a then true else has a s.panes)
  pub leaves :
      (a : ℕ)
      → layout_occurs a t.workspaces ≡ layout_occurs a s.workspaces + to_nat (new_pane_id == a)
  pub placed : LayoutSplit pane_id new_pane_id direction ratio tab_id s.workspaces t.workspaces
  pub workspaces :
      t.workspaces ≡ (split_in_workspaces pane_id new_pane_id direction ratio s.workspaces).0
  pub active : t.active_workspace ≡ s.active_workspace

-- In a well-formed state every registered pane can be split: if the process can be spawned, the call
-- succeeds, adds the new pane to the registry and keeps every other pane. In one tab, whose id is
-- announced, the leaf of the pane becomes a split of the direction and the ratio with the pane first and
-- the new pane second; the rest of the layout stays as it was. The call tells the subscribers of the pane and then of the split, and of nothing else.
pub split_pane-SplitDone :
    (env : Env) (pane_id : ℕ) (direction : String) (ratio : ℕ) (size : PtySize)
    (cwd : Option String) (new_pane_id : ℕ) (bridge : PtyBridge) (s : SessionManagerInner)
    → IsValid s
    → has pane_id s.panes ≡ true
    → spawn_bridge env 0 size cwd none none true ≡ ok bridge
    → let o =
        split_pane_with_ratio_and_pane_id env pane_id direction ratio size cwd new_pane_id s in
      (o.1 ≡ ok new_pane_id) × SplitDone pane_id new_pane_id direction ratio s o.0
unfolding split_pane_with_ratio_and_pane_id send set_workspaces register
split_pane-SplitDone env pane_id direction ratio size cwd new_pane_id bridge s v there spawned =
    let (tab, found) = split_found pane_id new_pane_id direction ratio s v there in
    rw (there, spawned, split_pane_with_ratio_and_pane_id, found)
      (
        refl,
        (let drained = spawn_drain_task-Agrees env new_pane_id _ in
            record {
              tab_id = tab;
              events = event_tx-spawn_drain_task env new_pane_id _;
              panes = λ a. drained.registered a ∙ has-register new_pane_id a _ s;
              leaves = λ a.
                  ap (λ l. layout_occurs a l.workspaces) drained.layout
                  ∙ occurs-in_workspaces pane_id new_pane_id direction ratio a s.workspaces
                  ∙ ap
                      (λ f.
                        layout_occurs a s.workspaces
                        + (if is_some f then to_nat (new_pane_id == a) else 0))
                      found;
              placed =
                  subst
                    (λ (l : List SessionWorkspace).
                      LayoutSplit pane_id new_pane_id direction ratio tab s.workspaces l)
                    (sym (ap (λ l. l.workspaces) drained.layout))
                    (split_in_workspaces-LayoutSplit pane_id new_pane_id direction ratio tab
                      s.workspaces found);
              workspaces = ap (λ l. l.workspaces) drained.layout;
              active = ap (λ l. l.active_workspace) drained.layout;
            }),
      )
