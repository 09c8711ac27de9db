-- ===== src/Session/Seeding.antt =====
-- manager.rs: `close_tab`, and the tab that it creates in a workspace without tabs.
use forgetty.Session.State.{SessionWorkspace, Env}
use forgetty.Session.Registry.{leaf_tab}
use forgetty.Session.Tabs.{push_tab}

-- The workspace with the default tab, which is shown.
abbrev pub seeded : Env → SessionWorkspace → SessionWorkspace
seeded env ws = record (push_tab (leaf_tab (env.new_uuid 0) (env.new_pane_id 0)) ws) {
  active_tab = 0;
}
