-- ===== src/Workspace/Tests.antt =====
-- A store of session files, and the theorems at it.
use forgetty.Base.{◌≡◌, refl, [], ◌∷◌, true, false, ◌&&◌, ◌||◌, none, some, lookup}
use forgetty.Workspace.{WorkspaceState, leaf, new}
use forgetty.Workspace.Store.{
  Contents, session, other_json, not_json, File, Store, done, load_session_for, renamed,
  copy_failed, read_pinned_field,
}
use forgetty.Workspace.Moves.{undo_close, Moved, SameOthers, apply, apply-Moved}
use forgetty.Workspace.Migration.{
  MigrationIo, run_migration_p018, stays, leaves_for, run_migration_p018-lookup,
}
use forgetty.Workspace.Migration
use forgetty.Workspace.Startup.{
  RecoveryIo, start, restore_session, start-lookup, restore_session-lost,
}
use forgetty.Workspace.Startup
use forgetty.Workspace.Logs.{
  is_live, bucket_names, has_log, prune_at_start, prune_orphan_logs, has_log-prune_at_start,
  all_persisted_pane_ids,
}

-- A session with one pane, 40.
abbrev one_pane : WorkspaceState
one_pane = record new {
  workspaces =
      record {
        id = 1;
        name = "Default";
        root_paths = [];
        tabs =
            record {
              title = "";
              pane_tree = leaf "/" (some 40);
              pane_id = some 40;
              active_pane_id = none;
            }
            ∷ [];
        active_tab = 0;
        color = none;
      }
      ∷ [];
}

abbrev file_of : Contents → File
file_of contents = record { contents = contents; modified = 0 }

-- Saved before the migration: a session that is not pinned, a pinned one, and a corrupt file.
abbrev old_store : Store
old_store = record {
  sessions =
      (1, file_of (session one_pane)) ∷ (2, file_of (other_json true)) ∷ (3, file_of not_json) ∷ [];
  active = [];
  trash = [];
  marker = false;
  logs = [];
}

-- A session runs in another daemon, and one is in the trash. Their panes have logs.
abbrev store : Store
store = record {
  sessions = [];
  active = (5, file_of (session one_pane)) ∷ [];
  trash = (6, file_of (other_json false)) ∷ [];
  marker = true;
  logs = record { pane_id = 40; is_tmp = false } ∷ record { pane_id = 41; is_tmp = false } ∷ [];
}

abbrev migration_io : MigrationIo
migration_io = record {
  directories = true;
  listed = true;
  moving = λ id. renamed;
  removed = λ id. true;
  marked = true;
}

migration-AllWell : Migration.AllWell migration_io
migration-AllWell = record {
  directories = refl;
  listed = refl;
  moving = λ id. refl;
  removed = λ id. refl;
  marked = refl;
}

abbrev recovery_io : RecoveryIo
recovery_io = record { promoting = λ id. renamed; deleted = λ id. true }

recovery-AllWell : Startup.AllWell recovery_io
recovery-AllWell = record { promoting = λ id. refl; deleted = λ id. refl }

pinned_of_one_pane : read_pinned_field (file_of (session one_pane)) ≡ some false
unfolding read_pinned_field new
pinned_of_one_pane = refl

pinned_of_trashed : read_pinned_field (file_of (other_json false)) ≡ some false
unfolding read_pinned_field
pinned_of_trashed = refl

active_after_migration :
    lookup 5 (run_migration_p018 migration_io store).0.active ≡ some (file_of (session one_pane))
unfolding run_migration_p018 lookup
active_after_migration = refl

in_trash_6 : lookup 6 store.trash ≡ some (file_of (other_json false))
unfolding lookup
in_trash_6 = refl

not_in_sessions_6 : lookup 6 store.sessions ≡ none
unfolding lookup
not_in_sessions_6 = refl

apply-Moved_example :
    let m = copy_failed (some (file_of not_json)) in
    let file = file_of (other_json false) in
    Moved 6 file
      (apply undo_close m 6 store).1
      (apply undo_close m 6 store).0.trash
      (apply undo_close m 6 store).0.active
    × SameOthers 6 store.trash (apply undo_close m 6 store).0.trash
    × SameOthers 6 store.active (apply undo_close m 6 store).0.active
apply-Moved_example =
    apply-Moved undo_close (copy_failed (some (file_of not_json))) 6 store
      (file_of (other_json false)) in_trash_6

run_migration_p018-lookup_example :
    (lookup 1 (run_migration_p018 migration_io old_store).0.sessions
      ≡ stays (lookup 1 old_store.sessions))
    × (lookup 1 (run_migration_p018 migration_io old_store).0.trash
        ≡ leaves_for (lookup 1 old_store.sessions) (lookup 1 old_store.trash))
    × ((run_migration_p018 migration_io old_store).0.active ≡ old_store.active)
    × (run_migration_p018 migration_io (run_migration_p018 migration_io old_store).0
        ≡ ((run_migration_p018 migration_io old_store).0, done))
run_migration_p018-lookup_example =
    run_migration_p018-lookup migration_io 1 old_store migration-AllWell refl

start-lookup_example :
    (lookup 5 (start migration_io recovery_io store).active ≡ none)
    × (lookup 5 (start migration_io recovery_io store).sessions
        ≡ lookup 5 (run_migration_p018 migration_io store).0.sessions)
    × ((start migration_io recovery_io store).trash
        ≡ (run_migration_p018 migration_io store).0.trash)
start-lookup_example =
    start-lookup migration_io recovery_io 5 store _ false recovery-AllWell active_after_migration
      pinned_of_one_pane

restore_session-lost_example :
    (lookup 6 (restore_session renamed migration_io recovery_io 6 store).trash ≡ none)
    × (lookup 6 (restore_session renamed migration_io recovery_io 6 store).active ≡ none)
    × (load_session_for 6 (restore_session renamed migration_io recovery_io 6 store) ≡ none)
restore_session-lost_example =
    restore_session-lost migration_io recovery_io 6 store _ recovery-AllWell in_trash_6
      pinned_of_trashed not_in_sessions_6 refl

-- The pane 40 of the running session is in no set of the daemon that starts with the pane 41.
has_log-prune_at_start_example : has_log 40 (prune_at_start (λ log. true) (41 ∷ []) store).logs ≡ (
    has_log 40 store.logs
    && (is_live 40 (41 ∷ []) || (bucket_names store.sessions 40 || bucket_names store.trash 40)))
has_log-prune_at_start_example =
    has_log-prune_at_start (λ log. true) (41 ∷ []) 40 store (λ log. refl)

running_log_is_lost : has_log 40 (prune_at_start (λ log. true) (41 ∷ []) store).logs ≡ false
unfolding prune_at_start all_persisted_pane_ids prune_orphan_logs
running_log_is_lost = refl
