-- ===== src/Workspace/Store.antt =====
-- crates/forgetty-workspace/src/persistence.rs: the session files in their three directories, and the
-- moves between them. A file that another process changes during a call is not modelled, and the
-- temporary file that a failed write leaves behind is left out.
use forgetty.Base.{
  ℕ, ◌-◌, ◌*◌, List, [], ◌∷◌, Bool, Option, none, some, map, lookup, insert, remove, has, ltb, ◌==◌,
  if◌then◌else◌,
}
use forgetty.Workspace.{WorkspaceState}

-- What a file parses to: a session, a JSON object that is none, with its field `pinned` (false if that
-- is absent), or nothing.
pub data Contents : Type 0 where
  session : WorkspaceState → Contents
  other_json : Bool → Contents
  not_json : Contents

-- `modified` is the time of the last change.
pub record File : Type 0 where
  pub contents : Contents
  pub modified : ℕ

-- The files `{uuid}.json` of a directory.
abbrev pub Bucket : Type 0
Bucket = List (ℕ × File)

-- `{uuid}.log`, or `{uuid}.log.tmp` of an interrupted rotation.
pub record LogName : Type 0 where
  pub pane_id : ℕ
  pub is_tmp : Bool

-- sessions/, sessions/active/ and sessions/trash/, the marker of the migration, and logs/.
pub record Store : Type 0 where
  pub sessions : Bucket
  pub active : Bucket
  pub trash : Bucket
  pub marker : Bool
  pub logs : List LogName

pub data IoResult : Type 0 where
  done failed : IoResult

-- How a write ends: by the rename of the temporary file, or, where that fails, by a direct write at
-- the time; or with an error, of which a direct write may leave a part of the file.
pub data Writing : Type 0 where
  replaced : ℕ → Writing
  no_directory tmp_failed : Writing
  direct_failed : Option File → Writing

unfoldable pub save_to_path : Writing → ℕ → WorkspaceState → Bucket → Bucket × IoResult
save_to_path (replaced now) id state files =
    (insert id (record { contents = session state; modified = now }) files, done)
save_to_path no_directory id state files = (files, failed)
save_to_path tmp_failed id state files = (files, failed)
save_to_path (direct_failed none) id state files = (files, failed)
save_to_path (direct_failed (some rest)) id state files = (insert id rest files, failed)

-- A corrupt file counts as missing. The file can be read.
unfoldable pub load_from_path : ℕ → Bucket → Option WorkspaceState
load_from_path id files = elim (lookup id files) [
  | none ↦ none
  | some file ↦ elim (file.contents) [
    | session state ↦ some state
    | other_json pinned ↦ none
    | not_json ↦ none
  ]
]

unfoldable pub save_session_for : Writing → ℕ → WorkspaceState → Store → Store × IoResult
save_session_for w id state s = (
  record s { sessions = (save_to_path w id state s.sessions).0 },
  (save_to_path w id state s.sessions).1,
)

unfoldable pub load_session_for : ℕ → Store → Option WorkspaceState
load_session_for id s = load_from_path id s.sessions

unfoldable pub move_to_active : Writing → ℕ → WorkspaceState → Store → Store × IoResult
move_to_active w id state s = (
  record s { active = (save_to_path w id state s.active).0 },
  (save_to_path w id state s.active).1,
)

-- The names in a directory, in the order in which it is read.
abbrev pub keys : Bucket → List ℕ
keys files = map (λ entry. entry.0) files

unfoldable pub list_sessions : Store → List ℕ
list_sessions s = keys s.sessions

unfoldable pub list_trashed_sessions : Store → List ℕ
list_trashed_sessions s = keys s.trash

-- How a move ends: by the rename, or by a copy at the time and the removal of the source; or with an
-- error of one of its steps. A failed copy may leave a part of the file.
pub data Moving : Type 0 where
  renamed : Moving
  copied : ℕ → Moving
  no_target : Moving
  copy_failed : Option File → Moving
  remove_failed : ℕ → Moving

-- The two directories after the move of a file that is in the first one.
unfoldable pub rename_with_fallback :
    Moving → ℕ → File → Bucket → Bucket → (Bucket × Bucket) × IoResult
rename_with_fallback renamed id file src dest = ((remove id src, insert id file dest), done)
rename_with_fallback (copied now) id file src dest =
    ((remove id src, insert id (record file { modified = now }) dest), done)
rename_with_fallback no_target id file src dest = ((src, dest), failed)
rename_with_fallback (copy_failed none) id file src dest = ((src, dest), failed)
rename_with_fallback (copy_failed (some rest)) id file src dest =
    ((src, insert id rest dest), failed)
rename_with_fallback (remove_failed now) id file src dest =
    ((src, insert id (record file { modified = now }) dest), failed)

-- A file that is not there is moved already.
unfoldable pub move_active_to_sessions : Moving → ℕ → Store → Store × IoResult
move_active_to_sessions m id s = elim (lookup id s.active) [
  | none ↦ (s, done)
  | some file ↦
      let moved = rename_with_fallback m id file s.active s.sessions in
      (record s { active = (moved.0).0; sessions = (moved.0).1 }, moved.1)
]

unfoldable pub move_active_to_trash : Moving → ℕ → Store → Store × IoResult
move_active_to_trash m id s = elim (lookup id s.active) [
  | none ↦ (s, done)
  | some file ↦
      let moved = rename_with_fallback m id file s.active s.trash in
      (record s { active = (moved.0).0; trash = (moved.0).1 }, moved.1)
]

unfoldable pub trash_session_for : Moving → ℕ → Store → Store × IoResult
trash_session_for m id s = elim (lookup id s.sessions) [
  | none ↦ (s, done)
  | some file ↦
      let moved = rename_with_fallback m id file s.sessions s.trash in
      (record s { sessions = (moved.0).0; trash = (moved.0).1 }, moved.1)
]

-- A restore of a file that is not there is an error.
unfoldable pub restore_from_trash_to_active : Moving → ℕ → Store → Store × IoResult
restore_from_trash_to_active m id s = elim (lookup id s.trash) [
  | none ↦ (s, failed)
  | some file ↦
      let moved = rename_with_fallback m id file s.trash s.active in
      (record s { trash = (moved.0).0; active = (moved.0).1 }, moved.1)
]

unfoldable pub restore_from_trash : Moving → ℕ → Store → Store × IoResult
restore_from_trash m id s = elim (lookup id s.trash) [
  | none ↦ (s, failed)
  | some file ↦
      let moved = rename_with_fallback m id file s.trash s.sessions in
      (record s { trash = (moved.0).0; sessions = (moved.0).1 }, moved.1)
]

-- `removed` tells whether the file system removes the file.
unfoldable pub remove_file : Bool → ℕ → Bucket → Bucket × IoResult
remove_file removed id files =
    if has id files
    then (if removed then (remove id files, done) else (files, failed))
    else (files, done)

unfoldable pub delete_active_for : Bool → ℕ → Store → Store × IoResult
delete_active_for removed id s =
    (record s { active = (remove_file removed id s.active).0 }, (remove_file removed id s.active).1)

unfoldable pub delete_session_for : Bool → ℕ → Store → Store × IoResult
delete_session_for removed id s = (
  record s { sessions = (remove_file removed id s.sessions).0 },
  (remove_file removed id s.sessions).1,
)

-- A failure is only logged.
unfoldable pub pinned_aware_exit_move : Moving → ℕ → Bool → Store → Store
pinned_aware_exit_move m id pinned s =
    if pinned then (move_active_to_sessions m id s).0 else (move_active_to_trash m id s).0

-- `read_pinned_field`; `none` is the error for a file that is no JSON.
unfoldable pub read_pinned_field : File → Option Bool
read_pinned_field file = elim (file.contents) [
  | session state ↦ some (state.pinned)
  | other_json pinned ↦ some pinned
  | not_json ↦ none
]

-- The files whose `pinned` can be read, with it.
unfoldable pub orphans_of : Bucket → List (ℕ × Bool)
orphans_of [] = []
orphans_of ((id, file) ∷ rest) =
    let others = orphans_of rest in
    elim (read_pinned_field file) [ none ↦ others | some pinned ↦ (id, pinned) ∷ others ]

unfoldable pub recover_orphans_in_active : Store → List (ℕ × Bool)
recover_orphans_in_active s = orphans_of s.active

-- `purge_old_trash` at a time: the files that were changed before the cutoff go, if they can be removed.
purge : ℕ → (ℕ → Bool) → Bucket → Bucket
purge cutoff removed [] = []
purge cutoff removed ((id, file) ∷ rest) =
    let kept = purge cutoff removed rest in
    if ltb file.modified cutoff
    then (if removed id then kept else (id, file) ∷ kept)
    else (id, file) ∷ kept

unfoldable pub purge_old_trash : ℕ → ℕ → (ℕ → Bool) → Store → Store
unfolding purge
purge_old_trash max_days now removed s =
    if max_days == 0 then s else record s { trash = purge (now - max_days * 86400) removed s.trash }
