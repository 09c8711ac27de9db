-- ===== src/Workspace/Moves.antt =====
-- persistence.rs: the five moves of a session file between the directories, and saving and loading.
use forgetty.Base.{
  ℕ, ◌≡◌, ◌≢◌, refl, none, some, arith, lookup, lookup-insert, lookup-remove, insert, remove,
}
use forgetty.Workspace.{WorkspaceState}
use forgetty.Workspace.Store.{
  Contents, session, File, Bucket, Store, IoResult, done, failed, Writing, replaced, no_directory,
  tmp_failed, direct_failed, save_to_path, load_from_path, save_session_for, load_session_for,
  Moving, renamed, copied, no_target, copy_failed, remove_failed, rename_with_fallback,
  move_active_to_sessions, move_active_to_trash, trash_session_for, restore_from_trash_to_active,
  restore_from_trash,
}

pub data Place : Type 0 where
  in_sessions in_active in_trash : Place

abbrev pub bucket : Place → Store → Bucket
bucket in_sessions s = s.sessions
bucket in_active s = s.active
bucket in_trash s = s.trash

-- A move: the exits of a pinned and of another session, the close of a saved one, and the restores.
pub data Move : Type 0 where
  exit_pinned exit_unpinned close undo_close restore : Move

abbrev pub source : Move → Place
source exit_pinned = in_active
source exit_unpinned = in_active
source close = in_sessions
source undo_close = in_trash
source restore = in_trash

abbrev pub target : Move → Place
target exit_pinned = in_sessions
target exit_unpinned = in_trash
target close = in_trash
target undo_close = in_active
target restore = in_sessions

unfoldable pub apply : Move → Moving → ℕ → Store → Store × IoResult
apply exit_pinned m id s = move_active_to_sessions m id s
apply exit_unpinned m id s = move_active_to_trash m id s
apply close m id s = trash_session_for m id s
apply undo_close m id s = restore_from_trash_to_active m id s
apply restore m id s = restore_from_trash m id s

-- The contents stand in a file of the directory.
abbrev pub Holds : Contents → ℕ → Bucket → Type 0
Holds contents id files = (file : File) × (lookup id files ≡ some file) × (file.contents ≡ contents)

-- What a move has done to the two directories: it has succeeded, and the file is in the second one
-- only, or it has failed, and the file is still in the first one, as it was.
abbrev pub Moved : ℕ → File → IoResult → Bucket → Bucket → Type 0
Moved id file done src dest = (lookup id src ≡ none) × Holds file.contents id dest
Moved id file failed src dest = lookup id src ≡ some file

-- The other files of a directory are as they were.
abbrev pub SameOthers : ℕ → Bucket → Bucket → Type 0
SameOthers id before after = (u : ℕ) → id ≢ u → lookup u after ≡ lookup u before

inserted : (id : ℕ) (file : File) (files : Bucket) → lookup id (insert id file files) ≡ some file
inserted id file files = ground (arith, lookup-insert id id file files)

inserted_other :
    (id : ℕ) (file : File) (files : Bucket) → SameOthers id files (insert id file files)
inserted_other id file files u ne = ground (arith, lookup-insert id u file files)

removed : (id : ℕ) (files : Bucket) → lookup id (remove id files) ≡ none
removed id files = ground (arith, lookup-remove id id files)

removed_other : (id : ℕ) (files : Bucket) → SameOthers id files (remove id files)
removed_other id files u ne = ground (arith, lookup-remove id u files)

-- The facts about one move of a file from a directory to another.
abbrev Renamed : ℕ → File → Bucket → Bucket → (Bucket × Bucket) × IoResult → Type 0
Renamed id file src dest r =
    Moved id file r.1 (r.0).0 (r.0).1 × SameOthers id src (r.0).0 × SameOthers id dest (r.0).1

rename_with_fallback-Renamed :
    (m : Moving) (id : ℕ) (file : File) (src dest : Bucket)
    → lookup id src ≡ some file
    → Renamed id file src dest (rename_with_fallback m id file src dest)
unfolding rename_with_fallback
rename_with_fallback-Renamed renamed id file src dest there = (
  (removed id src, (file, inserted id file dest, refl)),
  removed_other id src,
  inserted_other id file dest,
)
rename_with_fallback-Renamed (copied now) id file src dest there =
    let copy : File = record file { modified = now } in
    (
      (removed id src, (copy, inserted id copy dest, refl)),
      removed_other id src,
      inserted_other id copy dest,
    )
rename_with_fallback-Renamed no_target id file src dest there =
    (there, (λ u ne. refl), (λ u ne. refl))
rename_with_fallback-Renamed (copy_failed none) id file src dest there =
    (there, (λ u ne. refl), (λ u ne. refl))
rename_with_fallback-Renamed (copy_failed (some rest)) id file src dest there =
    (there, (λ u ne. refl), inserted_other id rest dest)
rename_with_fallback-Renamed (remove_failed now) id file src dest there =
    (there, (λ u ne. refl), inserted_other id (record file { modified = now }) dest)

-- No move loses the session file that it is for, however the steps of the file system end: if the
-- move succeeds, the file's contents are in the target directory, and the source has no file of the
-- session any more; if it fails, the file is in the source directory as it was. The files of other
-- sessions stay as they are in both.
pub apply-Moved :
    (move : Move) (m : Moving) (id : ℕ) (s : Store) (file : File)
    → lookup id (bucket (source move) s) ≡ some file
    → Moved id file
        (apply move m id s).1
        (bucket (source move) (apply move m id s).0)
        (bucket (target move) (apply move m id s).0)
      × SameOthers id (bucket (source move) s) (bucket (source move) (apply move m id s).0)
      × SameOthers id (bucket (target move) s) (bucket (target move) (apply move m id s).0)
unfolding apply move_active_to_sessions move_active_to_trash trash_session_for
    restore_from_trash_to_active restore_from_trash
apply-Moved exit_pinned m id s file there =
    rw (there, move_active_to_sessions)
      (rename_with_fallback-Renamed m id file s.active s.sessions there)
apply-Moved exit_unpinned m id s file there =
    rw (there, move_active_to_trash) (rename_with_fallback-Renamed m id file s.active s.trash there)
apply-Moved close m id s file there =
    rw (there, trash_session_for) (rename_with_fallback-Renamed m id file s.sessions s.trash there)
apply-Moved undo_close m id s file there =
    rw (there, restore_from_trash_to_active)
      (rename_with_fallback-Renamed m id file s.trash s.active there)
apply-Moved restore m id s file there =
    rw (there, restore_from_trash) (rename_with_fallback-Renamed m id file s.trash s.sessions there)

-- A saved session is loaded again as it was; after a save that fails before its direct write, what was
-- there is.
abbrev Saved : ℕ → WorkspaceState → Writing → Store → Store × IoResult → Type 0
Saved id state (replaced now) s r = (r.1 ≡ done) × (load_session_for id r.0 ≡ some state)
Saved id state no_directory s r = (r.1 ≡ failed) × (r.0 ≡ s)
Saved id state tmp_failed s r = (r.1 ≡ failed) × (r.0 ≡ s)
Saved id state (direct_failed none) s r = (r.1 ≡ failed) × (r.0 ≡ s)
Saved id state (direct_failed (some rest)) s r =
    (r.1 ≡ failed) × (lookup id r.0.sessions ≡ some rest)

load-save_session_for :
    (id : ℕ) (state : WorkspaceState) (w : Writing) (s : Store)
    → Saved id state w s (save_session_for w id state s)
unfolding save_session_for save_to_path load_session_for load_from_path
load-save_session_for id state (replaced now) s =
    let file : File = record { contents = session state; modified = now } in
    (refl, rw (inserted id file s.sessions, load_from_path) refl)
load-save_session_for id state no_directory s = (refl, refl)
load-save_session_for id state tmp_failed s = (refl, refl)
load-save_session_for id state (direct_failed none) s = (refl, refl)
load-save_session_for id state (direct_failed (some rest)) s = (refl, inserted id rest s.sessions)
