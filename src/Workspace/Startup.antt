-- ===== src/Workspace/Startup.antt =====
-- What a window does with the session files at its start: `run` of crates/forgetty-gtk/src/app.rs up to
-- the recovery of orphans, and the restore of src/main.rs before it.
use forgetty.Base.{
  ℕ, ◌≡◌, refl, sym, ap, subst, ◌∙◌, List, [], ◌∷◌, Bool, true, false, none, some, arith, lookup,
  lookup-insert, lookup-remove, insert, remove, ◌==◌, ==_iff, if◌then◌else◌, Option-cases,
  Bool-cases, inl, inr,
}
use forgetty.Workspace.Store.{
  File, Bucket, Store, Moving, renamed, rename_with_fallback, read_pinned_field,
  move_active_to_sessions, delete_active_for, remove_file, orphans_of, recover_orphans_in_active,
  restore_from_trash_to_active, load_session_for, load_from_path,
}
use forgetty.Workspace.Migration.{MigrationIo, run_migration_p018}

-- How each move and each removal of the recovery ends.
pub record RecoveryIo : Type 0 where
  pub promoting : ℕ → Moving
  pub deleted : ℕ → Bool

-- One round of the loop over the orphans. Errors are only logged.
unfoldable recover_one : RecoveryIo → ℕ → Bool → Store → Store
recover_one io id is_pinned s =
    if is_pinned
    then (move_active_to_sessions (io.promoting id) id s).0
    else (delete_active_for (io.deleted id) id s).0

unfoldable recover_all : RecoveryIo → List (ℕ × Bool) → Store → Store
recover_all io [] s = s
recover_all io ((id, is_pinned) ∷ orphans) s =
    recover_all io orphans (recover_one io id is_pinned s)

-- The start of `run`: the migration, and then the recovery of all files in active/.
unfoldable pub start : MigrationIo → RecoveryIo → Store → Store
unfolding recover_all recover_one
start mio rio s =
    let migrated = (run_migration_p018 mio s).0 in
    recover_all rio (recover_orphans_in_active migrated) migrated

-- `--restore-session`: the file is moved to active/, and then the window starts as always.
unfoldable pub restore_session : Moving → MigrationIo → RecoveryIo → ℕ → Store → Store
restore_session m mio rio id s = start mio rio (restore_from_trash_to_active m id s).0

-- Every move is a rename, and every removal is done.
pub record AllWell (io : RecoveryIo) : Type 0 where
  pub promoting : (id : ℕ) → io.promoting id ≡ renamed
  pub deleted : (id : ℕ) → io.deleted id ≡ true

module _ (io : RecoveryIo) (well : AllWell io) where
  -- A session without a file in active/ is left alone.
  recover_one_absent :
      (id : ℕ) (is_pinned : Bool) (u : ℕ) (s : Store)
      → lookup u s.active ≡ none
      → (lookup u (recover_one io id is_pinned s).active ≡ none)
        × (lookup u (recover_one io id is_pinned s).sessions ≡ lookup u s.sessions)
  unfolding recover_one move_active_to_sessions delete_active_for remove_file rename_with_fallback
  recover_one_absent id is_pinned u s gone = elim (Option-cases (lookup id s.active)) [
    | inl missing ↦ ground arith
    | inr (file, there) ↦ ground (
      arith,
      well.promoting id,
      well.deleted id,
      lookup-insert id u file s.sessions,
      lookup-remove id u s.active,
    )
  ]

  recover_all_absent :
      (orphans : List (ℕ × Bool)) (u : ℕ) (s : Store)
      → lookup u s.active ≡ none
      → (lookup u (recover_all io orphans s).active ≡ none)
        × (lookup u (recover_all io orphans s).sessions ≡ lookup u s.sessions)
  unfolding recover_all
  recover_all_absent [] u s gone = (gone, refl)
  recover_all_absent ((id, is_pinned) ∷ orphans) u s gone =
      let one = recover_one_absent id is_pinned u s gone in
      let rest = recover_all_absent orphans u (recover_one io id is_pinned s) one.0 in
      (rest.0, rest.1 ∙ one.1)

  recover_one_other :
      (id : ℕ) (is_pinned : Bool) (u : ℕ) (s : Store)
      → (id == u) ≡ false
      → (lookup u (recover_one io id is_pinned s).active ≡ lookup u s.active)
        × (lookup u (recover_one io id is_pinned s).sessions ≡ lookup u s.sessions)
  unfolding recover_one move_active_to_sessions delete_active_for remove_file rename_with_fallback
  recover_one_other id is_pinned u s other = elim (Option-cases (lookup id s.active)) [
    | inl missing ↦ ground arith
    | inr (file, there) ↦ ground (
      arith,
      well.promoting id,
      well.deleted id,
      lookup-insert id u file s.sessions,
      lookup-remove id u s.active,
    )
  ]

  recover_one_same :
      (id : ℕ) (is_pinned : Bool) (s : Store) (file : File)
      → lookup id s.active ≡ some file
      → (lookup id (recover_one io id is_pinned s).active ≡ none)
        × (lookup id (recover_one io id is_pinned s).sessions
            ≡ (if is_pinned then some file else lookup id s.sessions))
  unfolding recover_one move_active_to_sessions delete_active_for remove_file rename_with_fallback
  recover_one_same id is_pinned s file there = ground (
    arith,
    well.promoting id,
    well.deleted id,
    lookup-insert id id file s.sessions,
    lookup-remove id id s.active,
  )

  recover_head :
      (id : ℕ) (is_pinned : Bool) (orphans : List (ℕ × Bool)) (s : Store) (file : File)
      → lookup id s.active ≡ some file
      → (lookup id (recover_all io ((id, is_pinned) ∷ orphans) s).active ≡ none)
        × (lookup id (recover_all io ((id, is_pinned) ∷ orphans) s).sessions
            ≡ (if is_pinned then some file else lookup id s.sessions))
  unfolding recover_all
  recover_head id is_pinned orphans s file there =
      let one = recover_one_same id is_pinned s file there in
      let rest = recover_all_absent orphans id (recover_one io id is_pinned s) one.0 in
      (rest.0, rest.1 ∙ one.1)

  -- The first file of the session in the listing decides.
  recover_listed :
      (files : Bucket) (u : ℕ) (s : Store) (file : File) (is_pinned : Bool)
      → lookup u files ≡ some file
      → lookup u s.active ≡ some file
      → read_pinned_field file ≡ some is_pinned
      → (lookup u (recover_all io (orphans_of files) s).active ≡ none)
        × (lookup u (recover_all io (orphans_of files) s).sessions
            ≡ (if is_pinned then some file else lookup u s.sessions))
  unfolding orphans_of recover_all lookup
  recover_listed [] u s file is_pinned listed there readable = cc
  recover_listed ((id, other) ∷ files) u s file is_pinned listed there readable =
      elim (Bool-cases (id == u)) [
        | inl same ↦
            let e : id ≡ u = (==_iff id u).0 same in
            let readable' : read_pinned_field other ≡ some is_pinned = ground arith in
            let there' = subst (λ (v : ℕ). lookup v s.active ≡ some file) (sym e) there in
            rw (readable', orphans_of)
              (subst
                (λ (v : ℕ).
                  (lookup v (recover_all io ((id, is_pinned) ∷ orphans_of files) s).active ≡ none)
                  × (lookup v (recover_all io ((id, is_pinned) ∷ orphans_of files) s).sessions
                      ≡ (if is_pinned then some file else lookup v s.sessions)))
                e (recover_head id is_pinned (orphans_of files) s file there'))
        | inr different ↦
            let listed' : lookup u files ≡ some file = ground arith in
            elim (Option-cases (read_pinned_field other)) [
              | inl skipped ↦
                  rw (skipped, orphans_of)
                    (recover_listed files u s file is_pinned listed' there readable)
              | inr (flag, read) ↦
                  let one = recover_one_other id flag u s different in
                  let rest =
                    recover_listed files u (recover_one io id flag s) file is_pinned listed'
                      (one.0 ∙ there) readable in
                  rw (read, orphans_of) (rest.0, ground (arith, one, rest))
            ]
      ]

trash-recover_one :
    (io : RecoveryIo) (id : ℕ) (is_pinned : Bool) (s : Store)
    → (recover_one io id is_pinned s).trash ≡ s.trash
unfolding recover_one move_active_to_sessions delete_active_for
trash-recover_one io id is_pinned s = ground arith

trash-recover_all :
    (io : RecoveryIo) (orphans : List (ℕ × Bool)) (s : Store)
    → (recover_all io orphans s).trash ≡ s.trash
unfolding recover_all
trash-recover_all io [] s = refl
trash-recover_all io ((id, is_pinned) ∷ orphans) s =
    trash-recover_all io orphans (recover_one io id is_pinned s)
    ∙ trash-recover_one io id is_pinned s

-- After the start of a window, if every move is a rename and every removal is done, active/ has no file
-- any more whose `pinned` can be read: one that is pinned has come to sessions/, and one that is not
-- is gone, with sessions/ as the migration left it. The whole of trash/ is as the migration left it too.
-- This is so whether the session's daemon runs or not.
pub start-lookup :
    (mio : MigrationIo) (rio : RecoveryIo) (u : ℕ) (s : Store) (file : File) (is_pinned : Bool)
    → AllWell rio
    → lookup u (run_migration_p018 mio s).0.active ≡ some file
    → read_pinned_field file ≡ some is_pinned
    → (lookup u (start mio rio s).active ≡ none)
      × (lookup u (start mio rio s).sessions
          ≡ (if is_pinned then some file else lookup u (run_migration_p018 mio s).0.sessions))
      × ((start mio rio s).trash ≡ (run_migration_p018 mio s).0.trash)
unfolding start recover_orphans_in_active
start-lookup mio rio u s file is_pinned well there readable =
    let migrated = (run_migration_p018 mio s).0 in
    let (gone, kept) = recover_listed rio well _ u _ file is_pinned there there readable in
    (gone, kept, trash-recover_all rio (orphans_of migrated.active) migrated)

restored :
    (u : ℕ) (s : Store) (file : File)
    → lookup u s.trash ≡ some file
    → (restore_from_trash_to_active renamed u s).0
      ≡ record s { trash = remove u s.trash; active = insert u file s.active }
unfolding restore_from_trash_to_active rename_with_fallback
restored u s file there = rw (there, restore_from_trash_to_active) refl

migration_over : (io : MigrationIo) (s : Store) → s.marker ≡ true → (run_migration_p018 io s).0 ≡ s
unfolding run_migration_p018
migration_over io s over = ground arith

-- The start of a window after the migration leaves a session alone that has no file in active/.
pub sessions-start :
    (mio : MigrationIo) (rio : RecoveryIo) (u : ℕ) (s : Store)
    → AllWell rio
    → s.marker ≡ true
    → lookup u s.active ≡ none
    → lookup u (start mio rio s).sessions ≡ lookup u s.sessions
unfolding start
sessions-start mio rio u s well over gone =
    rw (migration_over mio s over)
      (recover_all_absent rio well (recover_orphans_in_active s) u s gone).1

load_nothing : (u : ℕ) (s : Store) → lookup u s.sessions ≡ none → load_session_for u s ≡ none
unfolding load_session_for load_from_path
load_nothing u s gone = rw (gone, load_from_path) refl

-- A session that is restored with `--restore-session` is lost: its file is moved from trash/ to
-- active/, where the start of the window takes it for the orphan of a crash and deletes it, before a
-- daemon is started. The session was not pinned, sessions/ has no file of it, the migration was
-- made, every move is a rename and every removal is done.
pub restore_session-lost :
    (mio : MigrationIo) (rio : RecoveryIo) (u : ℕ) (s : Store) (file : File)
    → AllWell rio
    → lookup u s.trash ≡ some file
    → read_pinned_field file ≡ some false
    → lookup u s.sessions ≡ none
    → s.marker ≡ true
    → (lookup u (restore_session renamed mio rio u s).trash ≡ none)
      × (lookup u (restore_session renamed mio rio u s).active ≡ none)
      × (load_session_for u (restore_session renamed mio rio u s) ≡ none)
unfolding restore_session start recover_orphans_in_active
restore_session-lost mio rio u s file well there unpinned nowhere migrated =
    let t : Store = record s { trash = remove u s.trash; active = insert u file s.active } in
    let in_active : lookup u t.active ≡ some file =
      ground (arith, lookup-insert u u file s.active) in
    let out_of_trash : lookup u t.trash ≡ none = ground (arith, lookup-remove u u s.trash) in
    let found = recover_listed rio well t.active u t file false in_active in_active unpinned in
    rw (restored u s file there, migration_over mio t migrated)
      (
        ap (lookup u) (trash-recover_all rio (orphans_of t.active) t) ∙ out_of_trash,
        found.0,
        load_nothing u _ (found.1 ∙ nowhere),
      )
