-- ===== src/Workspace/Migration.antt =====
-- persistence.rs: the one-shot migration to the three directories, P-018.
use forgetty.Base.{
  ℕ, ◌≡◌, refl, subst, ◌∙◌, List, [], ◌∷◌, Bool, true, false, ◌||◌, Option, none, some, arith,
  lookup, lookup-insert, lookup-remove, remove, ◌==◌, ==_iff, if◌then◌else◌, Option-cases,
  Bool-cases, inl, inr,
}
use forgetty.Workspace.Store.{
  File, Bucket, Store, IoResult, done, failed, Moving, renamed, rename_with_fallback,
  read_pinned_field, keys, list_sessions,
}

-- How the steps of the migration end: the directories, the reading of sessions/, each move and each
-- removal, and the writing of the marker.
pub record MigrationIo : Type 0 where
  pub directories : Bool
  pub listed : Bool
  pub moving : ℕ → Moving
  pub removed : ℕ → Bool
  pub marked : Bool

-- One round of the loop. A file that cannot be read, or is pinned, stays; a copy in trash/ is kept.
unfoldable pub migrate_one : MigrationIo → ℕ → Store → Store
unfolding rename_with_fallback
migrate_one io id s = elim (lookup id s.sessions) [
  | none ↦ s
  | some file ↦ elim (read_pinned_field file) [
    | none ↦ s
    | some pinned ↦ if pinned then s else elim (lookup id s.trash) [
      | some kept ↦ if io.removed id then record s { sessions = remove id s.sessions } else s
      | none ↦
          let moved = (rename_with_fallback (io.moving id) id file s.sessions s.trash).0 in
          record s { sessions = moved.0; trash = moved.1 }
    ]
  ]
]

unfoldable pub migrate_all : MigrationIo → List ℕ → Store → Store
migrate_all io [] s = s
migrate_all io (id ∷ ids) s = migrate_all io ids (migrate_one io id s)

-- The directory sessions/ exists by then, as active/ was made below it.
unfoldable pub run_migration_p018 : MigrationIo → Store → Store × IoResult
run_migration_p018 io s =
    if s.marker
    then (s, done)
    else (if io.directories
        then (if io.listed
            then (let migrated = migrate_all io (list_sessions s) s in
                if io.marked then (record migrated { marker = true }, done) else (migrated, failed))
            else (s, failed))
        else (s, failed))

-- What stays in sessions/ of a file, and what of it is for trash/.
abbrev pub stays : Option File → Option File
stays none = none
stays (some file) = elim (read_pinned_field file) [
  | none ↦ some file
  | some pinned ↦ if pinned then some file else none
]

abbrev pub leaves_for : Option File → Option File → Option File
leaves_for there (some kept) = some kept
leaves_for none none = none
leaves_for (some file) none = elim (read_pinned_field file) [
  | none ↦ none
  | some pinned ↦ if pinned then none else some file
]

-- Every step ends well.
pub record AllWell (io : MigrationIo) : Type 0 where
  pub directories : io.directories ≡ true
  pub listed : io.listed ≡ true
  pub moving : (id : ℕ) → io.moving id ≡ renamed
  pub removed : (id : ℕ) → io.removed id ≡ true
  pub marked : io.marked ≡ true

abbrev is_listed : ℕ → List ℕ → Bool
is_listed id [] = false
is_listed id (other ∷ ids) = (other == id) || is_listed id ids

module _ (io : MigrationIo) (well : AllWell io) where
  migrate_one_same :
      (id : ℕ) (s : Store)
      → (lookup id (migrate_one io id s).sessions ≡ stays (lookup id s.sessions))
        × (lookup id (migrate_one io id s).trash
            ≡ leaves_for (lookup id s.sessions) (lookup id s.trash))
  unfolding migrate_one
  migrate_one_same id s = elim (Option-cases (lookup id s.sessions)) [
    | inl gone ↦ ground arith
    | inr (file, there) ↦ ground (
      arith,
      well.moving id,
      well.removed id,
      lookup-insert id id file s.trash,
      lookup-remove id id s.sessions,
    )
  ]

  migrate_one_other :
      (id u : ℕ) (s : Store)
      → (id == u) ≡ false
      → (lookup u (migrate_one io id s).sessions ≡ lookup u s.sessions)
        × (lookup u (migrate_one io id s).trash ≡ lookup u s.trash)
  unfolding migrate_one
  migrate_one_other id u s other = elim (Option-cases (lookup id s.sessions)) [
    | inl gone ↦ ground arith
    | inr (file, there) ↦ ground (
      arith,
      well.moving id,
      well.removed id,
      lookup-insert id u file s.trash,
      lookup-remove id u s.sessions,
    )
  ]

  stays_twice : (o : Option File) → stays (stays o) ≡ stays o
  stays_twice none = refl
  stays_twice (some file) = ground arith

  leaves_twice : (o t : Option File) → leaves_for (stays o) (leaves_for o t) ≡ leaves_for o t
  leaves_twice none none = refl
  leaves_twice none (some kept) = refl
  leaves_twice (some file) (some kept) = refl
  leaves_twice (some file) none = ground arith

  migrate_all-lookup :
      (ids : List ℕ) (u : ℕ) (s : Store)
      → (lookup u (migrate_all io ids s).sessions
          ≡ (if is_listed u ids then stays (lookup u s.sessions) else lookup u s.sessions))
        × (lookup u (migrate_all io ids s).trash ≡ (
            if is_listed u ids
            then leaves_for (lookup u s.sessions) (lookup u s.trash)
            else lookup u s.trash))
  unfolding migrate_all
  migrate_all-lookup [] u s = (refl, refl)
  migrate_all-lookup (id ∷ ids) u s = elim (Bool-cases (id == u)) [
    | inr other ↦
        ground
          (arith, migrate_one_other id u s other, migrate_all-lookup ids u (migrate_one io id s))
    | inl same ↦
        let e : id ≡ u = (==_iff id u).0 same in
        let one =
          subst
            (λ (v : ℕ).
              (lookup v (migrate_one io id s).sessions ≡ stays (lookup v s.sessions))
              × (lookup v (migrate_one io id s).trash
                  ≡ leaves_for (lookup v s.sessions) (lookup v s.trash)))
            e (migrate_one_same id s) in
        ground (
          arith,
          one,
          stays_twice (lookup u s.sessions),
          leaves_twice (lookup u s.sessions) (lookup u s.trash),
          migrate_all-lookup ids u (migrate_one io id s),
        )
  ]

  active-migrate_one : (id : ℕ) (s : Store) → (migrate_one io id s).active ≡ s.active
  unfolding migrate_one
  active-migrate_one id s = ground arith

  active-migrate_all : (ids : List ℕ) (s : Store) → (migrate_all io ids s).active ≡ s.active
  unfolding migrate_all migrate_one
  active-migrate_all [] s = refl
  active-migrate_all (id ∷ ids) s =
      active-migrate_all ids (migrate_one io id s) ∙ active-migrate_one id s

is_listed-keys : (u : ℕ) (files : Bucket) → is_listed u (keys files) ≡ false → lookup u files ≡ none
unfolding lookup
is_listed-keys u [] h = refl
is_listed-keys u ((id, file) ∷ files) h = ground (arith, is_listed-keys u files)

-- The migration of a store that has no marker, if every step ends well: in sessions/ stay the files
-- that are pinned or cannot be read; each other file is in trash/ as it was, unless that had a file of
-- the session, which is kept; active/ is as it was; and the marker is set, with which a second run
-- changes nothing.
pub run_migration_p018-lookup :
    (io : MigrationIo) (u : ℕ) (s : Store)
    → AllWell io
    → s.marker ≡ false
    → (lookup u (run_migration_p018 io s).0.sessions ≡ stays (lookup u s.sessions))
      × (lookup u (run_migration_p018 io s).0.trash
          ≡ leaves_for (lookup u s.sessions) (lookup u s.trash))
      × ((run_migration_p018 io s).0.active ≡ s.active)
      × (run_migration_p018 io (run_migration_p018 io s).0 ≡ ((run_migration_p018 io s).0, done))
unfolding run_migration_p018 list_sessions
run_migration_p018-lookup io u s well new =
    let all = migrate_all-lookup io well (keys s.sessions) u s in
    let same = active-migrate_all io well (keys s.sessions) s in
    elim (Bool-cases (is_listed u (keys s.sessions))) [
      | inl there ↦ ground (arith, all, same, well.directories, well.listed, well.marked)
      | inr gone ↦
          let missing = is_listed-keys u s.sessions gone in
          ground (arith, all, same, missing, well.directories, well.listed, well.marked)
    ]
