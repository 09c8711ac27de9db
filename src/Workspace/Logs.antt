-- ===== src/Workspace/Logs.antt =====
-- persistence.rs: whose byte logs are kept, and the pruning of the others by a daemon that starts.
use forgetty.Base.{
  ℕ, ◌≡◌, refl, ap, List, [], ◌∷◌, ◌++◌, Bool, true, false, ◌&&◌, ◌||◌, Option, none, some, arith,
  ◌==◌, ==_iff, if◌then◌else◌, Bool-cases, inl, inr,
}
use forgetty.Workspace.{PaneTreeState, leaf, split, TabState, Workspace, WorkspaceState}
use forgetty.Workspace.Store.{Contents, session, other_json, not_json, Bucket, LogName, Store}

-- The set that is collected is a list; only membership is asked of it.
unfoldable collect_pane_ids_from_tree : PaneTreeState → List ℕ → List ℕ
collect_pane_ids_from_tree (leaf cwd none) out = out
collect_pane_ids_from_tree (leaf cwd (some id)) out = id ∷ out
collect_pane_ids_from_tree (split direction ratio first second) out =
    collect_pane_ids_from_tree second (collect_pane_ids_from_tree first out)

add_id : Option ℕ → List ℕ → List ℕ
add_id none out = out
add_id (some id) out = id ∷ out

unfoldable collect_from_tabs : List TabState → List ℕ → List ℕ
unfolding add_id
collect_from_tabs [] out = out
collect_from_tabs (tab ∷ tabs) out =
    collect_from_tabs tabs (collect_pane_ids_from_tree tab.pane_tree (add_id tab.pane_id out))

unfoldable collect_from_workspaces : List Workspace → List ℕ → List ℕ
collect_from_workspaces [] out = out
collect_from_workspaces (ws ∷ rest) out =
    collect_from_workspaces rest (collect_from_tabs ws.tabs out)

unfoldable collect_pane_ids : WorkspaceState → List ℕ → List ℕ
collect_pane_ids state out = collect_from_workspaces state.workspaces out

-- The loop over the sessions of a directory, each of which is loaded.
unfoldable collect_from_bucket : Bucket → List ℕ → List ℕ
collect_from_bucket [] out = out
collect_from_bucket ((id, file) ∷ rest) out = collect_from_bucket rest (elim (file.contents) [
  | session state ↦ collect_pane_ids state out
  | other_json pinned ↦ out
  | not_json ↦ out
])

-- The directories sessions/ and trash/.
unfoldable pub all_persisted_pane_ids : Store → List ℕ
unfolding collect_from_bucket collect_pane_ids collect_from_workspaces collect_from_tabs
    collect_pane_ids_from_tree
all_persisted_pane_ids s = collect_from_bucket s.trash (collect_from_bucket s.sessions [])

unfoldable pub is_live : ℕ → List ℕ → Bool
is_live id [] = false
is_live id (live ∷ rest) = (live == id) || is_live id rest

-- A log of another pane goes, if it can be removed.
unfoldable prune : (LogName → Bool) → List ℕ → List LogName → List LogName
prune removed live_pane_ids [] = []
prune removed live_pane_ids (log ∷ logs) =
    let kept = prune removed live_pane_ids logs in
    if is_live log.pane_id live_pane_ids
    then log ∷ kept
    else (if removed log then kept else log ∷ kept)

unfoldable pub prune_orphan_logs : (LogName → Bool) → List ℕ → Store → Store
unfolding prune is_live
prune_orphan_logs removed live_pane_ids s = record s { logs = prune removed live_pane_ids s.logs }

-- What a daemon does at its start, src/daemon.rs: `in_memory` are the panes that it has restored.
unfoldable pub prune_at_start : (LogName → Bool) → List ℕ → Store → Store
prune_at_start removed in_memory s =
    prune_orphan_logs removed (in_memory ++ all_persisted_pane_ids s) s

-- Whether a session names a pane.
abbrev same_id : Option ℕ → ℕ → Bool
same_id none id = false
same_id (some other) id = other == id

abbrev pub tree_names : PaneTreeState → ℕ → Bool
tree_names (leaf cwd pane_id) id = same_id pane_id id
tree_names (split direction ratio first second) id = tree_names first id || tree_names second id

abbrev pub tabs_name : List TabState → ℕ → Bool
tabs_name [] id = false
tabs_name (tab ∷ tabs) id =
    (same_id tab.pane_id id || tree_names tab.pane_tree id) || tabs_name tabs id

abbrev pub workspaces_name : List Workspace → ℕ → Bool
workspaces_name [] id = false
workspaces_name (ws ∷ rest) id = tabs_name ws.tabs id || workspaces_name rest id

abbrev pub contents_name : Contents → ℕ → Bool
contents_name (session state) id = workspaces_name state.workspaces id
contents_name (other_json pinned) id = false
contents_name not_json id = false

abbrev pub bucket_names : Bucket → ℕ → Bool
bucket_names [] id = false
bucket_names ((u, file) ∷ rest) id = contents_name file.contents id || bucket_names rest id

-- Whether a pane has a log, one of an interrupted rotation included.
abbrev pub has_log : ℕ → List LogName → Bool
has_log id [] = false
has_log id (log ∷ logs) = (log.pane_id == id) || has_log id logs

live-tree :
    (id : ℕ) (tree : PaneTreeState) (out : List ℕ)
    → is_live id (collect_pane_ids_from_tree tree out) ≡ (tree_names tree id || is_live id out)
unfolding is_live collect_pane_ids_from_tree
live-tree id (leaf cwd none) out = refl
live-tree id (leaf cwd (some other)) out = refl
live-tree id (split direction ratio first second) out =
    ground
      (arith, live-tree id second (collect_pane_ids_from_tree first out), live-tree id first out)

live-add_id :
    (id : ℕ) (pane_id : Option ℕ) (out : List ℕ)
    → is_live id (add_id pane_id out) ≡ (same_id pane_id id || is_live id out)
unfolding is_live add_id
live-add_id id none out = refl
live-add_id id (some other) out = refl

live-tabs :
    (id : ℕ) (tabs : List TabState) (out : List ℕ)
    → is_live id (collect_from_tabs tabs out) ≡ (tabs_name tabs id || is_live id out)
unfolding collect_from_tabs
live-tabs id [] out = refl
live-tabs id (tab ∷ tabs) out = ground (
  arith,
  live-tabs id tabs (collect_pane_ids_from_tree tab.pane_tree (add_id tab.pane_id out)),
  live-tree id tab.pane_tree (add_id tab.pane_id out),
  live-add_id id tab.pane_id out,
)

live-workspaces :
    (id : ℕ) (ws : List Workspace) (out : List ℕ)
    → is_live id (collect_from_workspaces ws out) ≡ (workspaces_name ws id || is_live id out)
unfolding collect_from_workspaces
live-workspaces id [] out = refl
live-workspaces id (w ∷ rest) out =
    ground (arith, live-workspaces id rest (collect_from_tabs w.tabs out), live-tabs id w.tabs out)

live-contents :
    (id : ℕ) (contents : Contents) (out : List ℕ)
    → is_live id (elim contents [
      | session state ↦ collect_pane_ids state out
      | other_json pinned ↦ out
      | not_json ↦ out
    ])
      ≡ (contents_name contents id || is_live id out)
unfolding collect_pane_ids
live-contents id (session state) out = live-workspaces id state.workspaces out
live-contents id (other_json pinned) out = refl
live-contents id not_json out = refl

live-bucket :
    (id : ℕ) (files : Bucket) (out : List ℕ)
    → is_live id (collect_from_bucket files out) ≡ (bucket_names files id || is_live id out)
unfolding collect_from_bucket
live-bucket id [] out = refl
live-bucket id ((u, file) ∷ rest) out =
    let out' : List ℕ = elim (file.contents) [
      | session state ↦ collect_pane_ids state out
      | other_json pinned ↦ out
      | not_json ↦ out
    ] in
    ground (arith, live-bucket id rest out', live-contents id file.contents out)

live-append :
    (id : ℕ) (front back : List ℕ)
    → is_live id (front ++ back) ≡ (is_live id front || is_live id back)
unfolding is_live
live-append id [] back = refl
live-append id (x ∷ front) back = ground (arith, live-append id front back)

log-prune :
    (removed : LogName → Bool) (live : List ℕ) (id : ℕ) (logs : List LogName)
    → ((log : LogName) → removed log ≡ true)
    → has_log id (prune removed live logs) ≡ (has_log id logs && is_live id live)
unfolding prune
log-prune removed live id [] all = refl
log-prune removed live id (log ∷ logs) all = elim (Bool-cases (log.pane_id == id)) [
  | inr other ↦ ground (arith, all log, log-prune removed live id logs all)
  | inl same ↦
      let e : is_live log.pane_id live ≡ is_live id live =
        ap (λ (p : ℕ). is_live p live) ((==_iff log.pane_id id).0 same) in
      ground (arith, all log, e, log-prune removed live id logs all)
]

-- A daemon that starts, if every removal is done, keeps the byte logs of the panes that it has restored
-- and of those that a session file in sessions/ or in trash/ names, and removes all others: also
-- those of the panes that only a file in active/ names, where the running daemons keep theirs.
pub has_log-prune_at_start :
    (removed : LogName → Bool) (in_memory : List ℕ) (id : ℕ) (s : Store)
    → ((log : LogName) → removed log ≡ true)
    → has_log id (prune_at_start removed in_memory s).logs ≡ (
        has_log id s.logs
        && (is_live id in_memory || (bucket_names s.sessions id || bucket_names s.trash id)))
unfolding prune_at_start prune_orphan_logs all_persisted_pane_ids is_live
has_log-prune_at_start removed in_memory id s all =
    let persisted = all_persisted_pane_ids s in
    ground (
      arith,
      log-prune removed (in_memory ++ persisted) id s.logs all,
      live-append id in_memory persisted,
      live-bucket id s.trash (collect_from_bucket s.sessions []),
      live-bucket id s.sessions [],
    )
