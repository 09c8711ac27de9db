-- ===== src/Watcher/Files.antt =====
-- crates/forgetty-watcher/src/watcher.rs: `FileWatcher`, which reports changes of previewable files.
pub mod Debounce
use text.Mathlib.Text.{◌==◌ as str_eq}
use forgetty.Base.{
  ℕ, zero, ◌+◌, ◌-◌, ◌≤◌, ◌<◌, ◌≡◌, refl, sym, ap, ◌∙◌, String, List, [], ◌∷◌, ◌++◌, map, Bool,
  true, false, not, ◌&&◌, ◌||◌, Option, none, some, arith, ltb, ◌==◌, if◌then◌else◌, count,
  count-append, to_nat, insert, Bool-cases, inl, inr,
}
use forgetty.Watcher.Event.{EventKind, create, modify, remove, other, Event, WatchedPath}

pub data ChangeKind : Type 0 where
  created modified removed : ChangeKind

pub record FileChange : Type 0 where
  pub path : WatchedPath
  pub kind : ChangeKind

-- What one poll changes and returns: the times of the last events, and the changes.
pub record Polled : Type 0 where
  pub last_events : List (ℕ × ℕ)
  pub changes : List FileChange

-- 100 ms
abbrev pub debounce_interval : ℕ
debounce_interval = 100000000

-- 60 s
abbrev cutoff : ℕ
cutoff = 60000000000

abbrev previewable_extensions : List String
previewable_extensions = "md" ∷ "markdown" ∷ "png" ∷ "jpg" ∷ "jpeg" ∷ "gif" ∷ "svg" ∷ "webp" ∷ []

unfoldable contains : String → List String → Bool
contains ext [] = false
contains ext (known ∷ rest) = str_eq known ext || contains ext rest

unfoldable pub is_previewable : WatchedPath → Bool
unfolding contains
is_previewable path = elim path.lowercase_extension [
  | none ↦ false
  | some ext ↦ contains ext previewable_extensions
]

unfoldable change_kind : EventKind → Option ChangeKind
change_kind create = some created
change_kind modify = some modified
change_kind remove = some removed
change_kind other = none

-- Whether an event of the path was processed within the time.
unfoldable pub any_within : ℕ → ℕ → ℕ → List (ℕ × ℕ) → Bool
any_within limit now path [] = false
any_within limit now path ((p, t) ∷ rest) =
    ((p == path) && ltb (now - t) limit) || any_within limit now path rest

-- The body of the loop over the paths of an event.
unfoldable visit : ℕ → ChangeKind → WatchedPath → Polled → Polled
visit now kind path s =
    if is_previewable path
    then (if any_within debounce_interval now path.id s.last_events then s else record {
      last_events = insert path.id now s.last_events;
      changes = s.changes ++ (record { path = path; kind = kind } ∷ []);
    })
    else s

unfoldable visit_all : ℕ → ChangeKind → List WatchedPath → Polled → Polled
visit_all now kind [] s = s
visit_all now kind (path ∷ paths) s = visit_all now kind paths (visit now kind path s)

-- The events waiting in the channel; `none` is an error of the library.
unfoldable drain : ℕ → List (Option Event) → Polled → Polled
unfolding change_kind
drain now [] s = s
drain now (none ∷ rx) s = drain now rx s
drain now (some event ∷ rx) s =
    drain now rx
      (elim (change_kind event.kind) [ none ↦ s | some kind ↦ visit_all now kind event.paths s ])

unfoldable prune : ℕ → List (ℕ × ℕ) → List (ℕ × ℕ)
prune now [] = []
prune now ((p, t) ∷ rest) =
    let kept = prune now rest in if ltb (now - t) cutoff then (p, t) ∷ kept else kept

unfoldable pub poll : ℕ → List (Option Event) → List (ℕ × ℕ) → Polled
unfolding visit visit_all drain prune
poll now rx last_events =
    let s = drain now rx (record { last_events = last_events; changes = [] }) in
    record { last_events = prune now s.last_events; changes = s.changes }
