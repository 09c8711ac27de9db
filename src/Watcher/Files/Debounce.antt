-- ===== src/Watcher/Files/Debounce.antt =====
-- crates/forgetty-watcher/src/watcher.rs: which changes the polls of a `FileWatcher` report.
use forgetty.Base.{
  ℕ, ◌+◌, ◌<◌, ◌≤◌, ◌≡◌, List, [], ◌∷◌, ◌++◌, Bool, true, false, not, ◌&&◌, ◌||◌, Option, none,
  some, arith, ◌==◌, if◌then◌else◌, to_nat, insert,
}
use forgetty.Watcher.Event.{Event, WatchedPath}
use forgetty.Watcher.Files.{
  ChangeKind, FileChange, Polled, debounce_interval, is_previewable, change_kind, any_within, visit,
  visit_all, drain, prune, poll,
}

-- How often a path is reported.
abbrev pub times : ℕ → List FileChange → ℕ
times p [] = 0
times p (change ∷ changes) = to_nat (change.path.id == p) + times p changes

-- Whether a previewable path stands in a list.
abbrev pub is_named : ℕ → List WatchedPath → Bool
is_named p [] = false
is_named p (path ∷ paths) = (is_previewable path && (path.id == p)) || is_named p paths

-- Whether an event is a creation, a modification or a removal that names the path.
abbrev pub concerns : ℕ → Option Event → Bool
concerns p none = false
concerns p (some event) = elim (change_kind event.kind) [
  | none ↦ false
  | some kind ↦ is_named p event.paths
]

abbrev pub is_mentioned : ℕ → List (Option Event) → Bool
is_mentioned p [] = false
is_mentioned p (event ∷ rx) = concerns p event || is_mentioned p rx

times-append :
    (p : ℕ) (front back : List FileChange) → times p (front ++ back) ≡ times p front + times p back
times-append p [] back = omega arith
times-append p (change ∷ front) back = let rest = times-append p front back in omega (arith, rest)

any_within-insert :
    (limit now p q : ℕ) (last_events : List (ℕ × ℕ))
    → 0 < limit
    → any_within limit now p (insert q now last_events)
      ≡ (if q == p then true else any_within limit now p last_events)
unfolding any_within insert
any_within-insert limit now p q [] h = ground arith
any_within-insert limit now p q ((r, t) ∷ rest) h =
    ground (arith, any_within-insert limit now p q rest h)

-- What paths that name `p`, or do not, have done to the state of the poll.
abbrev Visited : ℕ → ℕ → Bool → Polled → Polled → Type 0
Visited now p named s r =
    (any_within debounce_interval now p r.last_events
      ≡ (any_within debounce_interval now p s.last_events || named))
    × (times p r.changes
        ≡ times p s.changes
          + to_nat (not (any_within debounce_interval now p s.last_events) && named))

Visited-step :
    (now p : ℕ) (first second : Bool) (s r q : Polled)
    → Visited now p first s r
    → Visited now p second r q
    → Visited now p (first || second) s q
Visited-step now p first second s r q (seen, reported) (then_seen, then_reported) = ground arith

visit-Visited :
    (now p : ℕ) (kind : ChangeKind) (path : WatchedPath) (s : Polled)
    → Visited now p (is_previewable path && (path.id == p)) s (visit now kind path s)
unfolding visit
visit-Visited now p kind path s = ground (
  arith,
  times-append p s.changes (record { path = path; kind = kind } ∷ []),
  any_within-insert debounce_interval now p path.id s.last_events,
)

visit_all-Visited :
    (now p : ℕ) (kind : ChangeKind) (paths : List WatchedPath) (s : Polled)
    → Visited now p (is_named p paths) s (visit_all now kind paths s)
unfolding visit_all
visit_all-Visited now p kind [] s = ground arith
visit_all-Visited now p kind (path ∷ paths) s =
    let visited = visit now kind path s in
    Visited-step now p (is_previewable path && (path.id == p)) (is_named p paths) s visited
      (visit_all now kind paths visited) (visit-Visited now p kind path s)
      (visit_all-Visited now p kind paths visited)

event-Visited :
    (now p : ℕ) (known : Option ChangeKind) (paths : List WatchedPath) (s : Polled)
    → Visited now p
        (elim known [ none ↦ false | some kind ↦ is_named p paths ])
        s
        (elim known [ none ↦ s | some kind ↦ visit_all now kind paths s ])
event-Visited now p none paths s = ground arith
event-Visited now p (some kind) paths s = visit_all-Visited now p kind paths s

drain-Visited :
    (now p : ℕ) (rx : List (Option Event)) (s : Polled)
    → Visited now p (is_mentioned p rx) s (drain now rx s)
unfolding drain
drain-Visited now p [] s = ground arith
drain-Visited now p (none ∷ rx) s = drain-Visited now p rx s
drain-Visited now p (some event ∷ rx) s =
    let visited : Polled = elim (change_kind event.kind) [
      | none ↦ s
      | some kind ↦ visit_all now kind event.paths s
    ] in
    Visited-step now p (concerns p (some event)) (is_mentioned p rx) s visited
      (drain now rx visited) (event-Visited now p (change_kind event.kind) event.paths s)
      (drain-Visited now p rx visited)

-- A path that the poll has reported was stamped with the time of the poll.
Stamped : ℕ → ℕ → Polled → Type 0
Stamped now p s = 0 < times p s.changes → any_within 1 now p s.last_events ≡ true

visit-Stamped :
    (now p : ℕ) (kind : ChangeKind) (path : WatchedPath) (s : Polled)
    → Stamped now p s
    → Stamped now p (visit now kind path s)
unfolding visit Stamped
visit-Stamped now p kind path s h = ground (
  arith,
  h,
  times-append p s.changes (record { path = path; kind = kind } ∷ []),
  any_within-insert 1 now p path.id s.last_events,
)

visit_all-Stamped :
    (now p : ℕ) (kind : ChangeKind) (paths : List WatchedPath) (s : Polled)
    → Stamped now p s
    → Stamped now p (visit_all now kind paths s)
unfolding visit_all
visit_all-Stamped now p kind [] s h = h
visit_all-Stamped now p kind (path ∷ paths) s h =
    visit_all-Stamped now p kind paths (visit now kind path s) (visit-Stamped now p kind path s h)

event-Stamped :
    (now p : ℕ) (known : Option ChangeKind) (paths : List WatchedPath) (s : Polled)
    → Stamped now p s
    → Stamped now p (elim known [ none ↦ s | some kind ↦ visit_all now kind paths s ])
event-Stamped now p none paths s h = h
event-Stamped now p (some kind) paths s h = visit_all-Stamped now p kind paths s h

drain-Stamped :
    (now p : ℕ) (rx : List (Option Event)) (s : Polled)
    → Stamped now p s
    → Stamped now p (drain now rx s)
unfolding drain
drain-Stamped now p [] s h = h
drain-Stamped now p (none ∷ rx) s h = drain-Stamped now p rx s h
drain-Stamped now p (some event ∷ rx) s h =
    drain-Stamped now p rx
      (elim (change_kind event.kind) [ none ↦ s | some kind ↦ visit_all now kind event.paths s ])
      (event-Stamped now p (change_kind event.kind) event.paths s h)

prune-any_within :
    (now later p : ℕ) (last_events : List (ℕ × ℕ))
    → later < now + debounce_interval
    → any_within 1 now p last_events ≡ true
    → any_within debounce_interval later p (prune now last_events) ≡ true
unfolding any_within prune
prune-any_within now later p [] soon h = ground arith
prune-any_within now later p ((q, t) ∷ rest) soon h =
    ground (arith, prune-any_within now later p rest soon)

times-changes :
    (now p : ℕ) (rx : List (Option Event)) (last_events : List (ℕ × ℕ))
    → times p (poll now rx last_events).changes
      ≡ to_nat (not (any_within debounce_interval now p last_events) && is_mentioned p rx)
unfolding poll
times-changes now p rx last_events =
    let visited = drain-Visited now p rx (record { last_events = last_events; changes = [] }) in
    omega (arith, visited.1)

times-poll_again :
    (now later p : ℕ) (rx more : List (Option Event)) (last_events : List (ℕ × ℕ))
    → 0 < times p (poll now rx last_events).changes
    → later < now + debounce_interval
    → times p (poll later more (poll now rx last_events).last_events).changes ≡ 0
unfolding poll Stamped
times-poll_again now later p rx more last_events reported soon =
    let start : Polled = record { last_events = last_events; changes = [] } in
    let drained = drain now rx start in
    let stamped = drain-Stamped now p rx start (λ none_yet. ground arith) reported in
    let kept = prune-any_within now later p drained.last_events soon stamped in
    let again = times-changes later p more (prune now drained.last_events) in
    ground (arith, kept, again)

-- A poll reports a path once if a waiting event creates, modifies or removes it, it is previewable,
-- and no event of it is recorded within the 100 ms before; otherwise it does not report the path. The
-- next poll, if it runs less than 100 ms later, reports by the same rule from what the first one has
-- recorded, and the two polls together report the path at most once, whatever events come.
pub times-poll :
    (now later p : ℕ) (rx more : List (Option Event)) (last_events : List (ℕ × ℕ))
    → later < now + debounce_interval
    → let first = poll now rx last_events in
      let second = poll later more first.last_events in
      (times p first.changes
        ≡ to_nat (not (any_within debounce_interval now p last_events) && is_mentioned p rx))
      × (times p second.changes
          ≡ to_nat
              (not (any_within debounce_interval later p first.last_events) && is_mentioned p more))
      × (times p first.changes + times p second.changes ≤ 1)
times-poll now later p rx more last_events soon =
    let first = poll now rx last_events in
    let one = times-changes now p rx last_events in
    let two = times-changes later p more first.last_events in
    let again = times-poll_again now later p rx more last_events in
    (one, two, ground (arith, one, two, again, soon))
