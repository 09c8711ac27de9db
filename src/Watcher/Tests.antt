-- ===== src/Watcher/Tests.antt =====
-- Polls of the watchers, and the theorems at concrete events.
use forgetty.Base.{
  arith, ◌+◌, ◌≤◌, insert, ◌≡◌, refl, List, [], ◌∷◌, not, ◌&&◌, Option, none, some, if◌then◌else◌,
  to_nat,
}
use forgetty.Watcher.Event.{Event, WatchedPath, create, modify, remove, other}
use forgetty.Watcher.Files.{poll as poll_files, any_within, debounce_interval, is_previewable}
use forgetty.Watcher.Files.Debounce.{times, is_mentioned, times-poll}
use forgetty.Watcher.Config.{poll as poll_config, is_any_relevant, poll-changed}

abbrev readme : WatchedPath
readme = record { id = 1; lowercase_extension = some "md"; file_name = some "README.md" }

abbrev config : WatchedPath
config = record { id = 2; lowercase_extension = some "toml"; file_name = some "config.toml" }

-- The readme is written twice, once beside the configuration, and opened; an error comes in between.
abbrev rx : List (Option Event)
rx =
    some (record { kind = modify; paths = readme ∷ config ∷ [] })
    ∷ none
    ∷ some (record { kind = create; paths = readme ∷ [] })
    ∷ some (record { kind = other; paths = readme ∷ [] })
    ∷ []

reported_once : times 1 (poll_files 5 rx []).changes ≡ 1
unfolding poll_files is_previewable any_within insert
reported_once = refl

not_previewable : times 2 (poll_files 5 rx []).changes ≡ 0
unfolding poll_files is_previewable any_within insert
not_previewable = refl

reported_later : times 1 (poll_files 100000005 rx (poll_files 5 rx []).last_events).changes ≡ 1
unfolding poll_files is_previewable any_within insert
reported_later = refl

times-poll_example :
    let first = poll_files 5 rx [] in
    let second = poll_files 1000005 rx first.last_events in
    (times 1 first.changes
      ≡ to_nat (not (any_within debounce_interval 5 1 []) && is_mentioned 1 rx))
    × (times 1 second.changes
        ≡ to_nat
            (not (any_within debounce_interval 1000005 1 first.last_events) && is_mentioned 1 rx))
    × (times 1 first.changes + times 1 second.changes ≤ 1)
times-poll_example = times-poll 5 1000005 1 rx rx [] (omega arith)

-- The configuration is removed 10 ms after an event of it.
abbrev removal : List (Option Event)
removal = some (record { kind = remove; paths = config ∷ [] }) ∷ []

poll-changed_example :
    ((poll_config 10000005 removal (some 5)).changed ≡ is_any_relevant removal)
    × ((poll_config 10000005 removal (some 5)).last_event
        ≡ (if is_any_relevant removal then some 10000005 else some 5))
poll-changed_example = poll-changed 10000005 removal (some 5)
