-- ===== src/Watcher/Config.antt =====
-- crates/forgetty-watcher/src/watcher.rs: `ConfigWatcher`, which tells that config.toml has changed.
use text.Mathlib.Text.{◌==◌ as str_eq}
use forgetty.Base.{
  ℕ, ◌-◌, ◌≡◌, String, List, [], ◌∷◌, Bool, true, false, ◌&&◌, ◌||◌, Option, none, some, arith, ltb,
  if◌then◌else◌,
}
use forgetty.Watcher.Event.{EventKind, create, modify, remove, other, Event, WatchedPath}

-- What one poll changes and returns.
pub record ConfigPolled : Type 0 where
  pub last_event : Option ℕ
  pub changed : Bool

-- 300 ms
abbrev config_debounce_interval : ℕ
config_debounce_interval = 300000000

abbrev config_filename : String
config_filename = "config.toml"

abbrev is_change : EventKind → Bool
is_change create = true
is_change modify = true
is_change remove = true
is_change other = false

abbrev names_config : List WatchedPath → Bool
names_config [] = false
names_config (path ∷ paths) =
    elim path.file_name [ none ↦ false | some name ↦ str_eq name config_filename ]
    || names_config paths

-- The event passes the two guards of the loop.
abbrev pub is_relevant : Option Event → Bool
is_relevant none = false
is_relevant (some event) = is_change event.kind && names_config event.paths

-- The rest of the loop's body, both branches of the debounce.
unfoldable debounce : ℕ → ConfigPolled → ConfigPolled
debounce now s = elim s.last_event [
  | none ↦ record { last_event = some now; changed = true }
  | some last ↦
      if ltb (now - last) config_debounce_interval
      then record { last_event = some now; changed = true }
      else record { last_event = some now; changed = true }
]

unfoldable drain : ℕ → List (Option Event) → ConfigPolled → ConfigPolled
unfolding debounce
drain now [] s = s
drain now (event ∷ rx) s = drain now rx (if is_relevant event then debounce now s else s)

unfoldable pub poll : ℕ → List (Option Event) → Option ℕ → ConfigPolled
unfolding drain
poll now rx last_event = drain now rx (record { last_event = last_event; changed = false })

abbrev pub is_any_relevant : List (Option Event) → Bool
is_any_relevant [] = false
is_any_relevant (event ∷ rx) = is_relevant event || is_any_relevant rx

drain-changed :
    (now : ℕ) (rx : List (Option Event)) (s : ConfigPolled)
    → ((drain now rx s).changed ≡ (s.changed || is_any_relevant rx))
      × ((drain now rx s).last_event ≡ (if is_any_relevant rx then some now else s.last_event))
unfolding drain debounce
drain-changed now [] s = ground arith
drain-changed now (event ∷ rx) s =
    ground (arith, drain-changed now rx (if is_relevant event then debounce now s else s))

-- A poll tells of a change exactly if a waiting event creates, modifies or removes a file named
-- config.toml, at whatever time an earlier poll told of one, and then keeps its own time.
pub poll-changed :
    (now : ℕ) (rx : List (Option Event)) (last_event : Option ℕ)
    → ((poll now rx last_event).changed ≡ is_any_relevant rx)
      × ((poll now rx last_event).last_event
          ≡ (if is_any_relevant rx then some now else last_event))
unfolding poll
poll-changed now rx last_event =
    drain-changed now rx (record { last_event = last_event; changed = false })
