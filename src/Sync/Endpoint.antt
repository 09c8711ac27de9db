-- ===== src/Sync/Endpoint.antt =====
-- crates/forgetty-sync/src/endpoint.rs: the part of `SyncEndpoint` that the socket's handlers use, with
-- the timers that close its pairing window. A time is a number of seconds.
use forgetty.Base.{
  ℕ, ◌+◌, ◌≤◌, ◌<◌, ◌≡◌, refl, List, [], ◌∷◌, Bool, true, false, ◌||◌, arith, leb, if◌then◌else◌,
}
use forgetty.Sync.Registry.{DeviceRegistry}
use forgetty.Sync.Pairing.{SyncEvent}

-- `event_tx` is what was sent so far, and `timers` the times at which the spawned tasks wake up.
pub record SyncEndpoint : Type 0 where
  pub node_id : ℕ
  pub registry : DeviceRegistry
  pub event_tx : List SyncEvent
  pub allow_pairing : Bool
  pub timers : List ℕ

unfoldable pub enable_pairing : ℕ → ℕ → SyncEndpoint → SyncEndpoint
enable_pairing now secs e = record e { allow_pairing = true; timers = (now + secs) ∷ e.timers }

any_due : ℕ → List ℕ → Bool
any_due now [] = false
any_due now (t ∷ timers) = leb t now || any_due now timers

still_asleep : ℕ → List ℕ → List ℕ
still_asleep now [] = []
still_asleep now (t ∷ timers) =
    let rest = still_asleep now timers in if leb t now then rest else t ∷ rest

-- The tasks that have slept to the end, each of which closes the window.
unfoldable pub wake : ℕ → SyncEndpoint → SyncEndpoint
unfolding any_due still_asleep
wake now e = record e {
  allow_pairing = if any_due now e.timers then false else e.allow_pairing;
  timers = still_asleep now e.timers;
}

any_due-still_asleep :
    (now later : ℕ) (timers : List ℕ)
    → now ≤ later
    → any_due later timers ≡ (any_due now timers || any_due later (still_asleep now timers))
unfolding any_due still_asleep
any_due-still_asleep now later [] h = refl
any_due-still_asleep now later (t ∷ timers) h =
    ground (arith, any_due-still_asleep now later timers h)

-- A window that is opened again is closed by the timer of the first opening: from the end of that on
-- it is closed, however long the second opening was to last, unless the tasks had already run when
-- the window was opened again.
pub allow_pairing-reopened :
    (first second secs more at : ℕ) (e : SyncEndpoint)
    → first ≤ second
    → second < first + secs
    → first + secs ≤ at
    → (wake at
        (enable_pairing second more (wake second (enable_pairing first secs e)))).allow_pairing
      ≡ false
unfolding wake enable_pairing any_due still_asleep
allow_pairing-reopened first second secs more at e h running over = ground arith
