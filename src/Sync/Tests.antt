-- ===== src/Sync/Tests.antt =====
-- Runs of the registry and its calendar, and the theorems at concrete inputs.
use forgetty.Base.{ℕ, ◌+◌, ◌*◌, ◌<◌, ◌≡◌, refl, [], ◌∷◌, true, false, ◌||◌, none, some, arith}
use forgetty.Sync.Calendar.{days_to_ymd, is_leap, IsDate, iso8601_of, iso8601_of-IsDate}
use forgetty.Sync.Pairing.{Connection, handle_all, was_invited, handle_all-authorizes}
use forgetty.Sync.Endpoint.{SyncEndpoint, enable_pairing, wake, allow_pairing-reopened}
use forgetty.Sync.Registry.{
  DeviceEntry, DeviceRegistry, saved, write_failed, removing, apply, is_authorized, load, Persisted,
  load-apply, InStep,
}

leap_years : (is_leap 1900 ≡ false) × (is_leap 2000 ≡ true) × (is_leap 2023 ≡ false)
unfolding is_leap
leap_years = (refl, refl, refl)

first_of_march : days_to_ymd 59 ≡ (1970, 3, 1)
unfolding days_to_ymd
first_of_march = refl

leap_day : days_to_ymd 789 ≡ (1972, 2, 29)
unfolding days_to_ymd
leap_day = refl

iso8601_of-IsDate_example :
    let t = iso8601_of 100000 in
    let (y, m, d) = t.date in
    (days : ℕ) × IsDate days y m d
    × (t.hh < 24)
    × (t.mm < 60)
    × (t.ss < 60)
    × (days * 86400 + t.hh * 3600 + t.mm * 60 + t.ss ≡ 100000)
iso8601_of-IsDate_example = iso8601_of-IsDate 100000

abbrev phone : DeviceEntry
phone = record {
  device_id = 7;
  name = "phone";
  paired_at = "1970-01-01T00:00:00Z";
  last_seen = none;
}

abbrev paired : DeviceRegistry
paired = record {
  devices = phone ∷ phone ∷ [];
  disk = record { file = some (phone ∷ phone ∷ []); tmp = false };
}

paired-InStep : InStep paired
unfolding load
paired-InStep = refl

load-apply_example : Persisted paired (apply write_failed (removing 7) paired)
load-apply_example = load-apply write_failed (removing 7) paired paired-InStep

-- A tablet that connects while the pairing window is open, and one that comes too late.
abbrev tablet : Connection
tablet = record {
  remote_id = 8;
  allow_pairing = true;
  client_name = none;
  default_name = "device-0";
  now = "1970-01-01T00:00:00Z";
  saving = saved;
}

abbrev latecomer : Connection
latecomer = record tablet { remote_id = 9; allow_pairing = false }

handle_all-authorizes_example :
    is_authorized 9 (handle_all (tablet ∷ latecomer ∷ []) paired)
    ≡ (is_authorized 9 paired || was_invited 9 (tablet ∷ latecomer ∷ []))
handle_all-authorizes_example = handle_all-authorizes (tablet ∷ latecomer ∷ []) 9 paired

-- A window of 100 seconds at time 0, and one of 120 seconds that is opened at time 60.
abbrev endpoint : SyncEndpoint
endpoint = record {
  node_id = 1;
  registry = paired;
  event_tx = [];
  allow_pairing = false;
  timers = [];
}

allow_pairing-reopened_example :
    (wake 101 (enable_pairing 60 120 (wake 60 (enable_pairing 0 100 endpoint)))).allow_pairing
    ≡ false
allow_pairing-reopened_example =
    allow_pairing-reopened 0 60 100 120 101 endpoint (omega arith) (omega arith) (omega arith)
