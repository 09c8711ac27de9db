-- ===== src/Sync/Pairing.antt =====
-- crates/forgetty-sync/src/pairing.rs: the decision on an incoming connection. The registry check and
-- the change are two critical sections in the source; no other connection runs between them here.
use forgetty.Base.{
  ℕ, ◌≡◌, refl, sym, ap, ◌∙◌, String, List, [], ◌∷◌, Bool, true, false, ◌&&◌, ◌||◌, Option, none,
  some, arith, ◌==◌, if◌then◌else◌, unwrap_or, Bool-cases, inl, inr,
}
use forgetty.Sync.Registry.{
  DeviceEntry, DeviceRegistry, Saving, is_authorized, add, update_last_seen, apply, allows, adding,
  seeing, is_authorized-apply,
}

pub data SyncEvent : Type 0 where
  device_paired : DeviceEntry → SyncEvent
  device_revoked device_connected device_disconnected : ℕ → SyncEvent

-- `conn.close(0, b"connected-ok")`, `conn.close(0, b"paired-ok")`, `conn.close(1, b"not-authorized")`
pub data CloseReason : Type 0 where
  connected_ok paired_ok not_authorized : CloseReason

-- A connection: the remote id, whether the pairing window was open when it was accepted, the name that
-- the client sent, if any, the name made up from the clock, the time, and how the save ends.
pub record Connection : Type 0 where
  pub remote_id : ℕ
  pub allow_pairing : Bool
  pub client_name : Option String
  pub default_name : String
  pub now : String
  pub saving : Saving

pub record Handled : Type 0 where
  pub registry : DeviceRegistry
  pub event : Option SyncEvent
  pub close : CloseReason

unfoldable pub new_entry : Connection → DeviceEntry
new_entry conn = record {
  device_id = conn.remote_id;
  name = unwrap_or conn.client_name conn.default_name;
  paired_at = conn.now;
  last_seen = none;
}

-- Errors of the registry are only logged.
unfoldable pub handle_connection : Connection → DeviceRegistry → Handled
unfolding new_entry
handle_connection conn r =
    if is_authorized conn.remote_id r
    then record {
      registry = (update_last_seen conn.saving conn.now conn.remote_id r).0;
      event = some (device_connected conn.remote_id);
      close = connected_ok;
    }
    else (if conn.allow_pairing
        then record {
          registry = (add conn.saving (new_entry conn) r).0;
          event = some (device_paired (new_entry conn));
          close = paired_ok;
        }
        else record { registry = r; event = none; close = not_authorized })

-- The connections that the endpoint accepts, one after the other.
unfoldable pub handle_all : List Connection → DeviceRegistry → DeviceRegistry
unfolding handle_connection
handle_all [] r = r
handle_all (conn ∷ conns) r = handle_all conns (handle_connection conn r).registry

-- What the peer reads off the close code.
abbrev pub is_welcome : CloseReason → Bool
is_welcome connected_ok = true
is_welcome paired_ok = true
is_welcome not_authorized = false

-- Whether some connection of the device came while the pairing window was open.
abbrev pub was_invited : ℕ → List Connection → Bool
was_invited a [] = false
was_invited a (conn ∷ conns) = (conn.allow_pairing && (conn.remote_id == a)) || was_invited a conns

add-authorizes :
    (a : ℕ) (saving : Saving) (entry : DeviceEntry) (r : DeviceRegistry)
    → is_authorized a (add saving entry r).0 ≡ (is_authorized a r || (entry.device_id == a))
unfolding apply allows
add-authorizes a saving entry r = is_authorized-apply saving (adding entry) a r

seen-authorizes :
    (a : ℕ) (saving : Saving) (now : String) (id : ℕ) (r : DeviceRegistry)
    → is_authorized a (update_last_seen saving now id r).0 ≡ is_authorized a r
unfolding apply allows
seen-authorizes a saving now id r = is_authorized-apply saving (seeing now id) a r

-- A device is welcomed exactly if it is authorized when the connection ends.
handle_connection-welcomes :
    (conn : Connection) (r : DeviceRegistry)
    → is_welcome (handle_connection conn r).close
      ≡ is_authorized conn.remote_id (handle_connection conn r).registry
unfolding handle_connection new_entry
handle_connection-welcomes conn r =
    let id = conn.remote_id in
    let known = seen-authorizes id conn.saving conn.now id r in
    let paired = add-authorizes id conn.saving (new_entry conn) r in
    elim (Bool-cases (is_authorized id r)) [
      | inl there ↦ rw there (sym (known ∙ there))
      | inr new ↦ elim (Bool-cases conn.allow_pairing) [
        | inl invited ↦
            let self : (id == id) ≡ true = ground arith in
            rw (new, invited) (sym (paired ∙ ap (λ b. b || (id == id)) new ∙ self))
        | inr shut ↦ rw (new, shut) (sym new)
      ]
    ]

handle_connection-authorizes :
    (conn : Connection) (a : ℕ) (r : DeviceRegistry)
    → is_authorized a (handle_connection conn r).registry
      ≡ (is_authorized a r || (conn.allow_pairing && (conn.remote_id == a)))
unfolding handle_connection new_entry
handle_connection-authorizes conn a r =
    let id = conn.remote_id in
    let known = seen-authorizes a conn.saving conn.now id r in
    let paired = add-authorizes a conn.saving (new_entry conn) r in
    elim (Bool-cases (is_authorized id r)) [
      | inl there ↦ rw there (
          known ∙ (elim (Bool-cases (id == a)) [
            | inl same ↦
                let e : id ≡ a = ground arith in
                let in_before : is_authorized a r ≡ true =
                  ap (λ x. is_authorized x r) (sym e) ∙ there in
                rw in_before refl
            | inr other ↦ rw other (ground arith)
          ]))
      | inr new ↦ elim (Bool-cases conn.allow_pairing) [
        | inl invited ↦ rw (new, invited) paired
        | inr shut ↦ rw (new, shut) (ground arith)
      ]
    ]

-- After any sequence of connections, whose saves may fail, a device is authorized exactly if it was
-- before or connected once while the pairing window was open. With the window shut, nobody gets in.
pub handle_all-authorizes :
    (conns : List Connection) (a : ℕ) (r : DeviceRegistry)
    → is_authorized a (handle_all conns r) ≡ (is_authorized a r || was_invited a conns)
unfolding handle_all
handle_all-authorizes [] a r = ground arith
handle_all-authorizes (conn ∷ conns) a r = ground (
  arith,
  handle_all-authorizes conns a (handle_connection conn r).registry,
  handle_connection-authorizes conn a r,
)
