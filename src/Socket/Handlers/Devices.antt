-- ===== src/Socket/Handlers/Devices.antt =====
-- handlers.rs: the methods on paired devices, which need the sync endpoint.
use forgetty.Base.{
  ℕ, String, List, [], ◌∷◌, ◌++◌, true, Option, none, some, map, unwrap_or, if◌then◌else◌,
}
use forgetty.Sync.Registry.{DeviceEntry, Saving, done, failed, remove}
use forgetty.Sync.Pairing.{device_revoked}
use forgetty.Sync.Endpoint.{SyncEndpoint, enable_pairing}
use forgetty.Socket.Json.{Value, boolean, integer, string, json_object, json_array, or_null}
use forgetty.Socket.Protocol.{
  Request, Response, invalid_params, internal_error, missing_param, other_failure, success, failure,
}
use forgetty.Socket.Handlers.{param_str, param_u64}

-- The numbering of the device ids and of the node id, which are base32 texts; the time in seconds; how
-- a save of the registry ends; the host's name; the QR code's picture or the error; and base64.
pub record SyncHost : Type 0 where
  pub device_number : String → ℕ
  pub device_text : ℕ → String
  pub now : ℕ
  pub saving : Saving
  pub hostname : Option String
  pub qr_to_png : String → Option (List ℕ)
  pub encode_base64 : List ℕ → String

-- The endpoint after the request, and the response.
abbrev pub SyncReply : Type 0
SyncReply = SyncEndpoint × Response

device_value : SyncHost → DeviceEntry → Value
device_value h d = json_object (
    ("device_id", string (h.device_text d.device_id))
    ∷ ("name", string d.name)
    ∷ ("paired_at", string d.paired_at)
    ∷ ("last_seen", or_null string d.last_seen)
    ∷ [])

unfoldable pub handle_list_devices : SyncHost → Request → SyncEndpoint → SyncReply
unfolding device_value
handle_list_devices h request se = (
  se,
  success request.id
      (json_object (("devices", json_array (map (device_value h) se.registry.devices)) ∷ [])),
)

-- The event is sent only if the device was there and the list is saved.
unfoldable pub handle_revoke_device : SyncHost → Request → SyncEndpoint → SyncReply
handle_revoke_device h request se = elim (param_str "device_id" request) [
  | none ↦ (se, failure request.id invalid_params (missing_param "device_id"))
  | some text ↦
      let id = h.device_number text in
      let (registry, removed) = remove h.saving id se.registry in
      elim removed [
        | failed why ↦ (
          record se { registry = registry },
          failure request.id internal_error (other_failure "revoke device"),
        )
        | done found ↦ (
          record se {
            registry = registry;
            event_tx = if found then se.event_tx ++ device_revoked id ∷ [] else se.event_tx;
          },
          success request.id (json_object (("ok", boolean found) ∷ [])),
        )
      ]
]

unfoldable pub handle_enable_pairing : SyncHost → Request → SyncEndpoint → SyncReply
handle_enable_pairing h request se =
    let secs = unwrap_or (param_u64 "secs" request) 120 in
    (
      enable_pairing h.now secs se,
      success request.id (json_object (("ok", boolean true) ∷ ("secs", integer secs) ∷ [])),
    )

unfoldable pub handle_get_pairing_info : SyncHost → Request → SyncEndpoint → SyncReply
handle_get_pairing_info h request se =
    let node_id = h.device_text se.node_id in
    let machine = unwrap_or h.hostname "unknown" in
    elim (h.qr_to_png node_id) [
      | none ↦ (se, failure request.id internal_error (other_failure "QR PNG generation"))
      | some png_bytes ↦ (
        se,
        success request.id (
            json_object (
              ("node_id", string node_id)
              ∷ ("machine", string machine)
              ∷ ("qr_png_base64", string (h.encode_base64 png_bytes))
              ∷ [])),
      )
    ]
