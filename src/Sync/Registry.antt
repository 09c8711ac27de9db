-- ===== src/Sync/Registry.antt =====
-- registry.rs: the paired devices in memory and on disk. A device id, a base32 text, is a number.
use forgetty.Base.{
  ℕ, ◌<◌, ◌≡◌, refl, sym, ap, subst, ◌∙◌, String, List, [], ◌∷◌, ◌++◌, Bool, true, false, ◌||◌, ◌⊎◌,
  Option, none, some, arith, length, ltb, ◌==◌, if◌then◌else◌, Bool-cases, inl, inr,
}

pub record DeviceEntry : Type 0 where
  pub device_id : ℕ
  pub name : String
  pub paired_at : String
  pub last_seen : Option String

-- `authorized_devices.json`, as the devices that it parses to, and whether a `.tmp` stands beside it.
pub record Disk : Type 0 where
  pub file : Option (List DeviceEntry)
  pub tmp : Bool

pub record DeviceRegistry : Type 0 where
  pub devices : List DeviceEntry
  pub disk : Disk

-- How a `save` ends. The file is replaced only by the rename, which is atomic.
pub data Saving : Type 0 where
  saved no_directory write_failed rename_failed : Saving

pub data RegistryResult {ℓ} (A : Type ℓ) : Type ℓ where
  done : A → RegistryResult A
  failed : Saving → RegistryResult A

unfoldable pub save : Saving → DeviceRegistry → DeviceRegistry × RegistryResult (Unit {0})
save saved r = (record r { disk = record { file = some r.devices; tmp = false } }, done tt)
save no_directory r = (r, failed no_directory)
save write_failed r = (record r { disk = record (r.disk) { tmp = true } }, failed write_failed)
save rename_failed r = (record r { disk = record (r.disk) { tmp = true } }, failed rename_failed)

-- `DeviceRegistry::load` on a disk whose file, if there is one, can be read and parsed.
unfoldable pub load : Disk → DeviceRegistry
load disk = record {
  devices = elim disk.file [ none ↦ [] | some devices ↦ devices ];
  disk = record disk { tmp = false };
}

unfoldable pub any_device : ℕ → List DeviceEntry → Bool
any_device id [] = false
any_device id (d ∷ devices) = (d.device_id == id) || any_device id devices

unfoldable pub is_authorized : ℕ → DeviceRegistry → Bool
unfolding any_device
is_authorized id r = any_device id r.devices

unfoldable pub add :
    Saving → DeviceEntry → DeviceRegistry → DeviceRegistry × RegistryResult (Unit {0})
unfolding save
add saving entry r = save saving (record r { devices = r.devices ++ entry ∷ [] })

-- `retain(|d| d.device_id != device_id)`
unfoldable pub retain_device : ℕ → List DeviceEntry → List DeviceEntry
retain_device id [] = []
retain_device id (d ∷ devices) =
    let rest = retain_device id devices in if d.device_id == id then rest else d ∷ rest

-- Nothing is saved if no device was removed.
unfoldable pub remove : Saving → ℕ → DeviceRegistry → DeviceRegistry × RegistryResult Bool
unfolding save retain_device
remove saving id r =
    let devices = retain_device id r.devices in
    let (r1, result) = save saving (record r { devices = devices }) in
    if ltb (length devices) (length r.devices)
    then (r1, elim result [ done _ ↦ done true | failed why ↦ failed why ])
    else (record r { devices = devices }, done false)

-- The first entry with the id is stamped.
unfoldable pub stamp : String → ℕ → List DeviceEntry → List DeviceEntry
stamp now id [] = []
stamp now id (d ∷ devices) =
    if d.device_id == id
    then record d { last_seen = some now } ∷ devices
    else d ∷ stamp now id devices

unfoldable pub update_last_seen :
    Saving → String → ℕ → DeviceRegistry → DeviceRegistry × RegistryResult (Unit {0})
unfolding save stamp
update_last_seen saving now id r = save saving (record r { devices = stamp now id r.devices })

any_device-append :
    (id : ℕ) (xs : List DeviceEntry) (entry : DeviceEntry)
    → any_device id (xs ++ entry ∷ []) ≡ (any_device id xs || (entry.device_id == id))
unfolding any_device
any_device-append id [] entry = ground arith
any_device-append id (d ∷ xs) entry = ground (arith, any_device-append id xs entry)

any_device-retain :
    (id a : ℕ) (xs : List DeviceEntry)
    → any_device a (retain_device id xs) ≡ (if id == a then false else any_device a xs)
unfolding any_device retain_device
any_device-retain id a [] = ground arith
any_device-retain id a (d ∷ xs) = ground (arith, any_device-retain id a xs)

-- A retain removes at least one entry exactly if the device is there.
length-retain_device :
    (id : ℕ) (xs : List DeviceEntry)
    → ((any_device id xs ≡ true) × (length (retain_device id xs) < length xs))
      ⊎ ((any_device id xs ≡ false) × (retain_device id xs ≡ xs))
unfolding any_device retain_device
length-retain_device id [] = inr (refl, refl)
length-retain_device id (d ∷ xs) = ground (arith, length-retain_device id xs)

any_device-stamp :
    (now : String) (id a : ℕ) (xs : List DeviceEntry)
    → any_device a (stamp now id xs) ≡ any_device a xs
unfolding any_device stamp
any_device-stamp now id a [] = refl
any_device-stamp now id a (d ∷ xs) = ground (arith, any_device-stamp now id a xs)

-- Every operation that the registry has.
pub data Change : Type 0 where
  adding : DeviceEntry → Change
  removing : ℕ → Change
  seeing : String → ℕ → Change

-- The registry after a change, and whether it returned no error.
unfoldable pub apply : Saving → Change → DeviceRegistry → DeviceRegistry × Bool
unfolding add remove update_last_seen
apply saving (adding entry) r =
    let (r1, result) = add saving entry r in (r1, elim result [ done _ ↦ true | failed _ ↦ false ])
apply saving (removing id) r =
    let (r1, result) = remove saving id r in (r1, elim result [ done _ ↦ true | failed _ ↦ false ])
apply saving (seeing now id) r =
    let (r1, result) = update_last_seen saving now id r in
    (r1, elim result [ done _ ↦ true | failed _ ↦ false ])

-- Whom a change lets in, given whom the registry let in before.
unfoldable pub allows : Change → ℕ → Bool → Bool
allows (adding entry) a before = before || (entry.device_id == a)
allows (removing id) a before = if id == a then false else before
allows (seeing now id) a before = before

save-devices : (saving : Saving) (r : DeviceRegistry) → (save saving r).0.devices ≡ r.devices
unfolding save
save-devices saved r = refl
save-devices no_directory r = refl
save-devices write_failed r = refl
save-devices rename_failed r = refl

-- Each change authorizes exactly the devices that it should, for every device id: an added one, all
-- that were authorized before, and not a removed one, however many entries it had. This holds in
-- memory also when the file cannot be written.
pub is_authorized-apply :
    (saving : Saving) (change : Change) (a : ℕ) (r : DeviceRegistry)
    → is_authorized a (apply saving change r).0 ≡ allows change a (is_authorized a r)
unfolding is_authorized apply allows add remove update_last_seen
is_authorized-apply saving (adding entry) a r =
    ap (any_device a) (save-devices saving _) ∙ any_device-append a r.devices entry
is_authorized-apply saving (removing id) a r =
    let kept = retain_device id r.devices in
    elim (Bool-cases (ltb (length kept) (length r.devices))) [
      | inl fewer ↦
          rw fewer (ap (any_device a) (save-devices saving _) ∙ any_device-retain id a r.devices)
      | inr same ↦ rw same (any_device-retain id a r.devices)
    ]
is_authorized-apply saving (seeing now id) a r =
    ap (any_device a) (save-devices saving _) ∙ any_device-stamp now id a r.devices

-- The file holds what is in memory.
abbrev pub InStep : DeviceRegistry → Type 0
InStep r = (load r.disk).devices ≡ r.devices

saves :
    (saving : Saving) (devices : List DeviceEntry) (r : DeviceRegistry)
    → InStep r
    → let (t, result) = save saving (record r { devices = devices }) in
      (load t.disk).devices
      ≡ (if elim result [ done _ ↦ true | failed _ ↦ false ] then t.devices else r.devices)
unfolding save load
saves saved devices r h = refl
saves no_directory devices r h = h
saves write_failed devices r h = h
saves rename_failed devices r h = h

-- What a restart loads after a change of `r`.
abbrev pub Persisted : DeviceRegistry → DeviceRegistry × Bool → Type 0
Persisted r (t, fine) = (load t.disk).devices ≡ (if fine then t.devices else r.devices)

apply-removing :
    (saving : Saving) (id : ℕ) (r : DeviceRegistry)
    → ltb (length (retain_device id r.devices)) (length r.devices) ≡ true
    → let (t, result) = save saving (record r { devices = retain_device id r.devices }) in
      apply saving (removing id) r ≡ (t, elim result [ done _ ↦ true | failed _ ↦ false ])
unfolding apply remove save
apply-removing saved id r fewer = rw fewer refl
apply-removing no_directory id r fewer = rw fewer refl
apply-removing write_failed id r fewer = rw fewer refl
apply-removing rename_failed id r fewer = rw fewer refl

apply-removing_none :
    (saving : Saving) (id : ℕ) (r : DeviceRegistry)
    → ltb (length (retain_device id r.devices)) (length r.devices) ≡ false
    → apply saving (removing id) r ≡ (record r { devices = retain_device id r.devices }, true)
unfolding apply remove
apply-removing_none saving id r same = rw same refl

-- If the file holds what is in memory, then after any change a restart loads the new list if the
-- change returned no error, and the list from before if it returned one: a failed save, at whichever
-- step, leaves the file as it was.
pub load-apply :
    (saving : Saving) (change : Change) (r : DeviceRegistry)
    → InStep r
    → Persisted r (apply saving change r)
unfolding apply add update_last_seen
load-apply saving (adding entry) r h = saves saving (r.devices ++ entry ∷ []) r h
load-apply saving (removing id) r h =
    let kept = retain_device id r.devices in
    elim (Bool-cases (ltb (length kept) (length r.devices))) [
      | inl fewer ↦
          subst (Persisted r) (sym (apply-removing saving id r fewer)) (saves saving kept r h)
      | inr same ↦
          let unchanged : retain_device id r.devices ≡ r.devices =
            ground (arith, length-retain_device id r.devices) in
          subst (Persisted r) (sym (apply-removing_none saving id r same)) (h ∙ sym unchanged)
    ]
load-apply saving (seeing now id) r h = saves saving (stamp now id r.devices) r h
