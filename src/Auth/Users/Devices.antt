-- ===== src/Auth/Users/Devices.antt =====
-- The device of a sign-in: `_resolve_device`, `_backfill_hardware` and `_reuse_by_hardware` of
-- services/api/src/nebula_api/auth/user_service.py, with auth/device_identity.py. The name, the
-- platform and the client's version, which are only written, are left out.
use vpn.Prelude.{
  ℕ, suc, Bool, true, false, not, ◌&&◌, Option, none, some, List, [], ◌∷◌, ◌++◌, map, leb, ◌==◌,
  is_some, if◌then◌else◌,
}
use vpn.Db.{LifecycleState, User, Device}
use vpn.Auth.Users.{AuthDb, EventCode, Reason, is_active}
use vpn.Auth.Users.Refresh.{add_audit, denied}

-- `Device.user_id == user.id, Device.state == LifecycleState.ACTIVE`
abbrev pub is_active_of : ℕ → Device → Bool
is_active_of user_id device = (device.user_id == user_id) && is_active device.state

-- `select(func.count())` of them.
abbrev pub active_devices : ℕ → List Device → ℕ
active_devices user_id [] = 0
active_devices user_id (device ∷ devices) =
    let rest = active_devices user_id devices in
    if is_active_of user_id device then suc rest else rest

abbrev pub find_owned : ℕ → ℕ → List Device → Option Device
find_owned device_id user_id [] = none
find_owned device_id user_id (device ∷ devices) =
    if (device.id == device_id) && (device.user_id == user_id)
    then some device
    else find_owned device_id user_id devices

abbrev pub has_hash : ℕ → Option ℕ → Bool
has_hash digest none = false
has_hash digest (some stored) = stored == digest

-- `taken`: another active device of the account with the hash.
abbrev pub is_taken : ℕ → ℕ → ℕ → List Device → Bool
is_taken user_id device_id digest [] = false
is_taken user_id device_id digest (device ∷ devices) =
    let rest = is_taken user_id device_id digest devices in
    if is_active_of user_id device
      && has_hash digest device.hardware_hash
      && not (device.id == device_id)
    then true
    else rest

abbrev pub with_hardware : ℕ → ℕ × ℕ → Device → Device
with_hardware device_id (version, digest) device =
    if device.id == device_id
    then record device { hardware_hash = some digest; hardware_key_version = some version }
    else device

abbrev pub set_devices : List Device → AuthDb → AuthDb
set_devices devices db = record db { tables = record db.tables { devices = devices } }

-- How the choice of a device ends: with the device's id, with `DeviceLimitReached`, or with the
-- `KeyError` of a key ring without the configured version.
pub data Resolved : Type 0 where
  resolved : ℕ → Resolved
  limit_reached no_key : Resolved

module _ (hmac : ℕ → ℕ → ℕ) (token_peppers : ℕ → Option ℕ) (token_key_version : ℕ) where
  abbrev pub hashed : ℕ → Option ℕ → Option (ℕ × ℕ)
  hashed hardware_id none = none
  hashed hardware_id (some key) = some (token_key_version, hmac key hardware_id)

  -- `hash_hardware_id`
  unfoldable pub hash_hardware_id : ℕ → Option (ℕ × ℕ)
  hash_hardware_id hardware_id = hashed hardware_id (token_peppers token_key_version)

  abbrev pub key_matches : ℕ → ℕ → Option ℕ → Bool
  key_matches hardware_id stored_hash none = false
  key_matches hardware_id stored_hash (some key) = hmac key hardware_id == stored_hash

  -- `hardware_id_matches`, false where the device has no hash or no version.
  abbrev pub hardware_id_matches : ℕ → Option ℕ → Option ℕ → Bool
  hardware_id_matches hardware_id none version = false
  hardware_id_matches hardware_id (some stored_hash) none = false
  hardware_id_matches hardware_id (some stored_hash) (some version) =
      key_matches hardware_id stored_hash (token_peppers version)

  -- `_reuse_by_hardware`
  abbrev pub reuse_by_hardware : ℕ → ℕ → List Device → Option ℕ
  reuse_by_hardware user_id hardware_id [] = none
  reuse_by_hardware user_id hardware_id (device ∷ devices) =
      if is_active_of user_id device
        && hardware_id_matches hardware_id device.hardware_hash device.hardware_key_version
      then some device.id
      else reuse_by_hardware user_id hardware_id devices

  abbrev pub backfill_hashed : ℕ → Device → Option (ℕ × ℕ) → AuthDb → Resolved × AuthDb
  backfill_hashed user_id device none db = (no_key, db)
  backfill_hashed user_id device (some hash) db =
      let devices = db.tables.devices in
      if is_taken user_id device.id hash.1 devices
      then (resolved device.id, db)
      else (resolved device.id, set_devices (map (with_hardware device.id hash) devices) db)

  -- `_backfill_hardware`, where there is a hardware id and the device has no hash.
  abbrev pub backfill_hardware : ℕ → Device → Option ℕ → AuthDb → Resolved × AuthDb
  backfill_hardware user_id device none db = (resolved device.id, db)
  backfill_hardware user_id device (some hardware_id) db =
      if is_some device.hardware_hash
      then (resolved device.id, db)
      else backfill_hashed user_id device (hash_hardware_id hardware_id) db

  abbrev pub new_device : ℕ → ℕ → Option (ℕ × ℕ) → Device
  new_device id user_id none = record {
    id = id;
    user_id = user_id;
    state = LifecycleState.active;
    hardware_hash = none;
    hardware_key_version = none;
  }
  new_device id user_id (some (version, digest)) = record {
    id = id;
    user_id = user_id;
    state = LifecycleState.active;
    hardware_hash = some digest;
    hardware_key_version = some version;
  }

  abbrev pub add_device : Device → AuthDb → Resolved × AuthDb
  add_device device db = (resolved device.id, set_devices (db.tables.devices ++ (device ∷ [])) db)

  abbrev pub add_hashed : ℕ → ℕ → Option (ℕ × ℕ) → AuthDb → Resolved × AuthDb
  add_hashed id user_id none db = (no_key, db)
  add_hashed id user_id (some hash) db = add_device (new_device id user_id (some hash)) db

  abbrev pub add_for : ℕ → ℕ → Option ℕ → AuthDb → Resolved × AuthDb
  add_for id user_id none db = add_device (new_device id user_id none) db
  add_for id user_id (some hardware_id) db = add_hashed id user_id (hash_hardware_id hardware_id) db

  -- The registration of a device under the account's limit.
  abbrev pub register : User → ℕ → Option ℕ → AuthDb → Resolved × AuthDb
  register user id hardware_id db =
      if leb user.device_limit (active_devices user.id db.tables.devices)
      then (
        limit_reached,
        add_audit
            (denied (some user.id) user.id EventCode.user_authenticated Reason.device_limit_reached)
            db,
      )
      else add_for id user.id hardware_id db

  abbrev pub reuse_or : Option ℕ → User → ℕ → Option ℕ → AuthDb → Resolved × AuthDb
  reuse_or (some device_id) user id hardware_id db = (resolved device_id, db)
  reuse_or none user id hardware_id db = register user id hardware_id db

  abbrev pub by_hardware : User → ℕ → Option ℕ → AuthDb → Resolved × AuthDb
  by_hardware user id none db = register user id none db
  by_hardware user id (some hardware_id) db =
      reuse_or (reuse_by_hardware user.id hardware_id db.tables.devices) user id (some hardware_id)
        db

  abbrev pub by_device : Option Device → User → ℕ → Option ℕ → AuthDb → Resolved × AuthDb
  by_device none user id hardware_id db = by_hardware user id hardware_id db
  by_device (some device) user id hardware_id db =
      if is_active device.state
      then backfill_hardware user.id device hardware_id db
      else by_hardware user id hardware_id db

  -- `_resolve_device`, with the id of a device that it may register.
  unfoldable pub resolve_device : User → Option ℕ → ℕ → Option ℕ → AuthDb → Resolved × AuthDb
  resolve_device user none id hardware_id db = by_hardware user id hardware_id db
  resolve_device user (some device_id) id hardware_id db =
      by_device (find_owned device_id user.id db.tables.devices) user id hardware_id db
