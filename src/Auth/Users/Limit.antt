-- ===== src/Auth/Users/Limit.antt =====
-- The limit on an account's devices, at the sign-in of
-- services/api/src/nebula_api/auth/user_service.py.
use vpn.Prelude.{
  ℕ, ◌+◌, ◌≤◌, ◌≡◌, refl, ap, Bool, true, false, ◌&&◌, Option, none, some, List, [], ◌∷◌, ◌++◌, map,
  inl, inr, Bool-cases, Option-cases, arith, leb, ◌==◌, is_some, if◌then◌else◌,
}
use Prim.Native.Nat.{max}
use vpn.Db.{User, Device}
use vpn.Auth.Redis.{Reply, replied, invalid, unavailable}
use vpn.Auth.Users.{AuthDb, is_active, user_can_authenticate}
use vpn.Auth.Users.Revoke.{revoke_active_device_sessions}
use vpn.Auth.Users.Devices.{
  is_active_of, active_devices, find_owned, is_taken, with_hardware, Resolved, resolved,
  limit_reached, no_key, hash_hardware_id, backfill_hardware, new_device, set_devices, register,
  reuse_by_hardware, by_hardware, resolve_device,
}
use vpn.Auth.Users.Login.{open_session, only_expired, rehash, Fresh, with_device, login}

active_devices-append :
    (j : ℕ) (devices : List Device) (device : Device)
    → active_devices j (devices ++ (device ∷ []))
      ≡ active_devices j devices + (if is_active_of j device then 1 else 0)
active_devices-append j [] device = ground arith
active_devices-append j (d ∷ devices) device =
    ground (arith, active_devices-append j devices device)

active_devices-with_hardware :
    (j id version digest : ℕ) (devices : List Device)
    → active_devices j (map (with_hardware id (version, digest)) devices) ≡ active_devices j devices
active_devices-with_hardware j id version digest [] = refl
active_devices-with_hardware j id version digest (d ∷ devices) =
    ground (arith, active_devices-with_hardware j id version digest devices)

-- The devices of an account with an id afterwards, by those before.
abbrev IsBounded : ℕ → User → AuthDb → AuthDb → Type 0
IsBounded j user before after = active_devices j after.tables.devices ≤ (
    if user.id == j
    then max (active_devices j before.tables.devices) user.device_limit
    else active_devices j before.tables.devices)

same :
    (j : ℕ) (user : User) (before after : AuthDb)
    → active_devices j after.tables.devices ≡ active_devices j before.tables.devices
    → IsBounded j user before after
same j user before after h = ground arith

added :
    (j : ℕ) (user : User) (device : Device) (before : AuthDb)
    → device.user_id ≡ user.id
    → leb user.device_limit (active_devices user.id before.tables.devices) ≡ false
    → IsBounded j user before (set_devices (before.tables.devices ++ (device ∷ [])) before)
added j user device before owner room =
    let devices = before.tables.devices in
    let total = active_devices-append j devices device in
    elim (Bool-cases (user.id == j)) [
      | inl mine ↦
          let e : user.id ≡ j = ground arith in
          let same_count : active_devices user.id devices ≡ active_devices j devices =
            ap (λ i. active_devices i devices) e in
          rw mine (ground (arith, total, same_count))
      | inr other ↦ rw other (ground (arith, total))
    ]

module _ (hmac : ℕ → ℕ → ℕ) (token_peppers : ℕ → Option ℕ)
    (token_key_version refresh_token_ttl_days : ℕ) where
  register-IsBounded :
      (j id : ℕ) (user : User) (hardware_id : Option ℕ) (db : AuthDb)
      → IsBounded j user db (register hmac token_peppers token_key_version user id hardware_id db).1
  register-IsBounded j id user none db =
      elim (Bool-cases (leb user.device_limit (active_devices user.id db.tables.devices))) [
        | inl full ↦ rw full (same j user db db refl)
        | inr room ↦ rw room (
            added j user (new_device hmac token_peppers token_key_version id user.id none) db refl
              room)
      ]
  register-IsBounded j id user (some hardware_id) db =
      elim (Bool-cases (leb user.device_limit (active_devices user.id db.tables.devices))) [
        | inl full ↦ rw full (same j user db db refl)
        | inr room ↦
            elim (Option-cases
              (hash_hardware_id hmac token_peppers token_key_version hardware_id)) [
                | inl unknown ↦ rw (room, unknown) (same j user db db refl)
                | inr (hash, known) ↦
                    rw (room, known)
                      (added j user
                        (new_device hmac token_peppers token_key_version id user.id (some hash)) db
                        refl room)
              ]
      ]

  by_hardware-IsBounded :
      (j id : ℕ) (user : User) (hardware_id : Option ℕ) (db : AuthDb)
      → IsBounded j user db
          (by_hardware hmac token_peppers token_key_version user id hardware_id db).1
  by_hardware-IsBounded j id user none db = register-IsBounded j id user none db
  by_hardware-IsBounded j id user (some hardware_id) db =
      elim (Option-cases (
        reuse_by_hardware hmac token_peppers token_key_version user.id hardware_id
          db.tables.devices)) [
            | inl unknown ↦ rw unknown (register-IsBounded j id user (some hardware_id) db)
            | inr (device_id, known) ↦ rw known (same j user db db refl)
          ]

  backfill_hardware-IsBounded :
      (j : ℕ) (user : User) (device : Device) (hardware_id : Option ℕ) (db : AuthDb)
      → IsBounded j user db
          (backfill_hardware hmac token_peppers token_key_version user.id device hardware_id db).1
  backfill_hardware-IsBounded j user device none db = same j user db db refl
  backfill_hardware-IsBounded j user device (some hardware_id) db =
      elim (Bool-cases (is_some device.hardware_hash)) [
        | inl there ↦ rw there (same j user db db refl)
        | inr absent ↦
            elim (Option-cases
              (hash_hardware_id hmac token_peppers token_key_version hardware_id)) [
                | inl unknown ↦ rw (absent, unknown) (same j user db db refl)
                | inr ((version, digest), known) ↦
                    elim (Bool-cases (is_taken user.id device.id digest db.tables.devices)) [
                      | inl taken ↦ rw (absent, known, taken) (same j user db db refl)
                      | inr free ↦
                          rw (absent, known, free)
                            (same j user db
                              (set_devices
                                (map (with_hardware device.id (version, digest)) db.tables.devices)
                                db)
                              (active_devices-with_hardware j device.id version digest
                                db.tables.devices))
                    ]
              ]
      ]

  resolve_device-IsBounded :
      (j id : ℕ) (user : User) (device_id hardware_id : Option ℕ) (db : AuthDb)
      → IsBounded j user db
          (resolve_device hmac token_peppers token_key_version user device_id id hardware_id db).1
  unfolding resolve_device
  resolve_device-IsBounded j id user none hardware_id db =
      by_hardware-IsBounded j id user hardware_id db
  resolve_device-IsBounded j id user (some device_id) hardware_id db =
      elim (Option-cases (find_owned device_id user.id db.tables.devices)) [
        | inl unknown ↦ rw unknown (by_hardware-IsBounded j id user hardware_id db)
        | inr (device, known) ↦ elim (Bool-cases (is_active device.state)) [
          | inl live ↦ rw (known, live) (backfill_hardware-IsBounded j user device hardware_id db)
          | inr gone ↦ rw (known, gone) (by_hardware-IsBounded j id user hardware_id db)
        ]
      ]

  with_device-IsBounded :
      (j now : ℕ) (user : User) (fresh : Fresh) (before : AuthDb) (r : Resolved) (db : AuthDb)
      → IsBounded j user before db
      → IsBounded j user before
          (with_device hmac token_peppers token_key_version refresh_token_ttl_days user fresh now
            before
            (r, db)).1
  unfolding open_session revoke_active_device_sessions
  with_device-IsBounded j now user fresh before limit_reached db h = h
  with_device-IsBounded j now user fresh before no_key db h = same j user before before refl
  with_device-IsBounded j now user fresh before (resolved device_id) db h = h

  -- A sign-in of a user, however it ends, registers a device only below the account's limit: no
  -- account has more active devices afterwards than it had, except the user's own, which has no more
  -- than its limit or than it had already.
  pub login-limit :
      (j request_id now : ℕ) (by_account by_network : Reply Bool) (user : User)
      (password_valid : Bool) (rehashed device_id hardware_id : Option ℕ) (fresh : Fresh)
      (db : AuthDb)
      → let after =
          (login hmac token_peppers token_key_version refresh_token_ttl_days by_account by_network
            (some user)
            password_valid
            rehashed
            device_id
            hardware_id
            fresh
            request_id
            now
            db).1 in
        active_devices j after.tables.devices ≤ (
          if user.id == j
          then max (active_devices j db.tables.devices) user.device_limit
          else active_devices j db.tables.devices)
  unfolding login
  login-limit j request_id now (replied false) by_network user password_valid rehashed device_id
        hardware_id fresh db =
      same j user db db refl
  login-limit j request_id now invalid by_network user password_valid rehashed device_id hardware_id
        fresh db =
      same j user db db refl
  login-limit j request_id now unavailable by_network user password_valid rehashed device_id
        hardware_id fresh db =
      same j user db db refl
  login-limit j request_id now (replied true) (replied false) user password_valid rehashed device_id
        hardware_id fresh db =
      same j user db db refl
  login-limit j request_id now (replied true) invalid user password_valid rehashed device_id
        hardware_id fresh db =
      same j user db db refl
  login-limit j request_id now (replied true) unavailable user password_valid rehashed device_id
        hardware_id fresh db =
      same j user db db refl
  login-limit j request_id now (replied true) (replied true) user password_valid rehashed device_id
        hardware_id fresh db =
      elim (Bool-cases (password_valid && only_expired user now)) [
        | inl expired ↦ rw expired (same j user db db refl)
        | inr current ↦ elim (Bool-cases (password_valid && user_can_authenticate user now)) [
          | inr refused ↦ rw (current, refused) (same j user db db refl)
          | inl allowed ↦ rw (current, allowed) (signed_in rehashed)
        ]
      ]
    where
      signed_in :
          (o : Option ℕ)
          → IsBounded j user db
              (with_device hmac token_peppers token_key_version refresh_token_ttl_days user fresh
                now db
                (resolve_device hmac token_peppers token_key_version user device_id fresh.device_id
                  hardware_id
                  (rehash o user db))).1
      signed_in none =
          let ran =
            resolve_device hmac token_peppers token_key_version user device_id fresh.device_id
              hardware_id db in
          with_device-IsBounded j now user fresh db ran.0 ran.1
            (resolve_device-IsBounded j fresh.device_id user device_id hardware_id db)
      signed_in (some new_hash) =
          let db' = rehash (some new_hash) user db in
          let ran =
            resolve_device hmac token_peppers token_key_version user device_id fresh.device_id
              hardware_id db' in
          with_device-IsBounded j now user fresh db ran.0 ran.1
            (resolve_device-IsBounded j fresh.device_id user device_id hardware_id db')
