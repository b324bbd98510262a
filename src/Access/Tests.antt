-- ===== src/Access/Tests.antt =====
-- A small database for services/api/src/nebula_api/provisioning/revocation.py, and the theorems
-- about it.
use vpn.Prelude.{ℕ, ◌+◌, ◌≡◌, ◌||◌, refl, none, some, [], ◌∷◌, map}
use vpn.Db.{
  AccountState, LifecycleState, ProvisioningState, User, VpnCredential, DeviceProtocolCredential,
  Db, find_credential,
}
use vpn.Access.Revocation.{of_device, revoke_device_credentials}
use vpn.Access.Revocation.Effects.{
  marked, points_at, revoked_record, map_option, revoke_device_credentials-rows,
}

-- User 1 has 30 bytes allowed and has device 11; user 2 is unmetered and has device 12.
abbrev pub alice : User
alice = record {
  id = 1;
  state = AccountState.active;
  expires_at = none;
  traffic_quota_bytes = some 30;
  password_hash = none;
  device_limit = 3;
  traffic_baseline_bytes = 0;
  quota_exhausted_at = none;
}

abbrev pub bob : User
bob = record alice { id = 2; traffic_quota_bytes = none }

abbrev credential : ℕ → ℕ → ProvisioningState → VpnCredential
credential id device_id state = record {
  id = id;
  device_id = device_id;
  vpn_server_id = 5;
  protocol_profile_id = 6;
  credential_id = id + 100;
  public_key = id + 200;
  state = state;
  updated_at = 0;
}

abbrev record_of : ℕ → ProvisioningState → DeviceProtocolCredential
record_of id state = record {
  id = id;
  state = state;
  ciphertext = id + 300;
  key_material_lost_at = none;
}

abbrev pub db : Db
db = record {
  users = alice ∷ bob ∷ [];
  devices =
      record {
        id = 11;
        user_id = 1;
        state = LifecycleState.active;
        hardware_hash = none;
        hardware_key_version = none;
      }
      ∷ record {
        id = 12;
        user_id = 2;
        state = LifecycleState.active;
        hardware_hash = none;
        hardware_key_version = none;
      }
      ∷ [];
  peers =
      credential 21 11 ProvisioningState.active
      ∷ credential 22 12 ProvisioningState.active
      ∷ credential 23 11 ProvisioningState.revoked
      ∷ [];
  clients = credential 31 11 ProvisioningState.applying ∷ [];
  credentials =
      record_of 121 ProvisioningState.active
      ∷ record_of 122 ProvisioningState.active
      ∷ record_of 131 ProvisioningState.active
      ∷ [];
  assignments = [];
  permissions = [];
  audit_logs = [];
}

revoke_two : (revoke_device_credentials 11 4 db).1 ≡ 2
unfolding revoke_device_credentials
revoke_two = refl

revoke_device_credentials-rows_example :
    let (db', count) = revoke_device_credentials 11 4 db in
    (db'.peers ≡ map (marked (of_device 11) 4) db.peers)
    × (db'.clients ≡ map (marked (of_device 11) 4) db.clients)
    × (find_credential 131 db'.credentials
        ≡ map_option
            (revoked_record
              (points_at 131 (of_device 11) db.peers || points_at 131 (of_device 11) db.clients))
            (find_credential 131 db.credentials))
    × (count ≡ 2)
revoke_device_credentials-rows_example = revoke_device_credentials-rows 11 4 131 db
