-- ===== src/Access/ExpiryTests.antt =====
-- A small database for services/api/src/nebula_api/access/expiry.py, and the theorems about it.
use vpn.Prelude.{false, ◌↔◌, ◌+◌, ◌≡◌, refl, ◌||◌, none, some, [], ◌∷◌, ◌++◌, map, contains}
use vpn.Db.{
  LifecycleState, ProvisioningState, CapabilityState, Device, VpnCredential, Db, find_credential,
}
use vpn.Access.Tests.{alice, db}
use vpn.Access.Revocation.Effects.{marked, points_at, count_selected, revoked_record, map_option}
use vpn.Access.Expiry.{
  has_assignment, has_permission, lapsed, bump, count_owners, lapse_events, enforce_access_expiry,
}
use vpn.Access.Expiry.Effects.{owns_lapsed}
use vpn.Access.Expiry.Grants.{IsGranted, lapsed_iff}
use vpn.Access.Expiry.Sweeps.{enforce_access_expiry-rows}

-- User 1 may use the server until 50, with a permission that does not end; user 2 may not.
abbrev granted_db : Db
granted_db = record db {
  assignments =
      record { user_id = 1; vpn_server_id = 5; state = LifecycleState.active; expires_at = some 50 }
      ∷ [];
  permissions =
      record {
        user_id = 1;
        protocol_profile_id = 6;
        state = CapabilityState.enabled;
        expires_at = none;
      }
      ∷ [];
}

abbrev device : Device
device = record {
  id = 11;
  user_id = 1;
  state = LifecycleState.active;
  hardware_hash = none;
  hardware_key_version = none;
}

abbrev peer : VpnCredential
peer = record {
  id = 21;
  device_id = 11;
  vpn_server_id = 5;
  protocol_profile_id = 6;
  credential_id = 121;
  public_key = 221;
  state = ProvisioningState.active;
  updated_at = 0;
}

takes_one :
    (enforce_access_expiry 40 granted_db).1
    ≡ record { credentials_revoked = 1; account_ids = 2 ∷ [] }
unfolding enforce_access_expiry count_owners bump lapsed has_assignment has_permission
takes_one = refl

takes_all :
    (enforce_access_expiry 50 granted_db).1
    ≡ record { credentials_revoked = 3; account_ids = 1 ∷ 2 ∷ [] }
unfolding enforce_access_expiry count_owners bump lapsed has_assignment has_permission
takes_all = refl

lapsed_iff_example : (lapsed 40 granted_db peer ≡ false) ↔ IsGranted 40 granted_db peer device alice
lapsed_iff_example = lapsed_iff 40 granted_db peer device alice refl refl refl

enforce_access_expiry-rows_example :
    let (db', summary) = enforce_access_expiry 40 granted_db in
    (db'.peers ≡ map (marked (lapsed 40 granted_db) 40) granted_db.peers)
    × (db'.clients ≡ map (marked (lapsed 40 granted_db) 40) granted_db.clients)
    × (find_credential 122 db'.credentials
        ≡ map_option
            (revoked_record (
              points_at 122 (lapsed 40 granted_db) granted_db.peers
              || points_at 122 (lapsed 40 granted_db) granted_db.clients))
            (find_credential 122 granted_db.credentials))
    × (summary.credentials_revoked
        ≡ count_selected (lapsed 40 granted_db) granted_db.peers
          + count_selected (lapsed 40 granted_db) granted_db.clients)
    × (contains 2 summary.account_ids
        ≡ owns_lapsed 40 granted_db 2 granted_db.peers
          || owns_lapsed 40 granted_db 2 granted_db.clients)
    × (db'.audit_logs ≡ granted_db.audit_logs ++ lapse_events summary.account_ids)
enforce_access_expiry-rows_example = enforce_access_expiry-rows 40 122 2 granted_db
