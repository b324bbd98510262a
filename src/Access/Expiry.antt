-- ===== src/Access/Expiry.antt =====
-- `enforce_access_expiry` of services/api/src/nebula_api/access/expiry.py. The rows that
-- `_lapsed` selects depend on tables that the sweep does not write.
pub mod Effects
pub mod Sweeps
pub mod Grants
use vpn.Prelude.{
  ℕ, ◌+◌, Bool, true, false, not, ◌&&◌, ◌||◌, Option, none, some, List, [], ◌∷◌, ◌++◌, leb, ltb,
  ◌==◌, if◌then◌else◌,
}
use vpn.Db.{
  AccountState, LifecycleState, CapabilityState, User, Device, VpnCredential, UserServerAssignment,
  UserProtocolPermission, ReasonCode, AuditLog, Db, find_user, find_device,
}
use vpn.Access.Revocation.{is_live, revoke_rows}

pub record ExpirySummary : Type 0 where
  pub credentials_revoked : ℕ
  pub account_ids : List ℕ

abbrev pub is_active_account : AccountState → Bool
is_active_account AccountState.active = true
is_active_account AccountState.pending_activation = false
is_active_account AccountState.suspended = false
is_active_account AccountState.disabled = false

abbrev pub is_active : LifecycleState → Bool
is_active LifecycleState.active = true
is_active LifecycleState.revoked = false

abbrev pub is_revoked : LifecycleState → Bool
is_revoked LifecycleState.active = false
is_revoked LifecycleState.revoked = true

abbrev pub is_enabled : CapabilityState → Bool
is_enabled CapabilityState.enabled = true
is_enabled CapabilityState.disabled = false

-- `expires_at.is_(None) or expires_at > now`
abbrev pub lasts : ℕ → Option ℕ → Bool
lasts now none = true
lasts now (some at) = ltb now at

-- `expires_at.is_not(None) and expires_at <= now`
abbrev pub is_over : ℕ → Option ℕ → Bool
is_over now none = false
is_over now (some at) = leb at now

unfoldable pub has_assignment : ℕ → ℕ → ℕ → List UserServerAssignment → Bool
has_assignment now user_id server_id [] = false
has_assignment now user_id server_id (a ∷ rest) =
    ((a.user_id == user_id)
      && (a.vpn_server_id == server_id)
      && is_active a.state
      && lasts now a.expires_at)
    || has_assignment now user_id server_id rest

unfoldable pub has_permission : ℕ → ℕ → ℕ → List UserProtocolPermission → Bool
has_permission now user_id profile_id [] = false
has_permission now user_id profile_id (p ∷ rest) =
    ((p.user_id == user_id)
      && (p.protocol_profile_id == profile_id)
      && is_enabled p.state
      && lasts now p.expires_at)
    || has_permission now user_id profile_id rest

-- The disjunction of `_lapsed`, for a credential joined with its device and the device's user.
abbrev pub is_refused : ℕ → Db → VpnCredential → Device → User → Bool
is_refused now db row device user =
    not (is_active_account user.state)
    || is_over now user.expires_at
    || is_revoked device.state
    || not (has_assignment now user.id row.vpn_server_id db.assignments)
    || not (has_permission now user.id row.protocol_profile_id db.permissions)

abbrev pub refused_user : ℕ → Db → VpnCredential → Device → Option User → Bool
refused_user now db row device none = false
refused_user now db row device (some user) = is_refused now db row device user

-- The joins: a row without its device or its user is not selected.
abbrev pub refused_device : ℕ → Db → VpnCredential → Option Device → Bool
refused_device now db row none = false
refused_device now db row (some device) =
    refused_user now db row device (find_user device.user_id db.users)

-- `_lapsed`
unfoldable pub lapsed : ℕ → Db → VpnCredential → Bool
lapsed now db row =
    is_live row.state && refused_device now db row (find_device row.device_id db.devices)

abbrev pub owner_of : Option Device → ℕ
owner_of none = 0
owner_of (some device) = device.user_id

-- `revoked[user_id] = revoked.get(user_id, 0) + 1`, a dict in insertion order.
unfoldable pub bump : ℕ → List (ℕ × ℕ) → List (ℕ × ℕ)
bump k [] = (k, 1) ∷ []
bump k ((j, n) ∷ revoked) = if j == k then (j, n + 1) ∷ revoked else (j, n) ∷ bump k revoked

unfoldable pub count_owners : ℕ → Db → List VpnCredential → List (ℕ × ℕ) → List (ℕ × ℕ)
count_owners now db [] revoked = revoked
count_owners now db (row ∷ rows) revoked = count_owners now db rows (
    if lapsed now db row
    then bump (owner_of (find_device row.device_id db.devices)) revoked
    else revoked)

-- `sum(revoked.values())` and `list(revoked)`
abbrev pub total : List (ℕ × ℕ) → ℕ
total [] = 0
total ((k, n) ∷ revoked) = n + total revoked

abbrev pub accounts : List (ℕ × ℕ) → List ℕ
accounts [] = []
accounts ((k, n) ∷ revoked) = k ∷ accounts revoked

abbrev pub lapse_events : List ℕ → List AuditLog
lapse_events [] = []
lapse_events (k ∷ ks) =
    record { target_id = k; reason_code = ReasonCode.access_lapsed } ∷ lapse_events ks

-- `enforce_access_expiry`
unfoldable pub enforce_access_expiry : ℕ → Db → Db × ExpirySummary
enforce_access_expiry now db =
    let ps = revoke_rows (lapsed now db) now db.peers db.credentials in
    let cs = revoke_rows (lapsed now db) now db.clients ps.records in
    let revoked = count_owners now db db.clients (count_owners now db db.peers []) in
    (
      record db {
        peers = ps.rows;
        clients = cs.rows;
        credentials = cs.records;
        audit_logs = db.audit_logs ++ lapse_events (accounts revoked);
      },
      record { credentials_revoked = total revoked; account_ids = accounts revoked },
    )
