-- ===== src/Usage/Enforcement.antt =====
-- Cutting off accounts that have spent their allowance: `enforce_traffic_quotas` of
-- services/api/src/nebula_api/usage/enforcement.py. The totals are those of one table throughout.
pub mod Sweep
pub mod Outcome
pub mod Once
use vpn.Prelude.{
  ℕ, ◌+◌, Bool, true, false, not, ◌&&◌, Option, none, some, List, [], ◌∷◌, ◌++◌, length, is_some,
  ◌==◌, if◌then◌else◌,
}
use vpn.Db.{User, ReasonCode, AuditLog, Db, find_user, put_user}
use vpn.Access.Revocation.{revoke_device_credentials}
use vpn.Usage.Ledger.{Table}
use vpn.Usage.Account.{is_exhausted, devices_of, usage_for_user}

pub record EnforcementSummary : Type 0 where
  pub accounts_checked : ℕ
  pub credentials_revoked : ℕ
  pub already_enforced : ℕ
  pub account_ids : List ℕ

abbrev pub is_metered : User → Bool
is_metered user = is_some user.traffic_quota_bytes && not (is_some user.quota_exhausted_at)

-- The ids of the metered accounts that are not marked.
abbrev pub metered : List User → List ℕ
metered [] = []
metered (u ∷ users) = if is_metered u then u.id ∷ metered users else metered users

abbrev pub count_marked : List User → ℕ
count_marked [] = 0
count_marked (u ∷ users) =
    if is_some u.traffic_quota_bytes && is_some u.quota_exhausted_at
    then count_marked users + 1
    else count_marked users

-- `for device_id in device_ids`
unfoldable pub revoke_devices : List ℕ → ℕ → Db → Db × ℕ
revoke_devices [] now db = (db, 0)
revoke_devices (d ∷ ds) now db =
    let (db', n) = revoke_device_credentials d now db in
    let (db'', m) = revoke_devices ds now db' in (db'', n + m)

abbrev pub exhaust : ℕ → User → User
exhaust now user = record user { quota_exhausted_at = some now }

-- The rest of the transaction of `_cut_off`, for a user that is not yet marked.
abbrev pub mark_exhausted : ℕ → ℕ → User → Db → Db
mark_exhausted user_id now user db = record db {
  users = put_user (exhaust now user) db.users;
  audit_logs =
      db.audit_logs
      ++ record { target_id = user_id; reason_code = ReasonCode.traffic_quota_exhausted } ∷ [];
}

unfoldable pub cut_off_locked : ℕ → ℕ → Option User → Db → Db × ℕ
cut_off_locked user_id now none db = (db, 0)
cut_off_locked user_id now (some user) db =
    if is_some user.quota_exhausted_at
    then (db, 0)
    else let (db', n) = revoke_devices (devices_of user_id db.devices) now db in
      (mark_exhausted user_id now user db', n)

-- `_cut_off`
unfoldable pub cut_off : ℕ → ℕ → Db → Db × ℕ
unfolding cut_off_locked
cut_off user_id now db = cut_off_locked user_id now (find_user user_id db.users) db

module _ (usage_digest : ℕ → ℕ) (decrypt : ℕ → ℕ → Option ℕ) (t : Table) where
  abbrev pub is_spent_by : Db → ℕ → Bool
  is_spent_by db u = is_exhausted (usage_for_user usage_digest decrypt u db t)

  -- The loop over the metered accounts. `clock u` is the time at which `u` is cut off.
  unfoldable pub sweep : (ℕ → ℕ) → List ℕ → Db → Db × ℕ × List ℕ
  sweep clock [] db = (db, 0, [])
  sweep clock (u ∷ us) db =
      let (cut, n) = cut_off u (clock u) db in
      let (db', m, ids) = sweep clock us (if is_spent_by db u then cut else db) in
      if is_spent_by db u then (db', n + m, u ∷ ids) else (db', m, ids)

  -- `enforce_traffic_quotas`
  unfoldable pub enforce_traffic_quotas : (ℕ → ℕ) → Db → Db × EnforcementSummary
  enforce_traffic_quotas clock db =
      let (db', revoked, ids) = sweep clock (metered db.users) db in
      (
        db',
        record {
          accounts_checked = length (metered db.users);
          credentials_revoked = revoked;
          already_enforced = count_marked db.users;
          account_ids = ids;
        },
      )
