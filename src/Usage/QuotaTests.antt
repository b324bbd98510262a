-- ===== src/Usage/QuotaTests.antt =====
-- Allowances of services/api/src/nebula_api/usage at a small database, and the theorems about them.
use vpn.Prelude.{
  ℕ, ◌+◌, ◌≡◌, ◌↔◌, refl, Option, none, some, [], ◌∷◌, arith, true, false, ◌&&◌, if◌then◌else◌,
}
use vpn.Db.{Db, find_user}
use vpn.Access.Revocation.{revoke_device_credentials}
use vpn.Access.Tests.{alice, db}
use vpn.Usage.Ledger.{Table}
use vpn.Usage.Account.{
  AccountUsage, total_bytes, lifetime_bytes, remaining_bytes, is_exhausted, usage_for_user,
}
use vpn.Usage.Account.Attribution.{usage_for_user-revoke}
use vpn.Usage.Quota.{QuotaChange, grant_traffic_quota, grant_traffic_quota-fresh}
use vpn.Usage.Enforcement.{is_spent_by, sweep, cut_off, revoke_devices, enforce_traffic_quotas}
use vpn.Usage.Enforcement.Sweep.{exhausted_row, Dead}
use vpn.Usage.Enforcement.Once.{enforce_traffic_quotas-users, enforce_traffic_quotas-revokes}

-- Digests are the identities themselves, and every ciphertext decrypts to a number above it.
abbrev digest : ℕ → ℕ
digest k = k

abbrev decrypt : ℕ → ℕ → Option ℕ
decrypt id ciphertext = some (ciphertext + 1)

-- 20 bytes by the peer of device 11, and 15 by its Xray client.
abbrev totals : Table
totals =
    record {
      protocol = 1;
      identity = 221;
      rx_bytes = 12;
      tx_bytes = 8;
      last_rx_reading = 12;
      last_tx_reading = 8;
      last_collected_at = some 3;
      last_active_at = some 3;
      updated_at = 3;
    }
    ∷ record {
      protocol = 2;
      identity = 432;
      rx_bytes = 15;
      tx_bytes = 0;
      last_rx_reading = 15;
      last_tx_reading = 0;
      last_collected_at = some 3;
      last_active_at = some 3;
      updated_at = 3;
    }
    ∷ []

abbrev clock : ℕ → ℕ
clock u = u + 50

alice_used : total_bytes (usage_for_user digest decrypt 1 db totals) ≡ 35
unfolding usage_for_user
alice_used = refl

alice_is_cut_off :
    find_user 1 (enforce_traffic_quotas digest decrypt totals clock db).0.users
    ≡ some (record alice { quota_exhausted_at = some 51 })
unfolding enforce_traffic_quotas sweep cut_off revoke_devices revoke_device_credentials
    usage_for_user is_exhausted
alice_is_cut_off = refl

abbrev half_used : AccountUsage
half_used = record {
  rx_bytes = 70;
  tx_bytes = 30;
  quota_bytes = some 20;
  baseline_bytes = 80;
  exhausted_at = none;
}

usage_for_user-revoke_example :
    usage_for_user digest decrypt 1 (revoke_device_credentials 11 4 db).0 totals
    ≡ usage_for_user digest decrypt 1 db totals
usage_for_user-revoke_example = usage_for_user-revoke digest decrypt 1 11 4 db totals

grant_traffic_quota-fresh_example :
    let usage = λ (d : Db). usage_for_user digest decrypt 1 d totals in
    (change : QuotaChange) × (db' : Db) × (grant_traffic_quota digest decrypt 1 (some 500) db totals
      ≡ some (change, db'))
    × ((change.previous_bytes ≡ some 30)
        × (change.previous_used_bytes ≡ total_bytes (usage db))
        × (change.restored_access ≡ false))
    × ((total_bytes (usage db') ≡ 0)
        × (remaining_bytes (usage db') ≡ some 500)
        × ((is_exhausted (usage db') ≡ true) ↔ (◌≡◌ {A = Option ℕ} (some 500) (some 0))))
    × (lifetime_bytes (usage db') ≡ lifetime_bytes (usage db))
    × (find_user 2 db'.users ≡ find_user 2 db.users)
grant_traffic_quota-fresh_example =
    grant_traffic_quota-fresh digest decrypt 1 2 (some 500) db totals alice refl (omega arith)

enforce_traffic_quotas-users_example :
    find_user 1 (enforce_traffic_quotas digest decrypt totals clock db).0.users ≡ (
      if true && is_spent_by digest decrypt totals db 1
      then exhausted_row 51 (some alice)
      else some alice)
enforce_traffic_quotas-users_example =
    enforce_traffic_quotas-users digest decrypt totals clock 1 db (refl, (refl, tt))

enforce_traffic_quotas-revokes_example :
    Dead 11 (enforce_traffic_quotas digest decrypt totals clock db).0
unfolding usage_for_user is_exhausted
enforce_traffic_quotas-revokes_example =
    enforce_traffic_quotas-revokes digest decrypt totals clock 11 1 db alice (refl, (refl, tt)) refl
      refl refl refl
