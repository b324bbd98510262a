-- ===== src/Usage/Quota.antt =====
-- Granting an allowance: `grant_traffic_quota` of
-- services/api/src/nebula_api/usage/quota.py.
use vpn.Prelude.{
  ℕ, ◌+◌, ◌≡◌, ◌≢◌, ◌↔◌, refl, sym, Bool, true, Option, none, some, List, is_some, arith,
}
use mathlib.Core.Path.{subst}
use vpn.Db.{User, Db, find_user, put_user, find-put_user, find_user_id}
use vpn.Usage.Ledger.{Table}
use vpn.Usage.Account.{
  AccountUsage, lifetime_bytes, total_bytes, remaining_bytes, is_exhausted, sum_rx, sum_tx,
  devices_of, digests_for_devices, account_usage, usage_for_user,
}

-- The address of the account is left out.
pub record QuotaChange : Type 0 where
  pub user_id : ℕ
  pub previous_bytes : Option ℕ
  pub quota_bytes : Option ℕ
  pub previous_used_bytes : ℕ
  pub restored_access : Bool

abbrev pub granted : Option ℕ → ℕ → User → User
granted quota baseline user = record user {
  traffic_quota_bytes = quota;
  traffic_baseline_bytes = baseline;
  quota_exhausted_at = none;
}

abbrev pub change_of : Option ℕ → ℕ → User → QuotaChange
change_of quota used user = record {
  user_id = user.id;
  previous_bytes = user.traffic_quota_bytes;
  quota_bytes = quota;
  previous_used_bytes = used;
  restored_access = is_some user.quota_exhausted_at;
}

-- The write transaction, by the user that it locks; `none` is `UserNotFound`.
unfoldable pub grant_locked : Option ℕ → AccountUsage → Option User → Db → Option (QuotaChange × Db)
grant_locked quota before none db = none
grant_locked quota before (some user) db = some (
  change_of quota (total_bytes before) user,
  record db { users = put_user (granted quota (lifetime_bytes before) user) db.users },
)

-- An account whose baseline is its lifetime total.
fresh_allowance :
    (quota : Option ℕ) (user : User) (ds : List ℕ) (t : Table)
    → let a = account_usage (some (granted quota (sum_rx ds t + sum_tx ds t) user)) ds t in
      (total_bytes a ≡ 0)
      × (remaining_bytes a ≡ quota)
      × ((is_exhausted a ≡ true) ↔ (quota ≡ some 0))
unfolding account_usage remaining_bytes is_exhausted
fresh_allowance none user ds t = (omega arith, refl, (λ h. cc, λ h. cc))
fresh_allowance (some q) user ds t =
    (omega arith, ground arith, (λ h. ground arith, λ h. ground arith))

module _ (usage_digest : ℕ → ℕ) (decrypt : ℕ → ℕ → Option ℕ) where
  -- `grant_traffic_quota`, with the usage read before the user is locked.
  unfoldable pub grant_traffic_quota : ℕ → Option ℕ → Db → Table → Option (QuotaChange × Db)
  unfolding grant_locked
  grant_traffic_quota user_id quota db t =
      grant_locked quota (usage_for_user usage_digest decrypt user_id db t)
        (find_user user_id db.users) db

  -- What a grant does to an account that exists: the old figures are reported, nothing of the new
  -- allowance is used and all of it remains, the account is exhausted exactly when the allowance is
  -- zero, its lifetime total is what it was, and every other account is as it was.
  pub grant_traffic_quota-fresh :
      (u k : ℕ) (quota : Option ℕ) (db : Db) (t : Table) (user : User)
      → find_user u db.users ≡ some user
      → u ≢ k
      → let usage = λ (d : Db). usage_for_user usage_digest decrypt u d t in
        (change : QuotaChange) × (db' : Db) × (grant_traffic_quota u quota db t
          ≡ some (change, db'))
        × ((change.previous_bytes ≡ user.traffic_quota_bytes)
            × (change.previous_used_bytes ≡ total_bytes (usage db))
            × (change.restored_access ≡ is_some user.quota_exhausted_at))
        × ((total_bytes (usage db') ≡ 0)
            × (remaining_bytes (usage db') ≡ quota)
            × ((is_exhausted (usage db') ≡ true) ↔ (quota ≡ some 0)))
        × (lifetime_bytes (usage db') ≡ lifetime_bytes (usage db))
        × (find_user k db'.users ≡ find_user k db.users)
  unfolding grant_traffic_quota usage_for_user
  grant_traffic_quota-fresh u k quota db t user h ne =
      let ds = digests_for_devices usage_digest decrypt (devices_of u db.devices) db in
      let id_eq = find_user_id u db.users h in
      let own : find_user user.id db.users ≡ some user =
        subst (λ j. find_user j db.users ≡ some user) (sym id_eq) h in
      let new = granted quota (sum_rx ds t + sum_tx ds t) user in
      let found : find_user u (put_user new db.users) ≡ some new =
        ground (arith, find-put_user u new db.users own) in
      let others : find_user k (put_user new db.users) ≡ find_user k db.users =
        ground (arith, find-put_user k new db.users own) in
      (
        change_of quota (total_bytes (usage_for_user usage_digest decrypt u db t)) user,
        record db { users = put_user new db.users },
        rw h,
        (refl, refl, refl),
        rw found (fresh_allowance quota user ds t),
        rw (found, h) refl,
        others,
      )
