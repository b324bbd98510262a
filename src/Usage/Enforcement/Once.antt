-- ===== src/Usage/Enforcement/Once.antt =====
-- The whole of `enforce_traffic_quotas` in services/api/src/nebula_api/usage/enforcement.py: whom
-- it cuts off, and that a second sweep finds nothing to do.
use mathlib.Core.Path.{subst}
use vpn.Prelude.{
  ℕ, ◌≡◌, ◌∙◌, sym, refl, Bool, true, false, ◌&&◌, Option, some, List, [], ◌∷◌, contains,
  Option-cases, arith, if◌then◌else◌,
}
use vpn.Db.{User, Db, find_user}
use vpn.Usage.Ledger.{Table}
use vpn.Usage.Account.{devices_of}
use vpn.Usage.Enforcement.{is_spent_by, is_metered, metered, sweep, enforce_traffic_quotas}
use vpn.Usage.Enforcement.Sweep.{exhausted_row, Dead}
use vpn.Usage.Enforcement.Outcome.{
  user_ids, IsDistinct, row_is_metered, contains-metered, swept, find-sweep, spent-sweep,
  user_ids-sweep, sweep-Dead,
}

module _ (usage_digest : ℕ → ℕ) (decrypt : ℕ → ℕ → Option ℕ) (t : Table) where
  -- Each account after a sweep, where no two users share an id: one that was metered, not yet marked
  -- and spent is marked with the time of its turn, and every other account is as it was.
  pub enforce_traffic_quotas-users :
      (clock : ℕ → ℕ) (k : ℕ) (db : Db)
      → IsDistinct (user_ids db.users)
      → find_user k (enforce_traffic_quotas usage_digest decrypt t clock db).0.users ≡ (
          if row_is_metered (find_user k db.users) && is_spent_by usage_digest decrypt t db k
          then exhausted_row (clock k) (find_user k db.users)
          else find_user k db.users)
  unfolding enforce_traffic_quotas
  enforce_traffic_quotas-users clock k db h =
      rw
        (
          find-sweep usage_digest decrypt t clock k (metered db.users) db,
          contains-metered k db.users h,
        )
        refl

  -- Where no two users share an id, an account that was metered, not yet marked and spent has no live
  -- credential left on any of its devices after a sweep.
  pub enforce_traffic_quotas-revokes :
      (clock : ℕ → ℕ) (d k : ℕ) (db : Db) (user : User)
      → IsDistinct (user_ids db.users)
      → find_user k db.users ≡ some user
      → is_metered user ≡ true
      → is_spent_by usage_digest decrypt t db k ≡ true
      → contains d (devices_of k db.devices) ≡ true
      → Dead d (enforce_traffic_quotas usage_digest decrypt t clock db).0
  unfolding enforce_traffic_quotas
  enforce_traffic_quotas-revokes clock d k db user h e m s own =
      sweep-Dead usage_digest decrypt t clock d k (metered db.users) db user
        (contains-metered k db.users h ∙ (rw e m)) e (ground arith) s own

  sweep_nothing :
      (clock : ℕ → ℕ) (us : List ℕ) (db : Db)
      → ((k : ℕ) → contains k us ≡ true → is_spent_by usage_digest decrypt t db k ≡ false)
      → sweep usage_digest decrypt t clock us db ≡ (db, 0, [])
  unfolding sweep
  sweep_nothing clock [] db h = refl
  sweep_nothing clock (u ∷ us) db h =
      rw (h u (ground arith)) (rw (sweep_nothing clock us db (λ k c. h k (ground arith))))

  unspent_metered :
      (listed s : Bool) (now : ℕ) (o : Option User)
      → listed ≡ row_is_metered o
      → row_is_metered (if listed && s then exhausted_row now o else o) ≡ true
      → s ≡ false
  unspent_metered listed s now o e h = ground (arith, Option-cases o)

  -- Where no two users share an id, a second sweep over the same totals changes nothing and cuts off
  -- nobody.
  pub enforce_traffic_quotas-again :
      (clock later : ℕ → ℕ) (db : Db)
      → IsDistinct (user_ids db.users)
      → let db' = (enforce_traffic_quotas usage_digest decrypt t clock db).0 in
        let (db'', summary) = enforce_traffic_quotas usage_digest decrypt t later db' in
        (db'' ≡ db') × (summary.credentials_revoked ≡ 0) × (summary.account_ids ≡ [])
  unfolding enforce_traffic_quotas
  enforce_traffic_quotas-again clock later db h =
      let db' = swept usage_digest decrypt t clock (metered db.users) db in
      let ids = metered db.users in
      let h' = subst IsDistinct (sym (user_ids-sweep usage_digest decrypt t clock ids db)) h in
      let unspent : (k : ℕ)
          → contains k (metered db'.users) ≡ true
          → is_spent_by usage_digest decrypt t db' k ≡ false =
        λ k c.
          spent-sweep usage_digest decrypt t clock k ids db
          ∙ unspent_metered (contains k ids) (is_spent_by usage_digest decrypt t db k) (clock k)
              (find_user k db.users) (contains-metered k db.users h)
              (subst (λ o. row_is_metered o ≡ true)
                (find-sweep usage_digest decrypt t clock k ids db)
                (sym (contains-metered k db'.users h') ∙ c)) in
      let nothing = sweep_nothing later (metered db'.users) db' unspent in
      (rw nothing, rw nothing, rw nothing)
