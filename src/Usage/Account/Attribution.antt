-- ===== src/Usage/Account/Attribution.antt =====
-- Whose traffic is whose, under services/api/src/nebula_api/usage/service.py: what revoking does
-- not change, and what an allowance says.
use vpn.Prelude.{
  ℕ, ◌≡◌, ◌↔◌, refl, Bool, true, false, Option, none, some, List, [], ◌∷◌, ◌||◌, map, inl, inr,
  Bool-cases, Option-cases, arith,
}
use vpn.Db.{VpnCredential, DeviceProtocolCredential, Db, find_credential}
use vpn.Access.Revocation.{revoke_device_credentials, of_device}
use vpn.Access.Revocation.Effects.{
  revoke_others, marked, points_at, revoked_record, map_option, revoke_device_credentials-rows,
}
use vpn.Usage.Ledger.{Table}
use vpn.Usage.Account.{
  AccountUsage, remaining_bytes, is_exhausted, devices_of, peer_digests, client_digests,
  client_digest, digests_for_devices, usage_for_user,
}

-- An account is exhausted exactly when it has an allowance of which nothing remains; so an
-- unmetered account never is, and an allowance of zero always is.
pub exhausted_iff : (a : AccountUsage) → (is_exhausted a ≡ true) ↔ (remaining_bytes a ≡ some 0)
unfolding is_exhausted remaining_bytes
exhausted_iff a = ground (arith, Option-cases a.quota_bytes)

module _ (usage_digest : ℕ → ℕ) (decrypt : ℕ → ℕ → Option ℕ) where
  peer_digests-marked :
      (ids : List ℕ) (selected : VpnCredential → Bool) (now : ℕ) (peers : List VpnCredential)
      → peer_digests usage_digest decrypt ids (map (marked selected now) peers)
        ≡ peer_digests usage_digest decrypt ids peers
  unfolding peer_digests
  peer_digests-marked ids selected now [] = refl
  peer_digests-marked ids selected now (peer ∷ peers) = elim (Bool-cases (selected peer)) [
    | inl e ↦ rw (e, peer_digests-marked ids selected now peers)
    | inr e ↦ rw (e, peer_digests-marked ids selected now peers)
  ]

  client_digest-revoked :
      (b : Bool) (o : Option DeviceProtocolCredential) (rest : List ℕ)
      → client_digest usage_digest decrypt (map_option (revoked_record b) o) rest
        ≡ client_digest usage_digest decrypt o rest
  client_digest-revoked b none rest = refl
  client_digest-revoked true (some c) rest = refl
  client_digest-revoked false (some c) rest = refl

  client_digests-marked :
      (ids : List ℕ) (selected : VpnCredential → Bool) (now : ℕ)
      (records records' : List DeviceProtocolCredential)
      → (flag : ℕ → Bool)
      → ((k : ℕ)
          → find_credential k records'
            ≡ map_option (revoked_record (flag k)) (find_credential k records))
      → (clients : List VpnCredential)
      → client_digests usage_digest decrypt ids records' (map (marked selected now) clients)
        ≡ client_digests usage_digest decrypt ids records clients
  unfolding client_digests
  client_digests-marked ids selected now records records' flag same [] = refl
  client_digests-marked ids selected now records records' flag same (c ∷ clients) =
      elim (Bool-cases (selected c)) [
        | inl e ↦ rw (
          e,
          client_digests-marked ids selected now records records' flag same clients,
          same c.credential_id,
          client_digest-revoked (flag c.credential_id),
        )
        | inr e ↦ rw (
          e,
          client_digests-marked ids selected now records records' flag same clients,
          same c.credential_id,
          client_digest-revoked (flag c.credential_id),
        )
      ]

  pub digests-revoke :
      (ids : List ℕ) (d now : ℕ) (db : Db)
      → digests_for_devices usage_digest decrypt ids (revoke_device_credentials d now db).0
        ≡ digests_for_devices usage_digest decrypt ids db
  unfolding digests_for_devices
  digests-revoke ids d now db =
      let (p, c, _, _) = revoke_device_credentials-rows d now 0 db in
      let sel = of_device d in
      rw (
        p,
        c,
        peer_digests-marked ids sel now db.peers,
        client_digests-marked ids sel now db.credentials
            (revoke_device_credentials d now db).0.credentials
            (λ k. points_at k sel db.peers || points_at k sel db.clients)
            (λ k. (revoke_device_credentials-rows d now k db).2) db.clients,
      )

  -- Revoking a device's credentials changes no account's usage: the traffic of revoked credentials
  -- still counts.
  pub usage_for_user-revoke :
      (u d now : ℕ) (db : Db) (t : Table)
      → usage_for_user usage_digest decrypt u (revoke_device_credentials d now db).0 t
        ≡ usage_for_user usage_digest decrypt u db t
  unfolding usage_for_user
  usage_for_user-revoke u d now db t = rw (
    (revoke_others d now db).1,
    digests-revoke (devices_of u db.devices) d now db,
    (revoke_others d now db).0,
  )
