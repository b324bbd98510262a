-- ===== src/Usage/Account.antt =====
-- An account's use of its allowance: `AccountUsage` and `UsageService.usage_for_user` of
-- services/api/src/nebula_api/usage/service.py. SHA-256 and the decryption of a client's
-- credential are parameters.
pub mod Attribution
use vpn.Prelude.{
  ℕ, ◌+◌, ◌-◌, Bool, true, false, Option, none, some, List, [], ◌∷◌, ◌++◌, contains, leb, ◌==◌,
  if◌then◌else◌,
}
use vpn.Db.{User, Device, VpnCredential, DeviceProtocolCredential, Db, find_user, find_credential}
use vpn.Usage.Ledger.{CredentialUsage, Table}

pub record AccountUsage : Type 0 where
  pub rx_bytes : ℕ
  pub tx_bytes : ℕ
  pub quota_bytes : Option ℕ
  pub baseline_bytes : ℕ
  pub exhausted_at : Option ℕ

abbrev pub lifetime_bytes : AccountUsage → ℕ
lifetime_bytes a = a.rx_bytes + a.tx_bytes

-- `max(lifetime - baseline, 0)`: subtraction on ℕ stops at 0.
abbrev pub total_bytes : AccountUsage → ℕ
total_bytes a = lifetime_bytes a - a.baseline_bytes

-- Of a quota and a total.
abbrev pub left_of : Option ℕ → ℕ → Option ℕ
left_of none total = none
left_of (some quota) total = some (quota - total)

abbrev pub is_spent : Option ℕ → ℕ → Bool
is_spent none total = false
is_spent (some quota) total = leb quota total

unfoldable pub remaining_bytes : AccountUsage → Option ℕ
remaining_bytes a = left_of a.quota_bytes (total_bytes a)

unfoldable pub is_exhausted : AccountUsage → Bool
is_exhausted a = is_spent a.quota_bytes (total_bytes a)

-- `select(Device.id).where(Device.user_id == user_id)`
abbrev pub devices_of : ℕ → List Device → List ℕ
devices_of user_id [] = []
devices_of user_id (d ∷ devices) =
    if d.user_id == user_id then d.id ∷ devices_of user_id devices else devices_of user_id devices

-- `sum(row.rx_bytes for row in rows)` over the rows with one of the digests.
abbrev pub sum_rx : List ℕ → Table → ℕ
sum_rx digests [] = 0
sum_rx digests (row ∷ t) =
    if contains row.identity digests then row.rx_bytes + sum_rx digests t else sum_rx digests t

abbrev pub sum_tx : List ℕ → Table → ℕ
sum_tx digests [] = 0
sum_tx digests (row ∷ t) =
    if contains row.identity digests then row.tx_bytes + sum_tx digests t else sum_tx digests t

unfoldable pub account_usage : Option User → List ℕ → Table → AccountUsage
account_usage none digests t = record {
  rx_bytes = 0;
  tx_bytes = 0;
  quota_bytes = none;
  baseline_bytes = 0;
  exhausted_at = none;
}
account_usage (some user) digests t = record {
  rx_bytes = sum_rx digests t;
  tx_bytes = sum_tx digests t;
  quota_bytes = user.traffic_quota_bytes;
  baseline_bytes = user.traffic_baseline_bytes;
  exhausted_at = user.quota_exhausted_at;
}

-- `decrypt` answers `none` where decryption raises. It is given what a change of state leaves
-- alone: the record's id, and its stored ciphertext with key version, nonce and device.
module _ (usage_digest : ℕ → ℕ) (decrypt : ℕ → ℕ → Option ℕ) where
  unfoldable pub peer_digests : List ℕ → List VpnCredential → List ℕ
  peer_digests ids [] = []
  peer_digests ids (peer ∷ peers) =
      if contains peer.device_id ids
      then usage_digest peer.public_key ∷ peer_digests ids peers
      else peer_digests ids peers

  -- The digest of a decrypted secret, before those of the clients that follow.
  abbrev pub with_secret : Option ℕ → List ℕ → List ℕ
  with_secret none digests = digests
  with_secret (some uuid) digests = usage_digest uuid ∷ digests

  -- One turn of the loop over the clients, by its credential record.
  abbrev pub client_digest : Option DeviceProtocolCredential → List ℕ → List ℕ
  client_digest none digests = digests
  client_digest (some c) digests = elim c.key_material_lost_at [
    | none ↦ with_secret (decrypt c.id c.ciphertext) digests
    | some lost ↦ digests
  ]

  unfoldable pub client_digests :
      List ℕ → List DeviceProtocolCredential → List VpnCredential → List ℕ
  client_digests ids records [] = []
  client_digests ids records (client ∷ clients) =
      let rest = client_digests ids records clients in
      if contains client.device_id ids
      then client_digest (find_credential client.credential_id records) rest
      else rest

  -- `_digests_for_devices`, less the devices that own the digests.
  unfoldable pub digests_for_devices : List ℕ → Db → List ℕ
  unfolding peer_digests client_digests
  digests_for_devices ids db =
      peer_digests ids db.peers ++ client_digests ids db.credentials db.clients

  -- `usage_for_user`
  unfoldable pub usage_for_user : ℕ → Db → Table → AccountUsage
  unfolding digests_for_devices account_usage
  usage_for_user user_id db t =
      account_usage (find_user user_id db.users)
        (digests_for_devices (devices_of user_id db.devices) db) t
