-- ===== src/Access/Revocation.antt =====
-- `revoke_device_credentials` of services/api/src/nebula_api/provisioning/revocation.py. A query
-- with its loop is one walk over the table's rows.
pub mod Effects
use vpn.Prelude.{
  ℕ, suc, ◌+◌, ◌≡◌, refl, Bool, true, false, ◌&&◌, ◌||◌, List, [], ◌∷◌, Option, none, some, arith,
  ◌==◌, if◌then◌else◌,
}
use vpn.Db.{ProvisioningState, VpnCredential, DeviceProtocolCredential, Db, find_credential}

-- `state.in_(_LIVE_CREDENTIAL_STATES)`
abbrev pub is_live : ProvisioningState → Bool
is_live ProvisioningState.requested = true
is_live ProvisioningState.applying = true
is_live ProvisioningState.active = true
is_live ProvisioningState.revoking = false
is_live ProvisioningState.revoked = false
is_live ProvisioningState.failed = false

abbrev pub is_revoking : ProvisioningState → Bool
is_revoking ProvisioningState.revoking = true
is_revoking ProvisioningState.requested = false
is_revoking ProvisioningState.applying = false
is_revoking ProvisioningState.active = false
is_revoking ProvisioningState.revoked = false
is_revoking ProvisioningState.failed = false

-- `revoke_credential_row`: the row itself, and the credential record behind it.
abbrev pub mark_row : ℕ → VpnCredential → VpnCredential
mark_row now row = record row { state = ProvisioningState.revoking; updated_at = now }

abbrev pub mark_record : ℕ → List DeviceProtocolCredential → List DeviceProtocolCredential
mark_record k [] = []
mark_record k (c ∷ cs) =
    if c.id == k then record c { state = ProvisioningState.revoking } ∷ cs else c ∷ mark_record k cs

-- What a loop over the selected rows leaves: the rows, the credential records, the count.
pub record Marked : Type 0 where
  pub rows : List VpnCredential
  pub records : List DeviceProtocolCredential
  pub count : ℕ

-- `for row in rows: revoke_credential_row(...)` over the rows that `selected` passes.
unfoldable pub revoke_rows :
    (VpnCredential → Bool) → ℕ → List VpnCredential → List DeviceProtocolCredential → Marked
revoke_rows selected now [] records = record { rows = []; records = records; count = 0 }
revoke_rows selected now (row ∷ rows) records =
    let m =
      revoke_rows selected now rows
        (if selected row then mark_record row.credential_id records else records) in
    if selected row
    then record m { rows = mark_row now row ∷ m.rows; count = m.count + 1 }
    else record m { rows = row ∷ m.rows }

abbrev pub of_device : ℕ → VpnCredential → Bool
of_device device_id row = (row.device_id == device_id) && is_live row.state

-- `revoke_device_credentials`
unfoldable pub revoke_device_credentials : ℕ → ℕ → Db → Db × ℕ
unfolding revoke_rows
revoke_device_credentials device_id now db =
    let ps = revoke_rows (of_device device_id) now db.peers db.credentials in
    let cs = revoke_rows (of_device device_id) now db.clients ps.records in
    (
      record db { peers = ps.rows; clients = cs.rows; credentials = cs.records },
      ps.count + cs.count,
    )

-- `credentials_awaiting_removal`
unfoldable pub any_revoking : List VpnCredential → Bool
any_revoking [] = false
any_revoking (row ∷ rows) = is_revoking row.state || any_revoking rows

unfoldable pub credentials_awaiting_removal : Db → Bool
unfolding any_revoking
credentials_awaiting_removal db = any_revoking db.peers || any_revoking db.clients
