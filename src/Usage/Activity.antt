-- ===== src/Usage/Activity.antt =====
-- `activity_for_devices` of services/api/src/nebula_api/usage/service.py, from the devices with
-- their digests on. `by_digest` keeps the last row of an identity.
use vpn.Prelude.{ℕ, Option, none, some, List, [], ◌∷◌, ltb, ◌==◌, if◌then◌else◌}
use vpn.Usage.Ledger.{CredentialUsage, Table}

pub record DeviceActivity : Type 0 where
  pub tunnel_active_at : Option ℕ
  pub tunnel_checked_at : Option ℕ

-- `_latest`
abbrev pub latest : Option ℕ → Option ℕ → Option ℕ
latest none b = b
latest (some a) none = some a
latest (some a) (some b) = if ltb a b then some b else some a

abbrev pub first_of : Option CredentialUsage → Option CredentialUsage → Option CredentialUsage
first_of none other = other
first_of (some row) other = some row

-- `by_digest.get(digest)`
abbrev pub by_digest : ℕ → Table → Option CredentialUsage
by_digest digest [] = none
by_digest digest (row ∷ t) =
    first_of (by_digest digest t) (if row.identity == digest then some row else none)

abbrev pub joined : CredentialUsage → DeviceActivity → DeviceActivity
joined row seen = record {
  tunnel_active_at = latest seen.tunnel_active_at row.last_active_at;
  tunnel_checked_at = latest seen.tunnel_checked_at row.last_collected_at;
}

-- `activity[device_id] = ...`, a dict in insertion order.
abbrev pub note : ℕ → CredentialUsage → List (ℕ × DeviceActivity) → List (ℕ × DeviceActivity)
note device_id row [] =
    (device_id, joined row (record { tunnel_active_at = none; tunnel_checked_at = none })) ∷ []
note device_id row ((d, seen) ∷ activity) =
    if d == device_id
    then (d, joined row seen) ∷ activity
    else (d, seen) ∷ note device_id row activity

abbrev pub note_found :
    ℕ → Option CredentialUsage → List (ℕ × DeviceActivity) → List (ℕ × DeviceActivity)
note_found device_id none activity = activity
note_found device_id (some row) activity = note device_id row activity

-- The loop over the owners.
unfoldable pub activity_of :
    List (ℕ × ℕ) → Table → List (ℕ × DeviceActivity) → List (ℕ × DeviceActivity)
activity_of [] t activity = activity
activity_of ((device_id, digest) ∷ owners) t activity =
    activity_of owners t (note_found device_id (by_digest digest t) activity)
