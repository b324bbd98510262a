-- ===== src/Access/Revocation/Effects.antt =====
-- What services/api/src/nebula_api/provisioning/revocation.py leaves in each table.
use mathlib.Core.Path.{subst}
use vpn.Prelude.{
  sym, ◌⊎◌, ℕ, ◌+◌, ◌≡◌, ◌≢◌, ap, refl, Bool, true, false, ◌&&◌, ◌||◌, List, [], ◌∷◌, map, Option,
  none, some, inl, inr, All, Bool-cases, Option-cases, arith, ◌==◌, if◌then◌else◌,
}
use vpn.Db.{ProvisioningState, VpnCredential, DeviceProtocolCredential, Db, find_credential}
use vpn.Access.Revocation.{
  mark_row, mark_record, revoke_rows, of_device, revoke_device_credentials, any_revoking,
  credentials_awaiting_removal,
}

-- A row after the loop.
abbrev pub marked : (VpnCredential → Bool) → ℕ → VpnCredential → VpnCredential
marked selected now row = if selected row then mark_row now row else row

-- Whether a selected row points at the credential record `k`.
abbrev pub points_at : ℕ → (VpnCredential → Bool) → List VpnCredential → Bool
points_at k selected [] = false
points_at k selected (row ∷ rows) =
    if selected row && (row.credential_id == k) then true else points_at k selected rows

abbrev pub count_selected : (VpnCredential → Bool) → List VpnCredential → ℕ
count_selected selected [] = 0
count_selected selected (row ∷ rows) =
    if selected row then count_selected selected rows + 1 else count_selected selected rows

-- A credential record after the loop.
abbrev pub revoked_record : Bool → DeviceProtocolCredential → DeviceProtocolCredential
revoked_record b c = if b then record c { state = ProvisioningState.revoking } else c

abbrev pub map_option :
    (DeviceProtocolCredential → DeviceProtocolCredential)
    → Option DeviceProtocolCredential
    → Option DeviceProtocolCredential
map_option f none = none
map_option f (some c) = some (f c)

pub revoke_rows-rows :
    (selected : VpnCredential → Bool) (now : ℕ) (rows : List VpnCredential)
    (records : List DeviceProtocolCredential)
    → ((revoke_rows selected now rows records).rows ≡ map (marked selected now) rows)
      × ((revoke_rows selected now rows records).count ≡ count_selected selected rows)
unfolding revoke_rows
revoke_rows-rows selected now [] records = (refl, refl)
revoke_rows-rows selected now (row ∷ rows) records = elim (Bool-cases (selected row)) [
  | inl e ↦
      let (f, g) = revoke_rows-rows selected now rows (mark_record row.credential_id records) in
      rw e (ap (λ (rs : List VpnCredential). mark_row now row ∷ rs) f, ap (λ (n : ℕ). n + 1) g)
  | inr e ↦
      let (f, g) = revoke_rows-rows selected now rows records in
      rw e (ap (λ (rs : List VpnCredential). row ∷ rs) f, g)
]

find-mark_record :
    (k j : ℕ) (cs : List DeviceProtocolCredential)
    → find_credential k (mark_record j cs)
      ≡ map_option (revoked_record (j == k)) (find_credential k cs)
find-mark_record k j [] = refl
find-mark_record k j (c ∷ cs) =
    ground (arith, Option-cases (find_credential k cs), find-mark_record k j cs)

pub find-revoke_rows :
    (k : ℕ) (selected : VpnCredential → Bool) (now : ℕ) (rows : List VpnCredential)
    (records : List DeviceProtocolCredential)
    → find_credential k (revoke_rows selected now rows records).records
      ≡ map_option (revoked_record (points_at k selected rows)) (find_credential k records)
unfolding revoke_rows
find-revoke_rows k selected now [] records =
    ground (arith, Option-cases (find_credential k records))
find-revoke_rows k selected now (row ∷ rows) records = ground (
  arith,
  Option-cases (find_credential k records),
  find-mark_record k row.credential_id records,
  find-revoke_rows k selected now rows (mark_record row.credential_id records),
  find-revoke_rows k selected now rows records,
)

-- The two tables and the records after `revoke_device_credentials`, one row at a time: a live row
-- of the device is marked, and so is the record behind it; every other row and record is as it was.
pub revoke_device_credentials-rows :
    (d now k : ℕ) (db : Db)
    → let (db', count) = revoke_device_credentials d now db in
      (db'.peers ≡ map (marked (of_device d) now) db.peers)
      × (db'.clients ≡ map (marked (of_device d) now) db.clients)
      × (find_credential k db'.credentials
          ≡ map_option
              (revoked_record
                (points_at k (of_device d) db.peers || points_at k (of_device d) db.clients))
              (find_credential k db.credentials))
      × (count ≡ count_selected (of_device d) db.peers + count_selected (of_device d) db.clients)
unfolding revoke_device_credentials
revoke_device_credentials-rows d now k db =
    let sel = of_device d in
    let ps = revoke_rows sel now db.peers db.credentials in
    let (p, n) = revoke_rows-rows sel now db.peers db.credentials in
    let (c, m) = revoke_rows-rows sel now db.clients ps.records in
    (
      p,
      c,
      ground (
        arith,
        Option-cases (find_credential k db.credentials),
        find-revoke_rows k sel now db.peers db.credentials,
        find-revoke_rows k sel now db.clients ps.records,
      ),
      omega arith,
    )

-- The tables that revoking leaves alone.
pub revoke_others :
    (d now : ℕ) (db : Db)
    → let db' = (revoke_device_credentials d now db).0 in
      (db'.users ≡ db.users) × (db'.devices ≡ db.devices) × (db'.audit_logs ≡ db.audit_logs)
unfolding revoke_device_credentials
revoke_others d now db = (refl, refl, refl)

abbrev pub NoneLive : ℕ → List VpnCredential → Type 0
NoneLive d = All (λ row. of_device d row ≡ false)

marked-NoneLive :
    (d now : ℕ) (rows : List VpnCredential) → NoneLive d (map (marked (of_device d) now) rows)
marked-NoneLive d now [] = tt
marked-NoneLive d now (row ∷ rows) = (ground arith, marked-NoneLive d now rows)

revoke_rows-NoneLive :
    (d now : ℕ) (rows : List VpnCredential) (records : List DeviceProtocolCredential)
    → NoneLive d rows
    → revoke_rows (of_device d) now rows records
      ≡ record { rows = rows; records = records; count = 0 }
unfolding revoke_rows
revoke_rows-NoneLive d now [] records h = refl
revoke_rows-NoneLive d now (row ∷ rows) records h =
    rw (h.0, revoke_rows-NoneLive d now rows records h.1)

pub revoke_nothing :
    (d now : ℕ) (db : Db)
    → NoneLive d db.peers
    → NoneLive d db.clients
    → revoke_device_credentials d now db ≡ (db, 0)
unfolding revoke_device_credentials
revoke_nothing d now db p c = rw (
  revoke_rows-NoneLive d now db.peers db.credentials p,
  revoke_rows-NoneLive d now db.clients db.credentials c,
)

pub revoked-NoneLive :
    (d now : ℕ) (db : Db)
    → NoneLive d (revoke_device_credentials d now db).0.peers
      × NoneLive d (revoke_device_credentials d now db).0.clients
revoked-NoneLive d now db =
    let (p, c, _, _) = revoke_device_credentials-rows d now 0 db in
    (
      subst (NoneLive d) (sym p) (marked-NoneLive d now db.peers),
      subst (NoneLive d) (sym c) (marked-NoneLive d now db.clients),
    )

-- Afterwards no credential of the device is live, and to do it again, at any later time, finds
-- nothing to revoke and changes nothing.
pub revoke_device_credentials-final :
    (d now later : ℕ) (db : Db)
    → let (db', count) = revoke_device_credentials d now db in
      NoneLive d db'.peers
      × NoneLive d db'.clients
      × (revoke_device_credentials d later db' ≡ (db', 0))
revoke_device_credentials-final d now later db =
    let (p, c) = revoked-NoneLive d now db in
    (p, c, revoke_nothing d later (revoke_device_credentials d now db).0 p c)

any_revoking-marked :
    (selected : VpnCredential → Bool) (now : ℕ) (rows : List VpnCredential)
    → (count_selected selected rows ≡ 0) ⊎ (any_revoking (map (marked selected now) rows) ≡ true)
unfolding any_revoking
any_revoking-marked selected now [] = inl refl
any_revoking-marked selected now (row ∷ rows) =
    ground (arith, any_revoking-marked selected now rows)

-- When it revoked anything, a removal is waiting.
pub revoke_device_credentials-awaiting :
    (d now : ℕ) (db : Db)
    → (revoke_device_credentials d now db).1 ≢ 0
    → credentials_awaiting_removal (revoke_device_credentials d now db).0 ≡ true
unfolding credentials_awaiting_removal
revoke_device_credentials-awaiting d now db h =
    let (p, c, _, n) = revoke_device_credentials-rows d now 0 db in
    rw (p, c)
      (ground (
        arith,
        n,
        any_revoking-marked (of_device d) now db.peers,
        any_revoking-marked (of_device d) now db.clients,
      ))
