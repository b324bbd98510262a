-- ===== src/Access/Expiry/Sweeps.antt =====
-- One run and two runs of `enforce_access_expiry` of services/api/src/nebula_api/access/expiry.py.
use mathlib.Core.Path.{subst}
use vpn.Prelude.{
  ℕ, ◌+◌, ◌≡◌, ◌∙◌, ap, sym, refl, false, ◌||◌, List, [], ◌∷◌, ◌++◌, map, All, contains, inl, inr,
  Bool-cases, Option-cases, arith,
}
use vpn.Db.{VpnCredential, DeviceProtocolCredential, Db, find_credential}
use vpn.Access.Revocation.{revoke_rows}
use vpn.Access.Revocation.Effects.{
  marked, points_at, count_selected, revoked_record, map_option, revoke_rows-rows, find-revoke_rows,
}
use vpn.Access.Expiry.{lapsed, count_owners, lapse_events, enforce_access_expiry}
use vpn.Access.Expiry.Effects.{total-count_owners, owns_lapsed, contains-count_owners}

-- One run: in both tables exactly the lapsed credentials are marked, with the records behind them;
-- the summary counts them and names exactly the accounts that own one, and an audit event is
-- appended for every name.
pub enforce_access_expiry-rows :
    (now j k : ℕ) (db : Db)
    → let (db', summary) = enforce_access_expiry now db in
      (db'.peers ≡ map (marked (lapsed now db) now) db.peers)
      × (db'.clients ≡ map (marked (lapsed now db) now) db.clients)
      × (find_credential j db'.credentials
          ≡ map_option
              (revoked_record
                (points_at j (lapsed now db) db.peers || points_at j (lapsed now db) db.clients))
              (find_credential j db.credentials))
      × (summary.credentials_revoked
          ≡ count_selected (lapsed now db) db.peers + count_selected (lapsed now db) db.clients)
      × (contains k summary.account_ids
          ≡ owns_lapsed now db k db.peers || owns_lapsed now db k db.clients)
      × (db'.audit_logs ≡ db.audit_logs ++ lapse_events summary.account_ids)
unfolding enforce_access_expiry
enforce_access_expiry-rows now j k db =
    let sel = lapsed now db in
    let ps = revoke_rows sel now db.peers db.credentials in
    let first = count_owners now db db.peers [] in
    (
      (revoke_rows-rows sel now db.peers db.credentials).0,
      (revoke_rows-rows sel now db.clients ps.records).0,
      ground (
        arith,
        Option-cases (find_credential j db.credentials),
        find-revoke_rows j sel now db.peers db.credentials,
        find-revoke_rows j sel now db.clients ps.records,
      ),
      omega (
        arith,
        total-count_owners now db db.clients first,
        total-count_owners now db db.peers [],
      ),
      contains-count_owners k now db db.clients first
          ∙ ap (λ b. b || owns_lapsed now db k db.clients)
              (contains-count_owners k now db db.peers []),
      refl,
    )

abbrev pub NoneLapsed : ℕ → Db → List VpnCredential → Type 0
NoneLapsed now db = All (λ row. lapsed now db row ≡ false)

marked-NoneLapsed :
    (now : ℕ) (db : Db) (rows : List VpnCredential)
    → NoneLapsed now db (map (marked (lapsed now db) now) rows)
unfolding lapsed
marked-NoneLapsed now db [] = tt
marked-NoneLapsed now db (row ∷ rows) = (
  elim (Bool-cases (lapsed now db row)) [ inl hit ↦ rw hit refl | inr miss ↦ rw (miss, miss) refl ],
  marked-NoneLapsed now db rows,
)

revoke_rows-NoneLapsed :
    (now : ℕ) (db : Db) (rows : List VpnCredential) (records : List DeviceProtocolCredential)
    → NoneLapsed now db rows
    → revoke_rows (lapsed now db) now rows records
      ≡ record { rows = rows; records = records; count = 0 }
unfolding revoke_rows
revoke_rows-NoneLapsed now db [] records h = refl
revoke_rows-NoneLapsed now db (row ∷ rows) records h =
    rw (h.0, revoke_rows-NoneLapsed now db rows records h.1)

count_owners-NoneLapsed :
    (now : ℕ) (db : Db) (rows : List VpnCredential) (revoked : List (ℕ × ℕ))
    → NoneLapsed now db rows
    → count_owners now db rows revoked ≡ revoked
unfolding count_owners
count_owners-NoneLapsed now db [] revoked h = refl
count_owners-NoneLapsed now db (row ∷ rows) revoked h =
    rw h.0 (count_owners-NoneLapsed now db rows revoked h.1)

expiry_nothing :
    (now : ℕ) (db : Db)
    → NoneLapsed now db db.peers
    → NoneLapsed now db db.clients
    → (enforce_access_expiry now db).1 ≡ record { credentials_revoked = 0; account_ids = [] }
unfolding enforce_access_expiry
expiry_nothing now db p c =
    rw
      (count_owners-NoneLapsed now db db.peers [] p, count_owners-NoneLapsed now db db.clients [] c)
      refl

-- After a run at some time no credential that is left live has lapsed at that time, and another run
-- at the same time takes nothing and names nobody.
pub enforce_access_expiry-again :
    (now : ℕ) (db : Db)
    → let db' = (enforce_access_expiry now db).0 in
      NoneLapsed now db' db'.peers
      × NoneLapsed now db' db'.clients
      × ((enforce_access_expiry now db').1 ≡ record { credentials_revoked = 0; account_ids = [] })
unfolding enforce_access_expiry lapsed
enforce_access_expiry-again now db =
    let (p, c, _, _, _, _) = enforce_access_expiry-rows now 0 0 db in
    let p' = subst (NoneLapsed now db) (sym p) (marked-NoneLapsed now db db.peers) in
    let c' = subst (NoneLapsed now db) (sym c) (marked-NoneLapsed now db db.clients) in
    (p', c', expiry_nothing now (enforce_access_expiry now db).0 p' c')
