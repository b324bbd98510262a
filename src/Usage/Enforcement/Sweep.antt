-- ===== src/Usage/Enforcement/Sweep.antt =====
-- What a sweep of services/api/src/nebula_api/usage/enforcement.py leaves of each account.
use mathlib.Core.Path.{subst}
use vpn.Prelude.{
  ℕ, ◌≡◌, ◌⊎◌, ◌∙◌, sym, refl, Bool, true, false, Option, none, some, List, [], ◌∷◌, map, contains,
  inl, inr, is_some, Bool-cases, Option-cases, arith, ◌==◌, if◌then◌else◌,
}
use vpn.Db.{User, VpnCredential, Db, find_user, find-put_user, find_user_id}
use vpn.Access.Revocation.{revoke_device_credentials, of_device}
use vpn.Access.Revocation.Effects.{
  marked, NoneLive, revoke_others, revoked-NoneLive, revoke_device_credentials-rows,
}
use vpn.Usage.Ledger.{Table}
use vpn.Usage.Account.{is_exhausted, devices_of, usage_for_user, account_usage, digests_for_devices}
use vpn.Usage.Account.Attribution.{digests-revoke}
use vpn.Usage.Enforcement.{
  revoke_devices, exhaust, mark_exhausted, cut_off, cut_off_locked, is_spent_by,
}

-- A user's row after `cut_off`.
abbrev pub exhausted_row : ℕ → Option User → Option User
exhausted_row now none = none
exhausted_row now (some user) =
    some (if is_some user.quota_exhausted_at then user else exhaust now user)

pub revoke_devices_others :
    (ds : List ℕ) (now : ℕ) (db : Db)
    → ((revoke_devices ds now db).0.users ≡ db.users)
      × ((revoke_devices ds now db).0.devices ≡ db.devices)
unfolding revoke_devices
revoke_devices_others [] now db = (refl, refl)
revoke_devices_others (d ∷ ds) now db =
    let (us, devs, _) = revoke_others d now db in
    let (us', devs') = revoke_devices_others ds now (revoke_device_credentials d now db).0 in
    (us' ∙ us, devs' ∙ devs)

-- Either nothing is done, or the user was not marked and is marked now.
abbrev pub Cuts : ℕ → ℕ → Db → Type 0
Cuts u now db =
    (user : User) × (find_user u db.users ≡ some user)
    × (is_some user.quota_exhausted_at ≡ false)
    × ((cut_off u now db).0
        ≡ mark_exhausted u now user (revoke_devices (devices_of u db.devices) now db).0)

pub cut_off-cases :
    (u now : ℕ) (db : Db)
    → (((cut_off u now db ≡ (db, 0))
        × (exhausted_row now (find_user u db.users) ≡ find_user u db.users)))
      ⊎ Cuts u now db
unfolding cut_off
cut_off-cases u now db = elim (Option-cases (find_user u db.users)) [
  | inl absent ↦ inl (rw absent, rw absent)
  | inr (user, e) ↦ elim (Bool-cases (is_some user.quota_exhausted_at)) [
    | inl m ↦ inl (rw (e, cut_off_locked, m), rw (e, exhausted_row, m))
    | inr m ↦ inr (user, e, m, rw (e, cut_off_locked, m))
  ]
]

marked_row :
    (k u now : ℕ) (user : User) (o : Option User)
    → user.id ≡ u
    → is_some user.quota_exhausted_at ≡ false
    → (u ≡ k → o ≡ some user)
    → (if user.id == k then some (exhaust now user) else o)
      ≡ (if u == k then exhausted_row now o else o)
marked_row k u now user o e m h = elim (Bool-cases (u == k)) [
  | inl same ↦ let same' : u ≡ k = ground arith in rw (h same', exhausted_row, m, e, same)
  | inr other ↦ rw (e, other)
]

pub find-cut_off :
    (k u now : ℕ) (db : Db)
    → find_user k (cut_off u now db).0.users
      ≡ (if u == k then exhausted_row now (find_user k db.users) else find_user k db.users)
find-cut_off k u now db = elim (cut_off-cases u now db) [
  | inl (e, f) ↦ rw e (elim (Bool-cases (u == k)) [
    | inl same ↦
        let same' : u ≡ k = ground arith in
        rw same (
          subst (λ j. find_user j db.users ≡ exhausted_row now (find_user j db.users)) same'
            (sym f))
    | inr other ↦ rw other
  ])
  | inr (user, e, m, f) ↦
      let id_eq = find_user_id u db.users e in
      let own = subst (λ j. find_user j db.users ≡ some user) (sym id_eq) e in
      rw (f, (revoke_devices_others (devices_of u db.devices) now db).0)
        (find-put_user k (exhaust now user) db.users own
          ∙ marked_row k u now user (find_user k db.users) id_eq m
              (λ j. subst (λ j'. find_user j' db.users ≡ some user) j e))
]

pub cut_off-devices : (u now : ℕ) (db : Db) → (cut_off u now db).0.devices ≡ db.devices
cut_off-devices u now db = elim (cut_off-cases u now db) [
  | inl (e, f) ↦ rw e
  | inr (user, e, m, f) ↦ rw (f, (revoke_devices_others (devices_of u db.devices) now db).1)
]

marked-keeps :
    (d e now : ℕ) (rows : List VpnCredential)
    → NoneLive d rows
    → NoneLive d (map (marked (of_device e) now) rows)
marked-keeps d e now [] h = tt
marked-keeps d e now (row ∷ rows) h = (ground (arith, h.0), marked-keeps d e now rows h.1)

abbrev pub Dead : ℕ → Db → Type 0
Dead d db = NoneLive d db.peers × NoneLive d db.clients

revoke-keeps : (d e now : ℕ) (db : Db) → Dead d db → Dead d (revoke_device_credentials e now db).0
revoke-keeps d e now db h =
    let (p, c, _, _) = revoke_device_credentials-rows e now 0 db in
    (
      subst (NoneLive d) (sym p) (marked-keeps d e now db.peers h.0),
      subst (NoneLive d) (sym c) (marked-keeps d e now db.clients h.1),
    )

revoke_devices-keeps :
    (d now : ℕ) (ds : List ℕ) (db : Db) → Dead d db → Dead d (revoke_devices ds now db).0
unfolding revoke_devices
revoke_devices-keeps d now [] db h = h
revoke_devices-keeps d now (e ∷ ds) db h =
    revoke_devices-keeps d now ds (revoke_device_credentials e now db).0 (revoke-keeps d e now db h)

revoke_devices-Dead :
    (d now : ℕ) (ds : List ℕ) (db : Db) → contains d ds ≡ true → Dead d (revoke_devices ds now db).0
unfolding revoke_devices
revoke_devices-Dead d now [] db h = cc
revoke_devices-Dead d now (e ∷ ds) db h = elim (Bool-cases (e == d)) [
  | inl same ↦
      let same' : e ≡ d = ground arith in
      revoke_devices-keeps d now ds (revoke_device_credentials e now db).0 (
        subst (λ j. Dead j (revoke_device_credentials e now db).0) same'
          (revoked-NoneLive e now db))
  | inr other ↦ revoke_devices-Dead d now ds (revoke_device_credentials e now db).0 (ground arith)
]

pub cut_off-keeps : (d u now : ℕ) (db : Db) → Dead d db → Dead d (cut_off u now db).0
cut_off-keeps d u now db h = elim (cut_off-cases u now db) [
  | inl (e, f) ↦ rw e h
  | inr (user, e, m, f) ↦ rw f (revoke_devices-keeps d now (devices_of u db.devices) db h)
]

pub cut_off-Dead :
    (d u now : ℕ) (db : Db) {user : User}
    → find_user u db.users ≡ some user
    → is_some user.quota_exhausted_at ≡ false
    → contains d (devices_of u db.devices) ≡ true
    → Dead d (cut_off u now db).0
unfolding cut_off
cut_off-Dead d u now db e m h =
    rw (e, cut_off_locked, m) (revoke_devices-Dead d now (devices_of u db.devices) db h)

module _ (usage_digest : ℕ → ℕ) (decrypt : ℕ → ℕ → Option ℕ) (t : Table) where
  abbrev digests : Db → List ℕ → List ℕ
  digests db ids = digests_for_devices usage_digest decrypt ids db

  digests-revoke_devices :
      (ids ds : List ℕ) (now : ℕ) (db : Db)
      → digests (revoke_devices ds now db).0 ids ≡ digests db ids
  unfolding revoke_devices
  digests-revoke_devices ids [] now db = refl
  digests-revoke_devices ids (d ∷ ds) now db =
      digests-revoke_devices ids ds now (revoke_device_credentials d now db).0
      ∙ digests-revoke usage_digest decrypt ids d now db

  digests-mark :
      (ids : List ℕ) (u now : ℕ) (user : User) (db : Db)
      → digests (mark_exhausted u now user db) ids ≡ digests db ids
  unfolding digests_for_devices
  digests-mark ids u now user db = refl

  digests-cut_off :
      (ids : List ℕ) (u now : ℕ) (db : Db) → digests (cut_off u now db).0 ids ≡ digests db ids
  digests-cut_off ids u now db = elim (cut_off-cases u now db) [
    | inl (e, f) ↦ rw e
    | inr (user, e, m, f) ↦ rw f (
        digests-mark ids u now user (revoke_devices (devices_of u db.devices) now db).0
        ∙ digests-revoke_devices ids (devices_of u db.devices) now db)
  ]

  exhausted-same :
      (own : Bool) (now : ℕ) (o : Option User) (ds : List ℕ)
      → is_exhausted (account_usage (if own then exhausted_row now o else o) ds t)
        ≡ is_exhausted (account_usage o ds t)
  unfolding is_exhausted account_usage
  exhausted-same false now o ds = refl
  exhausted-same true now none ds = refl
  exhausted-same true now (some user) ds = elim (Bool-cases (is_some user.quota_exhausted_at)) [
    | inl m ↦ rw m
    | inr m ↦ rw m
  ]

  -- Cutting one account off changes for no account whether it has spent its allowance.
  pub spent-cut_off :
      (k u now : ℕ) (db : Db)
      → is_spent_by usage_digest decrypt t (cut_off u now db).0 k
        ≡ is_spent_by usage_digest decrypt t db k
  unfolding usage_for_user
  spent-cut_off k u now db =
      rw
        (
          cut_off-devices u now db,
          digests-cut_off (devices_of k db.devices) u now db,
          find-cut_off k u now db,
        )
        (exhausted-same (u == k) now (find_user k db.users) (digests db (devices_of k db.devices)))
