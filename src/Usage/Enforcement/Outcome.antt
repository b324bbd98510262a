-- ===== src/Usage/Enforcement/Outcome.antt =====
-- The outcome of services/api/src/nebula_api/usage/enforcement.py for every account, where the
-- users have distinct ids (their primary key).
use mathlib.Core.Path.{subst}
use vpn.Prelude.{
  ℕ, ◌≡◌, ◌∙◌, ap, sym, refl, Bool, true, false, ◌&&◌, Option, none, some, List, [], ◌∷◌, contains,
  inl, inr, is_some, Bool-cases, arith, ◌==◌, if◌then◌else◌,
}
use vpn.Db.{User, Db, find_user, put_user}
use vpn.Usage.Ledger.{Table}
use vpn.Usage.Account.{devices_of}
use vpn.Usage.Enforcement.{is_metered, metered, exhaust, cut_off, is_spent_by, sweep}
use vpn.Usage.Enforcement.Sweep.{
  exhausted_row, Dead, find-cut_off, cut_off-devices, cut_off-keeps, cut_off-Dead, cut_off-cases,
  spent-cut_off, revoke_devices_others,
}

abbrev pub user_ids : List User → List ℕ
user_ids [] = []
user_ids (u ∷ users) = u.id ∷ user_ids users

abbrev pub IsDistinct : List ℕ → Type 0
IsDistinct [] = Unit
IsDistinct (k ∷ ks) = (contains k ks ≡ false) × IsDistinct ks

find_user_absent :
    (k : ℕ) (users : List User) → contains k (user_ids users) ≡ false → find_user k users ≡ none
find_user_absent k [] h = refl
find_user_absent k (u ∷ users) h = ground (arith, find_user_absent k users)

abbrev pub row_is_metered : Option User → Bool
row_is_metered none = false
row_is_metered (some user) = is_metered user

pub contains-metered :
    (k : ℕ) (users : List User)
    → IsDistinct (user_ids users)
    → contains k (metered users) ≡ row_is_metered (find_user k users)
contains-metered k [] h = refl
contains-metered k (u ∷ users) h = elim (Bool-cases (u.id == k)) [
  | inl same ↦
      let same' : u.id ≡ k = ground arith in
      let gone =
        find_user_absent k users (subst (λ j. contains j (user_ids users) ≡ false) same' h.0) in
      let rest : contains k (metered users) ≡ false =
        contains-metered k users h.1 ∙ ap row_is_metered gone in
      elim (Bool-cases (is_metered u)) [ inl m ↦ rw (m, same, m) | inr m ↦ rw (m, same, m, rest) ]
  | inr other ↦ elim (Bool-cases (is_metered u)) [
    | inl m ↦ rw (m, other) (contains-metered k users h.1)
    | inr m ↦ rw (m, other) (contains-metered k users h.1)
  ]
]

user_ids-put_user :
    (new : User) (users : List User) → user_ids (put_user new users) ≡ user_ids users
user_ids-put_user new [] = refl
user_ids-put_user new (u ∷ users) = ground (arith, user_ids-put_user new users)

user_ids-cut_off : (u now : ℕ) (db : Db) → user_ids (cut_off u now db).0.users ≡ user_ids db.users
user_ids-cut_off u now db = elim (cut_off-cases u now db) [
  | inl (e, f) ↦ rw e
  | inr (user, e, m, f) ↦
      rw (f, (revoke_devices_others (devices_of u db.devices) now db).0)
        (user_ids-put_user (exhaust now user) db.users)
]

exhausted_row_twice :
    (x y : ℕ) (o : Option User) → exhausted_row x (exhausted_row y o) ≡ exhausted_row y o
exhausted_row_twice x y none = refl
exhausted_row_twice x y (some user) = elim (Bool-cases (is_some user.quota_exhausted_at)) [
  | inl m ↦ rw (m, m)
  | inr m ↦ rw m
]

module _ (usage_digest : ℕ → ℕ) (decrypt : ℕ → ℕ → Option ℕ) (t : Table) (clock : ℕ → ℕ) where
  abbrev pub spent : Db → ℕ → Bool
  spent = is_spent_by usage_digest decrypt t

  -- The state after one turn of the loop.
  abbrev turned : ℕ → Db → Db
  turned u db = if spent db u then (cut_off u (clock u) db).0 else db

  sweep-cons :
      (u : ℕ) (us : List ℕ) (db : Db)
      → (sweep usage_digest decrypt t clock (u ∷ us) db).0
        ≡ (sweep usage_digest decrypt t clock us (turned u db)).0
  unfolding sweep
  sweep-cons u us db = elim (Bool-cases (spent db u)) [ inl e ↦ rw e | inr e ↦ rw e ]

  spent-turned : (k u : ℕ) (db : Db) → spent (turned u db) k ≡ spent db k
  spent-turned k u db = elim (Bool-cases (spent db u)) [
    | inl e ↦ rw e (spent-cut_off usage_digest decrypt t k u (clock u) db)
    | inr e ↦ rw e
  ]

  pub spent-sweep :
      (k : ℕ) (us : List ℕ) (db : Db)
      → spent (sweep usage_digest decrypt t clock us db).0 k ≡ spent db k
  spent-sweep k [] db = unfold sweep in refl
  spent-sweep k (u ∷ us) db =
      rw (sweep-cons u us db) (spent-sweep k us (turned u db) ∙ spent-turned k u db)

  -- The row of `k` after the loop over accounts that list it or not.
  abbrev pub row_after : Bool → ℕ → Db → Option User
  row_after listed k db =
      if listed && spent db k
      then exhausted_row (clock k) (find_user k db.users)
      else find_user k db.users

  find-turned_self : (u : ℕ) (db : Db) → find_user u (turned u db).users ≡ row_after true u db
  find-turned_self u db = elim (Bool-cases (spent db u)) [
    | inl e ↦ rw (e, find-cut_off u u (clock u) db) (ground arith)
    | inr e ↦ rw e
  ]

  find-turned : (k u : ℕ) (db : Db) → find_user k (turned u db).users ≡ row_after (u == k) k db
  find-turned k u db = elim (Bool-cases (u == k)) [
    | inl same ↦
        let same' : u ≡ k = ground arith in
        rw same (
          subst (λ j. find_user j (turned u db).users ≡ row_after true j db) same'
            (find-turned_self u db))
    | inr other ↦ rw other (elim (Bool-cases (spent db u)) [
      | inl e ↦ rw (e, find-cut_off k u (clock u) db, other)
      | inr e ↦ rw e
    ])
  ]

  abbrev pub swept : List ℕ → Db → Db
  swept us db = (sweep usage_digest decrypt t clock us db).0

  pub find-sweep :
      (k : ℕ) (us : List ℕ) (db : Db)
      → find_user k (swept us db).users ≡ row_after (contains k us) k db
  find-sweep k [] db = unfold sweep in refl
  find-sweep k (u ∷ us) db =
      rw
        (sweep-cons u us db, find-sweep k us (turned u db), spent-turned k u db, find-turned k u db)
        (elim (Bool-cases (u == k)) [
          | inl same ↦ rw same (elim (Bool-cases (spent db k)) [
            | inl e ↦
                rw e
                  (ground (arith, exhausted_row_twice (clock k) (clock k) (find_user k db.users)))
            | inr e ↦ rw e (ground arith)
          ])
          | inr other ↦ rw other
        ])

  turned-cases :
      (P : Db → Type 0) (u : ℕ) (db : Db) → P (cut_off u (clock u) db).0 → P db → P (turned u db)
  turned-cases P u db cut kept = elim (Bool-cases (spent db u)) [
    | inl e ↦ rw e cut
    | inr e ↦ rw e kept
  ]

  pub user_ids-sweep : (us : List ℕ) (db : Db) → user_ids (swept us db).users ≡ user_ids db.users
  user_ids-sweep [] db = unfold sweep in refl
  user_ids-sweep (u ∷ us) db = rw (sweep-cons u us db) (
      user_ids-sweep us (turned u db)
      ∙ turned-cases (λ v. user_ids v.users ≡ user_ids db.users) u db
          (user_ids-cut_off u (clock u) db) refl)

  turned-devices : (u : ℕ) (db : Db) → (turned u db).devices ≡ db.devices
  turned-devices u db =
      turned-cases (λ v. v.devices ≡ db.devices) u db (cut_off-devices u (clock u) db) refl

  sweep-keeps : (d : ℕ) (us : List ℕ) (db : Db) → Dead d db → Dead d (swept us db)
  sweep-keeps d [] db h = unfold sweep in h
  sweep-keeps d (u ∷ us) db h = rw (sweep-cons u us db) (
      sweep-keeps d us (turned u db)
        (turned-cases (Dead d) u db (cut_off-keeps d u (clock u) db h) h))

  -- The devices of a listed account that has spent its allowance and is not marked lose all.
  pub sweep-Dead :
      (d k : ℕ) (us : List ℕ) (db : Db) (user : User)
      → contains k us ≡ true
      → find_user k db.users ≡ some user
      → is_some user.quota_exhausted_at ≡ false
      → spent db k ≡ true
      → contains d (devices_of k db.devices) ≡ true
      → Dead d (swept us db)
  sweep-Dead d k [] db user c e m s h = cc
  sweep-Dead d k (u ∷ us) db user c e m s h = rw (sweep-cons u us db) (elim (Bool-cases (u == k)) [
    | inl same ↦
        let same' : u ≡ k = ground arith in
        sweep-keeps d us (turned u db) (
          subst (λ j. Dead d (turned j db)) (sym same')
            (rw s (cut_off-Dead d k (clock k) db e m h)))
    | inr other ↦
        sweep-Dead d k us (turned u db) user (ground arith) (find-turned k u db ∙ (rw other e)) m
          (spent-turned k u db ∙ s) (rw (turned-devices u db) h)
  ])
