-- ===== src/Access/Expiry/Effects.antt =====
-- Whose credentials services/api/src/nebula_api/access/expiry.py takes away, and that it takes no
-- others and does so once.
use vpn.Prelude.{
  ℕ, ◌+◌, ◌≡◌, refl, Bool, false, ◌&&◌, ◌||◌, List, [], ◌∷◌, contains, inl, inr, Bool-cases, arith,
  ◌==◌,
}
use vpn.Db.{VpnCredential, Db, find_device}
use vpn.Access.Revocation.Effects.{count_selected}
use vpn.Access.Expiry.{lapsed, owner_of, bump, count_owners, total, accounts}

total-bump : (k : ℕ) (revoked : List (ℕ × ℕ)) → total (bump k revoked) ≡ total revoked + 1
unfolding bump
total-bump k [] = omega arith
total-bump k ((j, n) ∷ revoked) = ground (arith, total-bump k revoked)

pub total-count_owners :
    (now : ℕ) (db : Db) (rows : List VpnCredential) (revoked : List (ℕ × ℕ))
    → total (count_owners now db rows revoked) ≡ total revoked + count_selected (lapsed now db) rows
unfolding count_owners
total-count_owners now db [] revoked = omega arith
total-count_owners now db (row ∷ rows) revoked = elim (Bool-cases (lapsed now db row)) [
  | inl hit ↦
      let owner = owner_of (find_device row.device_id db.devices) in
      rw hit (
        omega
          (arith, total-count_owners now db rows (bump owner revoked), total-bump owner revoked))
  | inr miss ↦ rw miss (total-count_owners now db rows revoked)
]

contains-bump :
    (i k : ℕ) (revoked : List (ℕ × ℕ))
    → contains i (accounts (bump k revoked)) ≡ (k == i) || contains i (accounts revoked)
unfolding bump
contains-bump i k [] = refl
contains-bump i k ((j, n) ∷ revoked) = ground (arith, contains-bump i k revoked)

-- Whether an account owns a row that lapsed.
abbrev pub owns_lapsed : ℕ → Db → ℕ → List VpnCredential → Bool
owns_lapsed now db k [] = false
owns_lapsed now db k (row ∷ rows) =
    (lapsed now db row && (owner_of (find_device row.device_id db.devices) == k))
    || owns_lapsed now db k rows

pub contains-count_owners :
    (k now : ℕ) (db : Db) (rows : List VpnCredential) (revoked : List (ℕ × ℕ))
    → contains k (accounts (count_owners now db rows revoked))
      ≡ contains k (accounts revoked) || owns_lapsed now db k rows
unfolding count_owners
contains-count_owners k now db [] revoked = ground arith
contains-count_owners k now db (row ∷ rows) revoked = elim (Bool-cases (lapsed now db row)) [
  | inl hit ↦
      let owner = owner_of (find_device row.device_id db.devices) in
      rw hit (
        ground (
          arith,
          contains-count_owners k now db rows (bump owner revoked),
          contains-bump k owner revoked,
        ))
  | inr miss ↦ rw miss (contains-count_owners k now db rows revoked)
]
