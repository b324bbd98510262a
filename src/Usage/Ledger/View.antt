-- ===== src/Usage/Ledger/View.antt =====
-- What each operation of services/api/src/nebula_api/usage/service.py does to the row of a
-- credential, found by its key.
use vpn.Prelude.{
  ℕ, ◌≡◌, refl, Bool, false, ◌&&◌, Option, none, some, [], ◌∷◌, inl, inr, Option-cases, arith, ◌==◌,
  get_or, if◌then◌else◌,
}
use vpn.Usage.Ledger.{
  UsageSample, CredentialUsage, Table, has_key, older, find, fresh, insert_missing, put, accumulate,
  moves, apply, reset_reading, forget_one,
}

-- The sample's own row, before or after its insertion.
abbrev pub row_of : UsageSample → Table → CredentialUsage
row_of s t = get_or (find s.protocol s.identity t) (fresh s)

abbrev pub is_for : ℕ → ℕ → UsageSample → Bool
is_for p i s = (s.protocol == p) && (s.identity == i)

-- A row after a sample of its own.
abbrev pub folded : UsageSample → CredentialUsage → CredentialUsage
folded s row = if older s.collected_at row.last_collected_at then row else accumulate s row

-- Whether a sample counts as movement of a row.
abbrev pub flagged : UsageSample → CredentialUsage → Bool
flagged s row = if older s.collected_at row.last_collected_at then false else moves s row

pub find_key :
    (p i : ℕ) (t : Table) {row : CredentialUsage}
    → find p i t ≡ some row
    → (row.protocol ≡ p) × (row.identity ≡ i)
find_key p i [] h = ground arith
find_key p i (r ∷ t) {row} h = ground (arith, find_key p i t {row = row})

pub find-insert_missing :
    (p i : ℕ) (s : UsageSample) (t : Table)
    → find p i (insert_missing s t) ≡ (if is_for p i s then some (row_of s t) else find p i t)
unfolding insert_missing
find-insert_missing p i s [] = refl
find-insert_missing p i s (r ∷ t) = ground (arith, find-insert_missing p i s t)

pub find-put :
    (p i : ℕ) (new : CredentialUsage) (t : Table) {old : CredentialUsage}
    → find new.protocol new.identity t ≡ some old
    → find p i (put new t) ≡ (if has_key p i new then some new else find p i t)
unfolding put
find-put p i new [] h = ground arith
find-put p i new (r ∷ t) {old} h = ground (arith, find-put p i new t {old = old})

pub accumulate_key :
    (s : UsageSample) (row : CredentialUsage)
    → ((accumulate s row).protocol ≡ row.protocol) × ((accumulate s row).identity ≡ row.identity)
unfolding accumulate
accumulate_key s row = (refl, refl)

row_of_key :
    (s : UsageSample) (t : Table)
    → ((row_of s t).protocol ≡ s.protocol) × ((row_of s t).identity ≡ s.identity)
row_of_key s t = elim (Option-cases (find s.protocol s.identity t)) [
  | inl absent ↦ rw (absent, row_of) (refl, refl)
  | inr (row, e) ↦ rw (e, row_of) (find_key s.protocol s.identity t e)
]

pub find-insert_missing_self :
    (s : UsageSample) (t : Table)
    → find s.protocol s.identity (insert_missing s t) ≡ some (row_of s t)
find-insert_missing_self s t = ground (arith, find-insert_missing s.protocol s.identity s t)

-- Recording a sample changes the row of its own credential alone, by `folded`.
pub find-apply :
    (p i : ℕ) (s : UsageSample) (t : Table)
    → find p i (apply s t).0 ≡ (if is_for p i s then some (folded s (row_of s t)) else find p i t)
unfolding apply
find-apply p i s t = rw (find-insert_missing_self s t) (
    ground (
      arith,
      row_of_key s t,
      accumulate_key s (row_of s t),
      find-insert_missing_self s t,
      find-insert_missing p i s t,
      find-put p i (accumulate s (row_of s t)) (insert_missing s t) {old = row_of s t},
    ))

pub flag-apply : (s : UsageSample) (t : Table) → (apply s t).1 ≡ flagged s (row_of s t)
unfolding apply
flag-apply s t = rw (find-insert_missing_self s t) (ground arith)

-- The row a forgotten reading leaves, for a row of that key.
abbrev pub forgotten : ℕ → CredentialUsage → CredentialUsage
forgotten at row = if older at row.last_collected_at then row else reset_reading at row

abbrev pub forgotten_if : Bool → ℕ → Option CredentialUsage → Option CredentialUsage
forgotten_if own at none = none
forgotten_if own at (some row) = some (if own then forgotten at row else row)

pub find-forget_one :
    (p i at q j : ℕ) (t : Table)
    → find p i (forget_one at q j t).0 ≡ forgotten_if ((q == p) && (j == i)) at (find p i t)
unfolding forget_one reset_reading
find-forget_one p i at q j t = elim (Option-cases (find q j t)) [
  | inl absent ↦ rw absent (ground (arith, Option-cases (find p i t)))
  | inr (row, e) ↦ rw e (
      ground (
        arith,
        Option-cases (find p i t),
        find_key q j t e,
        find-put p i (reset_reading at row) t {old = row},
      ))
]
