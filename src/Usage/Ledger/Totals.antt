-- ===== src/Usage/Ledger/Totals.antt =====
-- The totals that services/api/src/nebula_api/usage/service.py keeps: they only go up, a repeated
-- or stale reading adds nothing, and a forgotten reading leaves them alone.
use vpn.Prelude.{
  ℕ, ◌+◌, ◌≤◌, ◌<◌, ◌≡◌, ◌↔◌, refl, true, false, Option, none, some, List, [], ◌∷◌, inl, inr,
  Bool-cases, Option-cases, arith, if◌then◌else◌,
}
use mathlib.Core.Path.{subst₂}
use vpn.Usage.Ledger.{
  UsageSample, CredentialUsage, Table, find, insert_missing, accumulate, apply, record_from,
  record_samples, reset_reading, forget_one, forget_readings,
}
use vpn.Usage.Ledger.View.{row_of, is_for, folded, flagged, flag-apply, find-apply, find-forget_one}

abbrev pub rx_of : Option CredentialUsage → ℕ
rx_of none = 0
rx_of (some row) = row.rx_bytes

abbrev pub tx_of : Option CredentialUsage → ℕ
tx_of none = 0
tx_of (some row) = row.tx_bytes

abbrev pub rx_total : ℕ → ℕ → Table → ℕ
rx_total p i t = rx_of (find p i t)

abbrev pub tx_total : ℕ → ℕ → Table → ℕ
tx_total p i t = tx_of (find p i t)

totals-row_of :
    (s : UsageSample) (t : Table)
    → (rx_total s.protocol s.identity t ≡ (row_of s t).rx_bytes)
      × (tx_total s.protocol s.identity t ≡ (row_of s t).tx_bytes)
totals-row_of s t = elim (Option-cases (find s.protocol s.identity t)) [
  | inl absent ↦ rw (absent, row_of) (refl, refl)
  | inr (row, e) ↦ rw (e, row_of) (refl, refl)
]

folded-grows :
    (s : UsageSample) (row : CredentialUsage)
    → (row.rx_bytes ≤ (folded s row).rx_bytes) × (row.tx_bytes ≤ (folded s row).tx_bytes)
unfolding accumulate
folded-grows s row = ground arith

is_for_eq : (p i : ℕ) (s : UsageSample) → is_for p i s ≡ true → (s.protocol ≡ p) × (s.identity ≡ i)
is_for_eq p i s h = ground arith

pub find-apply_self :
    (s : UsageSample) (t : Table)
    → find s.protocol s.identity (apply s t).0 ≡ some (folded s (row_of s t))
find-apply_self s t = rw (find-apply s.protocol s.identity s t) (ground arith)

apply-grows_self :
    (s : UsageSample) (t : Table)
    → (rx_total s.protocol s.identity t ≤ rx_total s.protocol s.identity (apply s t).0)
      × (tx_total s.protocol s.identity t ≤ tx_total s.protocol s.identity (apply s t).0)
apply-grows_self s t =
    rw (find-apply_self s t) (omega (arith, totals-row_of s t, folded-grows s (row_of s t)))

apply-grows :
    (p i : ℕ) (s : UsageSample) (t : Table)
    → (rx_total p i t ≤ rx_total p i (apply s t).0) × (tx_total p i t ≤ tx_total p i (apply s t).0)
apply-grows p i s t = elim (Bool-cases (is_for p i s)) [
  | inl own ↦
      let (e, f) = is_for_eq p i s own in
      subst₂
        (λ q j.
          (rx_total q j t ≤ rx_total q j (apply s t).0)
          × (tx_total q j t ≤ tx_total q j (apply s t).0))
        e f (apply-grows_self s t)
  | inr other ↦ rw (find-apply p i s t, other) (omega arith)
]

record_from-grows :
    (p i : ℕ) (samples : List UsageSample) (t : Table) (n : ℕ)
    → (rx_total p i t ≤ rx_total p i (record_from samples t n).0)
      × (tx_total p i t ≤ tx_total p i (record_from samples t n).0)
unfolding record_from
record_from-grows p i [] t n = omega arith
record_from-grows p i (s ∷ samples) t n = omega (
  arith,
  apply-grows p i s t,
  record_from-grows p i samples (apply s t).0 (if (apply s t).1 then n + 1 else n),
)

-- Recording any samples lowers neither total of any credential.
pub record_samples-grows :
    (p i : ℕ) (samples : List UsageSample) (t : Table)
    → (rx_total p i t ≤ rx_total p i (record_samples samples t).0)
      × (tx_total p i t ≤ tx_total p i (record_samples samples t).0)
unfolding record_samples
record_samples-grows p i samples t = record_from-grows p i samples t 0

insert_missing_found :
    (s : UsageSample) (t : Table) {row : CredentialUsage}
    → find s.protocol s.identity t ≡ some row
    → insert_missing s t ≡ t
unfolding insert_missing
insert_missing_found s [] h = ground arith
insert_missing_found s (r ∷ t) {row} h = ground (arith, insert_missing_found s t {row = row})

-- A sample that was asked for before the reading its row holds changes nothing in the table and
-- counts as no movement.
pub apply_stale :
    (s : UsageSample) (t : Table) {row : CredentialUsage} {last : ℕ}
    → find s.protocol s.identity t ≡ some row
    → row.last_collected_at ≡ some last
    → s.collected_at < last
    → apply s t ≡ (t, false)
unfolding apply
apply_stale s t {row} h e lt = rw (insert_missing_found s t h, h) (ground arith)

folded_twice : (s : UsageSample) (row : CredentialUsage) → folded s (folded s row) ≡ folded s row
unfolding accumulate
folded_twice s row = ground arith

flagged_twice : (s : UsageSample) (row : CredentialUsage) → flagged s (folded s row) ≡ false
unfolding accumulate
flagged_twice s row = ground arith

flagged_iff :
    (s : UsageSample) (row : CredentialUsage)
    → (flagged s row ≡ true)
      ↔ (row.rx_bytes + row.tx_bytes < (folded s row).rx_bytes + (folded s row).tx_bytes)
unfolding accumulate
flagged_iff s row = ground arith

-- Applying one sample a second time changes no credential's row and counts as no movement.
pub apply_again :
    (p i : ℕ) (s : UsageSample) (t : Table)
    → (find p i (apply s (apply s t).0).0 ≡ find p i (apply s t).0)
      × ((apply s (apply s t).0).1 ≡ false)
apply_again p i s t = (find_again, flag_again)
  where
    again : folded s (folded s (row_of s t)) ≡ folded s (row_of s t)
    again = folded_twice s (row_of s t)

    row_again : row_of s (apply s t).0 ≡ folded s (row_of s t)
    row_again = rw (row_of, find-apply_self s t)

    find_again : find p i (apply s (apply s t).0).0 ≡ find p i (apply s t).0
    find_again =
        rw (find-apply p i s (apply s t).0, row_again, again, find-apply p i s t) (ground arith)

    flag_again : (apply s (apply s t).0).1 ≡ false
    flag_again = rw (flag-apply s (apply s t).0, row_again) (flagged_twice s (row_of s t))

-- A sample counts as movement exactly when a total of its credential changed.
pub apply_moved :
    (s : UsageSample) (t : Table)
    → ((apply s t).1 ≡ true) ↔ (
        rx_total s.protocol s.identity t + tx_total s.protocol s.identity t
        < rx_total s.protocol s.identity (apply s t).0
          + tx_total s.protocol s.identity (apply s t).0)
apply_moved s t =
    rw (flag-apply s t, find-apply_self s t, (totals-row_of s t).0, (totals-row_of s t).1)
      (flagged_iff s (row_of s t))

forget_one-keeps :
    (p i at q j : ℕ) (t : Table)
    → (rx_total p i (forget_one at q j t).0 ≡ rx_total p i t)
      × (tx_total p i (forget_one at q j t).0 ≡ tx_total p i t)
unfolding reset_reading
forget_one-keeps p i at q j t = elim (Option-cases (find p i t)) [
  | inl absent ↦ rw (find-forget_one p i at q j t, absent) (refl, refl)
  | inr (row, e) ↦ rw (find-forget_one p i at q j t, e) (ground arith)
]

-- Forgetting readings leaves both totals of every credential as they were.
pub forget_readings-keeps :
    (p i at : ℕ) (gone : List (ℕ × ℕ)) (t : Table)
    → (rx_total p i (forget_readings gone at t).0 ≡ rx_total p i t)
      × (tx_total p i (forget_readings gone at t).0 ≡ tx_total p i t)
unfolding forget_readings
forget_readings-keeps p i at [] t = (refl, refl)
forget_readings-keeps p i at ((q, j) ∷ gone) t = omega (
  arith,
  forget_one-keeps p i at q j t,
  forget_readings-keeps p i at gone (forget_one at q j t).0,
)
