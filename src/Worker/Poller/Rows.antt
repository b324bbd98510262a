-- ===== src/Worker/Poller/Rows.antt =====
-- One row of `email_deliveries` at a time: what each statement of
-- services/worker/src/nebula_worker/poller.py leaves of the row with a given id.
use mathlib.Core.Path.{subst}
use vpn.Prelude.{
  ℕ, ◌≡◌, ◌∙◌, ap, refl, Bool, true, false, Option, none, some, List, [], ◌∷◌, map, keep, contains,
  inl, inr, Bool-cases, arith, ◌==◌, if◌then◌else◌,
}
use vpn.Worker.Poller.{EmailDelivery, ClaimedDelivery, ids, update, claim_of}

abbrev pub find : ℕ → List EmailDelivery → Option EmailDelivery
find k [] = none
find k (row ∷ rows) = if row.id == k then some row else find k rows

abbrev pub IsDistinct : List ℕ → Type 0
IsDistinct [] = Unit
IsDistinct (k ∷ ks) = (contains k ks ≡ false) × IsDistinct ks

-- A row that an `UPDATE` meets.
abbrev pub updated :
    (EmailDelivery → Bool)
    → (EmailDelivery → EmailDelivery)
    → Option EmailDelivery
    → Option EmailDelivery
updated p f none = none
updated p f (some row) = some (if p row then f row else row)

pub ids-update :
    (p : EmailDelivery → Bool) (f : EmailDelivery → EmailDelivery) (rows : List EmailDelivery)
    → ((row : EmailDelivery) → (f row).id ≡ row.id)
    → ids (update p f rows) ≡ ids rows
ids-update p f [] h = refl
ids-update p f (row ∷ rows) h = elim (Bool-cases (p row)) [
  | inl hit ↦ rw (hit, h row, ids-update p f rows h) refl
  | inr miss ↦ rw (miss, ids-update p f rows h) refl
]

pub find-update :
    (p : EmailDelivery → Bool) (f : EmailDelivery → EmailDelivery) (k : ℕ)
    (rows : List EmailDelivery)
    → ((row : EmailDelivery) → (f row).id ≡ row.id)
    → find k (update p f rows) ≡ updated p f (find k rows)
find-update p f k [] h = refl
find-update p f k (row ∷ rows) h = elim (Bool-cases (row.id == k)) [
  | inl same ↦ elim (Bool-cases (p row)) [
    | inl hit ↦
        let same' : ((f row).id == k) ≡ true = ap (λ j. j == k) (h row) ∙ same in
        rw (hit, same', same, hit) refl
    | inr miss ↦ rw (miss, same, miss) refl
  ]
  | inr other ↦ elim (Bool-cases (p row)) [
    | inl hit ↦
        let other' : ((f row).id == k) ≡ false = ap (λ j. j == k) (h row) ∙ other in
        rw (hit, other', other) (find-update p f k rows h)
    | inr miss ↦ rw (miss, other) (find-update p f k rows h)
  ]
]

pub find_id :
    (k : ℕ) (rows : List EmailDelivery) {row : EmailDelivery} → find k rows ≡ some row → row.id ≡ k
find_id k [] h = ground arith
find_id k (r ∷ rows) {row} h = ground (arith, find_id k rows {row = row})

pub find-ids :
    (k : ℕ) (rows : List EmailDelivery) → contains k (ids rows) ≡ false → find k rows ≡ none
find-ids k [] h = refl
find-ids k (row ∷ rows) h = ground (arith, find-ids k rows)

abbrev pub find_claim : ℕ → List ClaimedDelivery → Option ClaimedDelivery
find_claim k [] = none
find_claim k (d ∷ ds) = if d.id == k then some d else find_claim k ds

abbrev pub claim_ids : List ClaimedDelivery → List ℕ
claim_ids [] = []
claim_ids (d ∷ ds) = d.id ∷ claim_ids ds

abbrev pub claim_if : (EmailDelivery → Bool) → Option EmailDelivery → Option ClaimedDelivery
claim_if p none = none
claim_if p (some row) = if p row then some (claim_of row) else none

contains-keep :
    (p : EmailDelivery → Bool) (k : ℕ) (rows : List EmailDelivery)
    → contains k (ids rows) ≡ false
    → contains k (claim_ids (map claim_of (keep p rows))) ≡ false
contains-keep p k [] h = refl
contains-keep p k (row ∷ rows) h = ground (arith, contains-keep p k rows)

pub keep-IsDistinct :
    (p : EmailDelivery → Bool) (rows : List EmailDelivery)
    → IsDistinct (ids rows)
    → IsDistinct (claim_ids (map claim_of (keep p rows)))
keep-IsDistinct p [] h = tt
keep-IsDistinct p (row ∷ rows) h = elim (Bool-cases (p row)) [
  | inl hit ↦ rw hit (contains-keep p row.id rows h.0, keep-IsDistinct p rows h.1)
  | inr miss ↦ rw miss (keep-IsDistinct p rows h.1)
]

find_claim-keep-none :
    (p : EmailDelivery → Bool) (k : ℕ) (rows : List EmailDelivery)
    → contains k (ids rows) ≡ false
    → find_claim k (map claim_of (keep p rows)) ≡ none
find_claim-keep-none p k [] h = refl
find_claim-keep-none p k (row ∷ rows) h = ground (arith, find_claim-keep-none p k rows)

pub find_claim-keep :
    (p : EmailDelivery → Bool) (k : ℕ) (rows : List EmailDelivery)
    → IsDistinct (ids rows)
    → find_claim k (map claim_of (keep p rows)) ≡ claim_if p (find k rows)
find_claim-keep p k [] h = refl
find_claim-keep p k (row ∷ rows) h = elim (Bool-cases (row.id == k)) [
  | inl same ↦ elim (Bool-cases (p row)) [
    | inl hit ↦ rw (hit, same, hit) refl
    | inr miss ↦
        let e : row.id ≡ k = ground arith in
        rw (miss, same, miss)
          (find_claim-keep-none p k rows (subst (λ j. contains j (ids rows) ≡ false) e h.0))
  ]
  | inr other ↦ elim (Bool-cases (p row)) [
    | inl hit ↦ rw (hit, other) (find_claim-keep p k rows h.1)
    | inr miss ↦ rw (miss, other) (find_claim-keep p k rows h.1)
  ]
]
