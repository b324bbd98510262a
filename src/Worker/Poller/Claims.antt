-- ===== src/Worker/Poller/Claims.antt =====
-- Which rows `claim_batch` of services/worker/src/nebula_worker/poller.py takes.
use mathlib.Core.Path.{subst}
use vpn.Prelude.{
  ℕ, zero, suc, ◌+◌, ◌≤◌, ◌≡◌, ◌∙◌, ap, sym, refl, Bool, true, false, ◌||◌, Option, none, some,
  List, [], ◌∷◌, map, length, take, keep, contains, inl, inr, Bool-cases, arith, ◌==◌,
  if◌then◌else◌,
}
use vpn.Worker.Poller.{
  EmailDelivery, Outbox, Settings, ids, update, claim_of, is_due, insert, by_available_at, selected,
  leased, claim_batch,
}
use vpn.Worker.Poller.Rows.{
  find, find_id, find-ids, find-update, ids-update, updated, claim_ids, IsDistinct,
}

-- Whether there is a row, and it passes the test.
abbrev pub passes : (EmailDelivery → Bool) → Option EmailDelivery → Bool
passes p none = false
passes p (some row) = p row

contains-insert :
    (k : ℕ) (row : EmailDelivery) (rows : List EmailDelivery)
    → contains k (ids (insert row rows)) ≡ (row.id == k) || contains k (ids rows)
unfolding insert
contains-insert k row [] = refl
contains-insert k row (r ∷ rows) = ground (arith, contains-insert k row rows)

contains-by_available_at :
    (k : ℕ) (rows : List EmailDelivery)
    → contains k (ids (by_available_at rows)) ≡ contains k (ids rows)
unfolding by_available_at
contains-by_available_at k [] = refl
contains-by_available_at k (row ∷ rows) =
    contains-insert k row (by_available_at rows)
    ∙ ap (λ b. (row.id == k) || b) (contains-by_available_at k rows)

contains-take :
    (k n : ℕ) (rows : List EmailDelivery)
    → contains k (ids (take n rows)) ≡ true
    → contains k (ids rows) ≡ true
contains-take k zero rows h = ground arith
contains-take k (suc n) [] h = ground arith
contains-take k (suc n) (row ∷ rows) h = ground (arith, contains-take k n rows)

pub contains-ids-keep :
    (p : EmailDelivery → Bool) (k : ℕ) (rows : List EmailDelivery)
    → IsDistinct (ids rows)
    → contains k (ids (keep p rows)) ≡ passes p (find k rows)
contains-ids-keep p k [] h = refl
contains-ids-keep p k (row ∷ rows) h = elim (Bool-cases (row.id == k)) [
  | inl same ↦
      let e : row.id ≡ k = ground arith in
      let gone = find-ids k rows (subst (λ j. contains j (ids rows) ≡ false) e h.0) in
      let rest = contains-ids-keep p k rows h.1 ∙ ap (passes p) gone in
      elim (Bool-cases (p row)) [
        | inl hit ↦ rw (hit, same, hit) refl
        | inr miss ↦ rw (miss, same, miss) rest
      ]
  | inr other ↦ elim (Bool-cases (p row)) [
    | inl hit ↦ rw (hit, other) (contains-ids-keep p k rows h.1)
    | inr miss ↦ rw (miss, other) (contains-ids-keep p k rows h.1)
  ]
]

-- What is selected is due.
pub selected_due :
    (k n now : ℕ) (rows : List EmailDelivery)
    → IsDistinct (ids rows)
    → contains k (selected n now rows) ≡ true
    → passes (is_due now) (find k rows) ≡ true
unfolding selected
selected_due k n now rows h c =
    sym (contains-ids-keep (is_due now) k rows h)
    ∙ sym (contains-by_available_at k (keep (is_due now) rows))
    ∙ contains-take k n (by_available_at (keep (is_due now) rows)) c

pub not_selected :
    (k n now : ℕ) (rows : List EmailDelivery)
    → IsDistinct (ids rows)
    → passes (is_due now) (find k rows) ≡ false
    → contains k (selected n now rows) ≡ false
not_selected k n now rows h e = elim (Bool-cases (contains k (selected n now rows))) [
  | inl hit ↦ ground (arith, selected_due k n now rows h hit)
  | inr miss ↦ miss
]

ids-claims : (rows : List EmailDelivery) → claim_ids (map claim_of rows) ≡ ids rows
ids-claims [] = refl
ids-claims (row ∷ rows) = ap (λ ks. row.id ∷ ks) (ids-claims rows)

-- The list without the first occurrence of an id.
abbrev without : ℕ → List ℕ → List ℕ
without k [] = []
without k (j ∷ js) = if j == k then js else j ∷ without k js

length-without :
    (k : ℕ) (js : List ℕ) → contains k js ≡ true → length js ≡ suc (length (without k js))
length-without k [] h = ground arith
length-without k (j ∷ js) h = ground (arith, length-without k js)

contains-without :
    (i k : ℕ) (js : List ℕ) → (i == k) ≡ false → contains i (without k js) ≡ contains i js
contains-without i k [] h = refl
contains-without i k (j ∷ js) h = ground (arith, contains-without i k js)

keep-without :
    (k : ℕ) (js : List ℕ) (rows : List EmailDelivery)
    → contains k (ids rows) ≡ false
    → keep (λ r. contains r.id (without k js)) rows ≡ keep (λ r. contains r.id js) rows
keep-without k js [] h = refl
keep-without k js (row ∷ rows) h =
    let other : (row.id == k) ≡ false = ground arith in
    rw (contains-without row.id k js other, keep-without k js rows (ground arith)) refl

length-keep_listed :
    (js : List ℕ) (rows : List EmailDelivery)
    → IsDistinct (ids rows)
    → length (keep (λ r. contains r.id js) rows) ≤ length js
length-keep_listed js [] h = omega arith
length-keep_listed js (row ∷ rows) h = elim (Bool-cases (contains row.id js)) [
  | inl hit ↦
      rw (hit, ← keep-without row.id js rows h.0)
        (omega
          (arith, length-keep_listed (without row.id js) rows h.1, length-without row.id js hit))
  | inr miss ↦ rw miss (length-keep_listed js rows h.1)
]

length-ids-take : (n : ℕ) (rows : List EmailDelivery) → length (ids (take n rows)) ≤ n
length-ids-take zero rows = omega arith
length-ids-take (suc n) [] = omega arith
length-ids-take (suc n) (row ∷ rows) = omega (arith, length-ids-take n rows)

length-map_claims : (rows : List EmailDelivery) → length (map claim_of rows) ≡ length rows
length-map_claims [] = refl
length-map_claims (row ∷ rows) = omega (arith, length-map_claims rows)

-- A batch has no more deliveries than the batch size, for rows with different ids.
pub length-claim_batch :
    (s : Settings) (now : ℕ) (box : Outbox)
    → IsDistinct (ids box.rows)
    → length (claim_batch s now box).1 ≤ s.batch_size
unfolding claim_batch selected
length-claim_batch s now box h =
    let sel = ids (take s.batch_size (by_available_at (keep (is_due now) box.rows))) in
    omega (
      arith,
      length-map_claims (keep (λ r. contains r.id sel) box.rows),
      length-keep_listed sel box.rows h,
      length-ids-take s.batch_size (by_available_at (keep (is_due now) box.rows)),
    )

-- Whether an id is among the claims.
claim_batch-claims :
    (k : ℕ) (s : Settings) (now : ℕ) (box : Outbox)
    → IsDistinct (ids box.rows)
    → contains k (claim_ids (claim_batch s now box).1)
      ≡ passes (λ r. contains r.id (selected s.batch_size now box.rows)) (find k box.rows)
unfolding claim_batch
claim_batch-claims k s now box h =
    let chosen : EmailDelivery → Bool = λ r. contains r.id (selected s.batch_size now box.rows) in
    ap (contains k) (ids-claims (keep chosen box.rows)) ∙ contains-ids-keep chosen k box.rows h

leased_not_due :
    (sel : List ℕ) (until now : ℕ) (o : Option EmailDelivery)
    → passes (λ r. contains r.id sel) o ≡ true
    → passes (is_due now) (updated (λ r. contains r.id sel) (leased until) o) ≡ false
leased_not_due sel until now none h = refl
leased_not_due sel until now (some row) h = rw h refl

passes_listed :
    (sel : List ℕ) (k : ℕ) (o : Option EmailDelivery)
    → ((row : EmailDelivery) → o ≡ some row → row.id ≡ k)
    → contains k sel ≡ false
    → passes (λ r. contains r.id sel) o ≡ false
passes_listed sel k none h c = refl
passes_listed sel k (some row) h c = ap (λ j. contains j sel) (h row refl) ∙ c

-- Of rows with different ids, two claims, the second at any later or earlier time, never take the same delivery: what the first
-- one took is not due until it is given back.
pub claim_batch-disjoint :
    (k : ℕ) (s s' : Settings) (now now' : ℕ) (box : Outbox)
    → IsDistinct (ids box.rows)
    → contains k (claim_ids (claim_batch s now box).1) ≡ true
    → contains k (claim_ids (claim_batch s' now' (claim_batch s now box).0).1) ≡ false
unfolding claim_batch
claim_batch-disjoint k s s' now now' box h c =
    let sel = selected s.batch_size now box.rows in
    let held = update (λ r. contains r.id sel) (leased (now + s.lease_seconds)) box.rows in
    let distinct : IsDistinct (ids held) =
      rw
        (ids-update (λ r. contains r.id sel) (leased (now + s.lease_seconds)) box.rows
          (λ row. refl))
        h in
    let taken = sym (claim_batch-claims k s now box h) ∙ c in
    let not_due =
      ap (passes (is_due now')) (
        find-update (λ r. contains r.id sel) (leased (now + s.lease_seconds)) k box.rows
          (λ row. refl))
      ∙ leased_not_due sel (now + s.lease_seconds) now' (find k box.rows) taken in
    claim_batch-claims k s' now' (claim_batch s now box).0 distinct
    ∙ passes_listed (selected s'.batch_size now' held) k (find k held) (λ row e. find_id k held e)
        (not_selected k s'.batch_size now' held distinct not_due)
