-- ===== src/Usage/Ledger/Exact.antt =====
-- Where every restart stands between a reading before it and a reading after it, as
-- services/api/src/nebula_api/usage/counters.py arranges.
use mathlib.Core.Path.{subst}
use vpn.Prelude.{
  ℕ, ◌+◌, ◌-◌, ◌≤◌, ◌<◌, ◌≡◌, ◌⊎◌, inl, inr, refl, Bool, true, false, ◌&&◌, ◌==◌, Option, some,
  Option-cases, arith,
}
use vpn.Usage.Ledger.{CredentialUsage, older, find, accumulate, reset_reading}
use vpn.Usage.Ledger.View.{row_of, folded, forgotten_if, find-forget_one}
use vpn.Usage.Ledger.Totals.{rx_of, tx_of, rx_total, tx_total, find-apply_self}
use vpn.Usage.Ledger.Process.{
  World, reading, serve, restart, poll, forget, last_rx_of, last_tx_of, start, collected_of,
}

-- A reading asked for at `at` is not older than what the row holds.
abbrev pub IsFresh : ℕ → ℕ → ℕ → World → Type 0
IsFresh p i at w = older at (collected_of (find p i w.table)) ≡ false

-- The counters are past the last readings, and the totals lack only what they are past by and the
-- given bytes.
abbrev pub Exact : ℕ → ℕ → Option CredentialUsage → World → Type 0
Exact l m o w =
    (last_rx_of o ≤ w.rx_counter)
    × (rx_of o + (w.rx_counter - last_rx_of o) + l ≡ w.rx_served)
    × (last_tx_of o ≤ w.tx_counter)
    × (tx_of o + (w.tx_counter - last_tx_of o) + m ≡ w.tx_served)

abbrev pub IsExact : ℕ → ℕ → ℕ → ℕ → World → Type 0
IsExact p i l m w = Exact l m (find p i w.table) w

-- A restart between two readings, the second of which does not find the counter. The source serves
-- some more bytes between the first one and the restart.
abbrev pub bracket_gone : ℕ → ℕ → ℕ → ℕ → ℕ → ℕ → World → World
bracket_gone p i before after c d w = forget p i after (restart (serve c d (poll p i before w)))

-- A restart between two readings, the second of which finds what was served since.
abbrev pub bracket_read : ℕ → ℕ → ℕ → ℕ → ℕ → ℕ → ℕ → ℕ → World → World
bracket_read p i before after c d a b w =
    poll p i after (serve a b (restart (serve c d (poll p i before w))))

-- What was served since the restart does not reach the reading before it.
abbrev pub Below : ℕ → ℕ → Type 0
Below served counter = (served < counter) ⊎ (counter ≡ 0)

-- A run in which no restart is unobserved, with the bytes that were served between the first reading
-- of a bracket and its restart.
pub data Kept (p i : ℕ) : World → ℕ → ℕ → Type 0 where
  begins : Kept p i start 0 0
  serves : (a b : ℕ) {w : World} {l m : ℕ} → Kept p i w l m → Kept p i (serve a b w) l m
  polls :
      (at : ℕ) {w : World} {l m : ℕ}
      → IsFresh p i at w
      → Kept p i w l m
      → Kept p i (poll p i at w) l m
  gone :
      (before after c d : ℕ) {w : World} {l m : ℕ}
      → IsFresh p i before w
      → before ≤ after
      → Kept p i w l m
      → Kept p i (bracket_gone p i before after c d w) (l + c) (m + d)
  read :
      (before after c d a b : ℕ) {w : World} {l m : ℕ}
      → IsFresh p i before w
      → before ≤ after
      → Below a w.rx_counter
      → Below b w.tx_counter
      → Kept p i w l m
      → Kept p i (bracket_read p i before after c d a b w) (l + c) (m + d)

-- After a reading of its own the row holds what was served but for the given bytes, and the counters as they are.
record IsSettled (at l m : ℕ) (w : World) (row : CredentialUsage) : Type 0 where
  rx_exact : row.rx_bytes + l ≡ w.rx_served
  tx_exact : row.tx_bytes + m ≡ w.tx_served
  rx_last : row.last_rx_reading ≡ w.rx_counter
  tx_last : row.last_tx_reading ≡ w.tx_counter
  collected : row.last_collected_at ≡ some at

folded-IsSettled :
    (p i at l m : ℕ) (w : World) (row : CredentialUsage)
    → Exact l m (some row) w
    → older at row.last_collected_at ≡ false
    → IsSettled at l m w (folded (reading p i at w) row)
unfolding accumulate
folded-IsSettled p i at l m w row h f = ground arith

row_of-Exact :
    (p i at l m : ℕ) (w : World)
    → IsExact p i l m w
    → Exact l m (some (row_of (reading p i at w) w.table)) w
row_of-Exact p i at l m w h = elim (Option-cases (find p i w.table)) [
  | inl absent ↦ rw (absent, row_of) (subst (λ o. Exact l m o w) absent h)
  | inr (row, e) ↦ rw (e, row_of) (subst (λ o. Exact l m o w) e h)
]

row_of-fresh :
    (p i at : ℕ) (w : World)
    → IsFresh p i at w
    → older at (row_of (reading p i at w) w.table).last_collected_at ≡ false
row_of-fresh p i at w h = elim (Option-cases (find p i w.table)) [
  | inl absent ↦ rw (absent, row_of) refl
  | inr (row, e) ↦ rw (e, row_of) (subst (λ o. older at (collected_of o) ≡ false) e h)
]

poll_settles :
    (p i at l m : ℕ) (w : World)
    → IsExact p i l m w
    → IsFresh p i at w
    → (row : CredentialUsage) × (find p i (poll p i at w).table ≡ some row) × IsSettled at l m w row
poll_settles p i at l m w h f = (
  folded (reading p i at w) (row_of (reading p i at w) w.table),
  find-apply_self (reading p i at w) w.table,
  folded-IsSettled p i at l m w (row_of (reading p i at w) w.table) (row_of-Exact p i at l m w h)
      (row_of-fresh p i at w f),
)

settled-Exact :
    (at l m : ℕ) (w : World) (row : CredentialUsage)
    → IsSettled at l m w row
    → Exact l m (some row) w
settled-Exact at l m w row s = ground arith

poll-IsExact :
    (p i at l m : ℕ) (w : World)
    → IsExact p i l m w
    → IsFresh p i at w
    → IsExact p i l m (poll p i at w)
poll-IsExact p i at l m w h f =
    let (row, e, s) = poll_settles p i at l m w h f in rw e (settled-Exact at l m w row s)

serve-Exact :
    (a b l m : ℕ) (o : Option CredentialUsage) (w : World)
    → Exact l m o w
    → Exact l m o (serve a b w)
serve-Exact a b l m o w h = ground arith

-- What was served between the reading and the restart is lost.
forgotten-Exact :
    (own : Bool) (before after l m c d : ℕ) (w : World) (row : CredentialUsage)
    → own ≡ true
    → IsSettled before l m w row
    → before ≤ after
    → Exact (l + c) (m + d) (forgotten_if own after (some row)) (restart (serve c d w))
unfolding reset_reading
forgotten-Exact own before after l m c d w row e s le = ground arith

gone-IsExact :
    (p i before after l m c d : ℕ) (w : World)
    → IsExact p i l m w
    → IsFresh p i before w
    → before ≤ after
    → IsExact p i (l + c) (m + d) (bracket_gone p i before after c d w)
gone-IsExact p i before after l m c d w h f le =
    let (row, e, s) = poll_settles p i before l m w h f in
    rw (find-forget_one p i after p i (poll p i before w).table, e)
      (forgotten-Exact ((p == p) && (i == i)) before after l m c d w row (ground arith) s le)

polled-IsSettled :
    (p i at l m : ℕ) (w : World) (row : CredentialUsage)
    → IsSettled at l m w row
    → IsSettled at l m (poll p i at w) row
polled-IsSettled p i at l m w row s = record {
  rx_exact = s.rx_exact;
  tx_exact = s.tx_exact;
  rx_last = s.rx_last;
  tx_last = s.tx_last;
  collected = s.collected;
}

-- A second reading below the first, after a restart, adds all of itself.
reread-Exact :
    (p i before after l m c d a b : ℕ) (w v : World) (row : CredentialUsage)
    → v ≡ serve a b (restart (serve c d w))
    → IsSettled before l m w row
    → before ≤ after
    → Below a w.rx_counter
    → Below b w.tx_counter
    → Exact (l + c) (m + d) (some (folded (reading p i after v) row)) v
unfolding accumulate
reread-Exact p i before after l m c d a b w v row e s le ra rb = ground arith

read-IsExact :
    (p i before after l m c d a b : ℕ) (w : World)
    → IsExact p i l m w
    → IsFresh p i before w
    → before ≤ after
    → Below a w.rx_counter
    → Below b w.tx_counter
    → IsExact p i (l + c) (m + d) (bracket_read p i before after c d a b w)
read-IsExact p i before after l m c d a b w h f le ra rb =
    let (row, e, s) = poll_settles p i before l m w h f in
    let v = serve a b (restart (serve c d (poll p i before w))) in
    rw (find-apply_self (reading p i after v) v.table, row_of, e)
      (reread-Exact p i before after l m c d a b (poll p i before w) v row refl
        (polled-IsSettled p i before l m w row s) le ra rb)

Kept-IsExact : (p i : ℕ) {w : World} {l m : ℕ} → Kept p i w l m → IsExact p i l m w
Kept-IsExact p i begins = omega arith
Kept-IsExact p i (serves a b {w} {l} {m} k) =
    serve-Exact a b l m (find p i w.table) w (Kept-IsExact p i k)
Kept-IsExact p i (polls at {w} {l} {m} f k) = poll-IsExact p i at l m w (Kept-IsExact p i k) f
Kept-IsExact p i (gone before after c d {w} {l} {m} f le k) =
    gone-IsExact p i before after l m c d w (Kept-IsExact p i k) f le
Kept-IsExact p i (read before after c d a b {w} {l} {m} f le ra rb k) =
    read-IsExact p i before after l m c d a b w (Kept-IsExact p i k) f le ra rb

-- In a run whose readings are each recorded before anything else happens, and whose restarts all
-- stand between two readings, the second of which no longer finds the counter or finds less than the
-- first one did (or the first was zero), what is lost is exactly what was served between the first of
-- these readings and the restart: a reading that is not older than the stored one makes both totals
-- what was served less that.
pub kept_exact :
    (p i at : ℕ) {w : World} {l m : ℕ}
    → Kept p i w l m
    → IsFresh p i at w
    → (rx_total p i (poll p i at w).table + l ≡ w.rx_served)
      × (tx_total p i (poll p i at w).table + m ≡ w.tx_served)
kept_exact p i at {w} {l} {m} k f =
    let (row, e, s) = poll_settles p i at l m w (Kept-IsExact p i k) f in
    rw e (s.rx_exact, s.tx_exact)
