-- ===== src/Usage/Counters/Effects.antt =====
-- What `keep_counters_across` of services/api/src/nebula_api/usage/counters.py leaves alone, and
-- what it may do to the totals.
use vpn.Prelude.{
  ℕ, zero, suc, ◌+◌, ◌≤◌, ◌≡◌, ◌∙◌, inl, inr, refl, Bool, true, false, not, ◌&&◌, Option, none,
  some, List, [], ◌∷◌, contains, Bool-cases, arith, ◌==◌, if◌then◌else◌,
}
use mathlib.Core.Path.{subst₂}
use vpn.Usage.Ledger.{UsageSample, Table, record_samples, forget_readings}
use vpn.Usage.Ledger.Totals.{rx_total, tx_total, record_samples-grows, forget_readings-keeps}
use vpn.Usage.Counters.{
  CounterReading, Outcome, returned, unreachable, agent_error, other_error, Environment, Session,
  is_present, gone_from, read, write, reread, settle_after, after_change, conclude, record_before,
  keep_counters_across,
}

-- Whether a key is among the listed ones.
abbrev pub lists : ℕ → ℕ → List (ℕ × ℕ) → Bool
lists p i [] = false
lists p i ((q, j) ∷ keys) = if (q == p) && (j == i) then true else lists p i keys

abbrev Forgets : ℕ → ℕ → List UsageSample → CounterReading → Type 0
Forgets p i samples after = lists p i (gone_from samples after) ≡ (
    is_present p i samples && (contains p after.sources_read && not (is_present p i after.samples)))

Forgets-self :
    (s : UsageSample) (samples : List UsageSample) (after : CounterReading)
    → Forgets s.protocol s.identity samples after
    → Forgets s.protocol s.identity (s ∷ samples) after
unfolding gone_from
Forgets-self s samples after h = ground arith

-- A counter is forgotten exactly when the first reading had it, the second reading reached its
-- source, and the second reading does not have it.
pub lists-gone_from :
    (p i : ℕ) (samples : List UsageSample) (after : CounterReading)
    → lists p i (gone_from samples after) ≡ (
        is_present p i samples
        && (contains p after.sources_read && not (is_present p i after.samples)))
unfolding gone_from
lists-gone_from p i [] after = refl
lists-gone_from p i (s ∷ samples) after =
    elim (Bool-cases ((s.protocol == p) && (s.identity == i))) [
      | inl own ↦
          let e : s.protocol ≡ p = ground arith in
          let f : s.identity ≡ i = ground arith in
          subst₂ (λ q j. Forgets q j samples after → Forgets q j (s ∷ samples) after) e f
            (Forgets-self s samples after) (lists-gone_from p i samples after)
      | inr other ↦ ground (arith, lists-gone_from p i samples after)
    ]

-- What one recorded reading leaves of a table.
abbrev pub recorded : Bool → Option CounterReading → Table → Table
recorded stored none t = t
recorded stored (some before) t = if stored then (record_samples before.samples t).0 else t

module _ (env : Environment) where
  conclude-result :
      {R : Type 0} (before : Option CounterReading) (change : Outcome R) (st : Session)
      → (conclude env before change st).0 ≡ change
  unfolding conclude
  conclude-result none change st = refl
  conclude-result (some before) (returned r) st = refl
  conclude-result (some before) (unreachable e) st = refl
  conclude-result (some before) (agent_error e) st = refl
  conclude-result (some before) (other_error e) st = refl

  -- However the reads and the writes end, the change's own result is handed on as it is.
  pub keep_counters_across-result :
      {R : Type 0} (change : Outcome R) (st : Session)
      → (keep_counters_across env change st).0 ≡ change
  unfolding keep_counters_across read
  keep_counters_across-result change st =
      conclude-result (env.answer st.reads) change
        (record_before env (env.answer st.reads) (record st { reads = st.reads + 1 }))

  abbrev Grows : ℕ → ℕ → Session → Session → Type 0
  Grows p i st st' =
      (rx_total p i st.table ≤ rx_total p i st'.table)
      × (tx_total p i st.table ≤ tx_total p i st'.table)

  write_record-Grows :
      (p i : ℕ) (samples : List UsageSample) (st : Session)
      → Grows p i st (write env (λ t. (record_samples samples t).0) st)
  unfolding write
  write_record-Grows p i samples st = elim (Bool-cases (env.stores st.writes)) [
    | inl e ↦ rw e (record_samples-grows p i samples st.table)
    | inr e ↦ rw e (omega arith)
  ]

  write_forget-Grows :
      (p i at : ℕ) (gone : List (ℕ × ℕ)) (st : Session)
      → Grows p i st (write env (λ t. (forget_readings gone at t).0) st)
  unfolding write
  write_forget-Grows p i at gone st = elim (Bool-cases (env.stores st.writes)) [
    | inl e ↦ rw e (omega (arith, forget_readings-keeps p i at gone st.table))
    | inr e ↦ rw e (omega arith)
  ]

  reread-table :
      (left : ℕ) (before : CounterReading) (after : Option CounterReading) (st : Session)
      → ((reread env left before after st).1.table ≡ st.table)
        × ((reread env left before after st).1.reads ≤ st.reads + left)
  unfolding reread read
  reread-table zero before none st = (refl, omega arith)
  reread-table zero before (some after) st = (refl, omega arith)
  reread-table (suc left) before none st = (refl, omega arith)
  reread-table (suc left) before (some after) st = ground (
    arith,
    reread-table left before (env.answer st.reads)
        (record st { sleeps = st.sleeps + 1; reads = st.reads + 1 }),
  )

  write-reads : (f : Table → Table) (st : Session) → (write env f st).reads ≡ st.reads
  unfolding write
  write-reads f st = refl

  settle_after-Grows :
      (p i : ℕ) (before : CounterReading) (after : Option CounterReading) (st : Session)
      → Grows p i st (settle_after env before (after, st))
        × ((settle_after env before (after, st)).reads ≡ st.reads)
  unfolding settle_after
  settle_after-Grows p i before none st = (omega arith, refl)
  settle_after-Grows p i before (some after) st =
      let recorded = write env (λ t. (record_samples after.samples t).0) st in
      (
        omega (
          arith,
          write_record-Grows p i after.samples st,
          write_forget-Grows p i after.collected_at (gone_from before.samples after) recorded,
        ),
        write-reads _ recorded ∙ write-reads _ st,
      )

  after_change-Grows :
      (p i : ℕ) (before : CounterReading) (st : Session)
      → Grows p i st (after_change env before st)
        × ((after_change env before st).reads ≤ st.reads + 6)
  unfolding after_change read
  after_change-Grows p i before st =
      let found = reread env 5 before (env.answer st.reads) (record st { reads = st.reads + 1 }) in
      let (same, reads) =
        reread-table 5 before (env.answer st.reads) (record st { reads = st.reads + 1 }) in
      let grown : Grows p i st found.1 = rw same (omega arith) in
      omega (arith, settle_after-Grows p i before found.0 found.1)

  record_before-Grows :
      (p i : ℕ) (before : Option CounterReading) (st : Session)
      → Grows p i st (record_before env before st)
        × ((record_before env before st).reads ≡ st.reads)
  unfolding record_before
  record_before-Grows p i none st = (omega arith, refl)
  record_before-Grows p i (some before) st =
      (write_record-Grows p i before.samples st, write-reads _ st)

  conclude-Grows :
      {R : Type 0} (p i : ℕ) (before : Option CounterReading) (change : Outcome R) (st : Session)
      → Grows p i st (conclude env before change st).1
        × ((conclude env before change st).1.reads ≤ st.reads + 6)
  unfolding conclude
  conclude-Grows p i none change st = omega arith
  conclude-Grows p i (some before) (returned r) st = after_change-Grows p i before st
  conclude-Grows p i (some before) (agent_error e) st = after_change-Grows p i before st
  conclude-Grows p i (some before) (unreachable e) st = omega arith
  conclude-Grows p i (some before) (other_error e) st = omega arith

  -- Around a change no total of any credential goes down, and the agent is read at most seven
  -- times, whatever the reads and the writes answer.
  pub keep_counters_across-grows :
      {R : Type 0} (p i : ℕ) (change : Outcome R) (st : Session)
      → (rx_total p i st.table ≤ rx_total p i (keep_counters_across env change st).1.table)
        × (tx_total p i st.table ≤ tx_total p i (keep_counters_across env change st).1.table)
        × ((keep_counters_across env change st).1.reads ≤ st.reads + 7)
  unfolding keep_counters_across read
  keep_counters_across-grows p i change st =
      let st' = record st { reads = st.reads + 1 } in
      omega (
        arith,
        record_before-Grows p i (env.answer st.reads) st',
        conclude-Grows p i (env.answer st.reads) change
            (record_before env (env.answer st.reads) st'),
      )

  conclude-unreachable :
      {R : Type 0} (before : Option CounterReading) (e : ℕ) (st : Session)
      → let (outcome, st') =
          conclude env {R = R} before (unreachable e) (record_before env before st) in
        (outcome ≡ unreachable e)
        × (st'.reads ≡ st.reads)
        × (st'.table ≡ recorded (env.stores st.writes) before st.table)
  unfolding conclude record_before write
  conclude-unreachable none e st = (refl, refl, refl)
  conclude-unreachable (some before) e st = (refl, refl, refl)

  -- When the agent was never reached, it is read once, and the table holds what that one reading
  -- recorded, or what it held when there was no reading or the database refused it.
  pub keep_counters_across-unreachable :
      {R : Type 0} (e : ℕ) (st : Session)
      → let (outcome, st') = keep_counters_across env {R = R} (unreachable e) st in
        (outcome ≡ unreachable e)
        × (st'.reads ≡ st.reads + 1)
        × (st'.table ≡ recorded (env.stores st.writes) (env.answer st.reads) st.table)
  unfolding keep_counters_across read
  keep_counters_across-unreachable {R} e st =
      conclude-unreachable (env.answer st.reads) e (record st { reads = st.reads + 1 })
