-- ===== src/Usage/Counters.antt =====
-- Readings around a change that resets counters: `keep_counters_across` of
-- services/api/src/nebula_api/usage/counters.py. The agent's answers, and whether the database
-- takes a write, are an environment that answers the n-th read and the n-th write.
pub mod Effects
use vpn.Prelude.{
  ℕ, zero, suc, ◌+◌, Bool, true, false, not, ◌&&◌, Option, none, some, List, [], ◌∷◌, contains,
  ◌==◌, if◌then◌else◌,
}
use vpn.Usage.Ledger.{UsageSample, Table, record_samples, forget_readings}

-- `sources_failed` is never looked at.
pub record CounterReading : Type 0 where
  pub samples : List UsageSample
  pub sources_read : List ℕ
  pub collected_at : ℕ

-- How the change's own call ends: `AgentUnreachable`, another `AgentClientError`, or any other
-- exception.
pub data Outcome (R : Type 0) : Type 0 where
  returned : R → Outcome R
  unreachable : ℕ → Outcome R
  agent_error : ℕ → Outcome R
  other_error : ℕ → Outcome R

-- `none` is a read that `_read` gives up on; `false` is a write that raises `SQLAlchemyError`.
pub record Environment : Type 0 where
  pub answer : ℕ → Option CounterReading
  pub stores : ℕ → Bool

pub record Session : Type 0 where
  pub table : Table
  pub reads : ℕ
  pub writes : ℕ
  pub sleeps : ℕ

abbrev pub after_change_read_attempts : ℕ
after_change_read_attempts = 6

-- `before.sources_read <= after.sources_read`
abbrev pub covers : List ℕ → List ℕ → Bool
covers [] found = true
covers (p ∷ wanted) found = contains p found && covers wanted found

-- `(protocol, identity) in present`
abbrev pub is_present : ℕ → ℕ → List UsageSample → Bool
is_present p i [] = false
is_present p i (s ∷ samples) =
    if (s.protocol == p) && (s.identity == i) then true else is_present p i samples

abbrev pub is_gone : CounterReading → UsageSample → Bool
is_gone after s =
    contains s.protocol after.sources_read && not (is_present s.protocol s.identity after.samples)

-- The comprehension that lists the counters of the first reading that the second no longer has.
unfoldable pub gone_from : List UsageSample → CounterReading → List (ℕ × ℕ)
gone_from [] after = []
gone_from (s ∷ samples) after =
    if is_gone after s
    then (s.protocol, s.identity) ∷ gone_from samples after
    else gone_from samples after

module _ (env : Environment) where
  -- `_read`
  unfoldable pub read : Session → Option CounterReading × Session
  read st = (env.answer st.reads, record st { reads = st.reads + 1 })

  -- `_write`: a refused write rolls its transaction back.
  unfoldable pub write : (Table → Table) → Session → Session
  write f st = record st {
    table = if env.stores st.writes then f st.table else st.table;
    writes = st.writes + 1;
  }

  -- The `while` of `_after_change`, with the attempts that are left.
  unfoldable pub reread :
      ℕ → CounterReading → Option CounterReading → Session → Option CounterReading × Session
  unfolding read
  reread left before none st = (none, st)
  reread zero before (some after) st = (some after, st)
  reread (suc left) before (some after) st =
      let (next, st') = read (record st { sleeps = st.sleeps + 1 }) in
      let rest = reread left before next st' in
      if covers before.sources_read after.sources_read then (some after, st) else rest

  unfoldable pub settle_after : CounterReading → Option CounterReading × Session → Session
  settle_after before (none, st) = st
  settle_after before (some after, st) =
      write (λ t. (forget_readings (gone_from before.samples after) after.collected_at t).0)
        (write (λ t. (record_samples after.samples t).0) st)

  -- `_after_change`
  unfoldable pub after_change : CounterReading → Session → Session
  after_change before st =
      let (after, st') = read st in settle_after before (reread 5 before after st')

  -- What follows the change, by how it ended.
  unfoldable pub conclude :
      {R : Type 0} → Option CounterReading → Outcome R → Session → Outcome R × Session
  conclude none outcome st = (outcome, st)
  conclude (some before) (returned r) st = (returned r, after_change before st)
  conclude (some before) (agent_error e) st = (agent_error e, after_change before st)
  conclude (some before) (unreachable e) st = (unreachable e, st)
  conclude (some before) (other_error e) st = (other_error e, st)

  unfoldable pub record_before : Option CounterReading → Session → Session
  record_before none st = st
  record_before (some before) st = write (λ t. (record_samples before.samples t).0) st

  -- `keep_counters_across`
  unfoldable pub keep_counters_across : {R : Type 0} → Outcome R → Session → Outcome R × Session
  keep_counters_across change st =
      let (before, st') = read st in conclude before change (record_before before st')
