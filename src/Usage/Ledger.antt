-- ===== src/Usage/Ledger.antt =====
-- The running totals of `UsageLedger` (services/api/src/nebula_api/usage/service.py), over the
-- table `credential_usage` (models/usage.py) as a list of rows. Texts and timestamps that the code
-- only compares are numbers.
pub mod View
pub mod Totals
pub mod Process
pub mod Readings
pub mod Overcounts
pub mod Exact
use vpn.Prelude.{
  ℕ, ◌+◌, ◌-◌, Bool, true, false, not, ◌&&◌, ◌||◌, Option, none, some, List, [], ◌∷◌, ◌++◌, ltb,
  leb, ◌==◌, if◌then◌else◌,
}

pub record UsageSample : Type 0 where
  pub protocol : ℕ
  pub identity : ℕ
  pub rx_bytes : ℕ
  pub tx_bytes : ℕ
  pub sampled_at : ℕ
  pub collected_at : ℕ

pub record CredentialUsage : Type 0 where
  pub protocol : ℕ
  pub identity : ℕ
  pub rx_bytes : ℕ
  pub tx_bytes : ℕ
  pub last_rx_reading : ℕ
  pub last_tx_reading : ℕ
  pub last_collected_at : Option ℕ
  pub last_active_at : Option ℕ
  pub updated_at : ℕ

abbrev pub Table : Type 0
Table = List CredentialUsage

-- `protocol == p and identity == i`
abbrev pub has_key : ℕ → ℕ → CredentialUsage → Bool
has_key p i row = (row.protocol == p) && (row.identity == i)

-- `_delta`
abbrev pub delta : ℕ → ℕ → ℕ
delta reading last_reading = if leb last_reading reading then reading - last_reading else reading

-- `_older`
abbrev pub older : ℕ → Option ℕ → Bool
older collected_at none = false
older collected_at (some last) = ltb collected_at last

-- `session.scalar(select(...).where(protocol, identity))`
abbrev pub find : ℕ → ℕ → Table → Option CredentialUsage
find p i [] = none
find p i (row ∷ t) = if has_key p i row then some row else find p i t

-- The row a credential's first sample inserts. `updated_at` is set again in the same call.
abbrev pub fresh : UsageSample → CredentialUsage
fresh s = record {
  protocol = s.protocol;
  identity = s.identity;
  rx_bytes = 0;
  tx_bytes = 0;
  last_rx_reading = 0;
  last_tx_reading = 0;
  last_collected_at = none;
  last_active_at = none;
  updated_at = s.sampled_at;
}

-- `insert ... on_conflict_do_nothing(["protocol", "identity"])`
unfoldable pub insert_missing : UsageSample → Table → Table
insert_missing s [] = fresh s ∷ []
insert_missing s (row ∷ t) =
    if has_key s.protocol s.identity row then row ∷ t else row ∷ insert_missing s t

-- The write of a locked row back to its place.
unfoldable pub put : CredentialUsage → Table → Table
put new [] = []
put new (row ∷ t) = if has_key new.protocol new.identity row then new ∷ t else row ∷ put new t

-- `rx_delta or tx_delta`
abbrev pub moves : UsageSample → CredentialUsage → Bool
moves s row =
    not (delta s.rx_bytes row.last_rx_reading == 0)
    || not (delta s.tx_bytes row.last_tx_reading == 0)

unfoldable pub accumulate : UsageSample → CredentialUsage → CredentialUsage
accumulate s row = record row {
  rx_bytes = row.rx_bytes + delta s.rx_bytes row.last_rx_reading;
  tx_bytes = row.tx_bytes + delta s.tx_bytes row.last_tx_reading;
  last_rx_reading = s.rx_bytes;
  last_tx_reading = s.tx_bytes;
  last_collected_at = some s.collected_at;
  last_active_at = if moves s row then some s.sampled_at else row.last_active_at;
  updated_at = s.sampled_at;
}

-- `_apply`, once the row is locked.
unfoldable pub settle : UsageSample → Table → Option CredentialUsage → Table × Bool
settle s t none = (t, false)
settle s t (some row) =
    if older s.collected_at row.last_collected_at
    then (t, false)
    else (put (accumulate s row) t, moves s row)

-- `_apply`
unfoldable pub apply : UsageSample → Table → Table × Bool
unfolding settle
apply s t = settle s (insert_missing s t) (find s.protocol s.identity (insert_missing s t))

-- `for sample in samples`, counting the credentials that moved.
unfoldable pub record_from : List UsageSample → Table → ℕ → Table × ℕ
record_from [] t moved = (t, moved)
record_from (s ∷ ss) t moved =
    record_from ss (apply s t).0 (if (apply s t).1 then moved + 1 else moved)

-- `record`
unfoldable pub record_samples : List UsageSample → Table → Table × ℕ
unfolding record_from
record_samples samples t = record_from samples t 0

unfoldable pub reset_reading : ℕ → CredentialUsage → CredentialUsage
reset_reading collected_at row = record row {
  last_rx_reading = 0;
  last_tx_reading = 0;
  last_collected_at = some collected_at;
}

-- One turn of the loop of `forget_readings`, once the row is locked.
unfoldable pub forget_row : ℕ → Table → Option CredentialUsage → Table × ℕ
forget_row collected_at t none = (t, 0)
forget_row collected_at t (some row) =
    if older collected_at row.last_collected_at
    then (t, 0)
    else (put (reset_reading collected_at row) t, 1)

unfoldable pub forget_one : ℕ → ℕ → ℕ → Table → Table × ℕ
unfolding forget_row
forget_one collected_at p i t = forget_row collected_at t (find p i t)

-- `forget_readings`
unfoldable pub forget_readings : List (ℕ × ℕ) → ℕ → Table → Table × ℕ
forget_readings [] collected_at t = (t, 0)
forget_readings ((p, i) ∷ gone) collected_at t =
    let (t', n) = forget_one collected_at p i t in
    let (t'', m) = forget_readings gone collected_at t' in (t'', n + m)
