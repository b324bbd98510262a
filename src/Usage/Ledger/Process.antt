-- ===== src/Usage/Ledger/Process.antt =====
-- A serving process whose counters reset, beside the totals that the control plane keeps of one
-- credential by services/api/src/nebula_api/usage/service.py.
use vpn.Prelude.{ℕ, ◌+◌, ◌<◌, ◌≡◌, ◌⊎◌, false, ◌&&◌, ◌==◌, Option, none, some, List, [], ◌∷◌}
use vpn.Usage.Ledger.{UsageSample, CredentialUsage, Table, apply, forget_one}
use vpn.Usage.Ledger.View.{is_for}

-- What one credential's process has really served, what its counters say, and the stored table.
pub record World : Type 0 where
  pub rx_served : ℕ
  pub tx_served : ℕ
  pub rx_counter : ℕ
  pub tx_counter : ℕ
  pub table : Table

-- A reading of the two counters, asked for at `at`.
abbrev pub reading : ℕ → ℕ → ℕ → World → UsageSample
reading p i at w = record {
  protocol = p;
  identity = i;
  rx_bytes = w.rx_counter;
  tx_bytes = w.tx_counter;
  sampled_at = at;
  collected_at = at;
}

abbrev pub serve : ℕ → ℕ → World → World
serve a b w = record w {
  rx_served = w.rx_served + a;
  tx_served = w.tx_served + b;
  rx_counter = w.rx_counter + a;
  tx_counter = w.tx_counter + b;
}

abbrev pub restart : World → World
restart w = record w { rx_counter = 0; tx_counter = 0 }

-- One reading, recorded before anything else happens.
abbrev pub poll : ℕ → ℕ → ℕ → World → World
poll p i at w = record w { table = (apply (reading p i at w) w.table).0 }

abbrev pub forget : ℕ → ℕ → ℕ → World → World
forget p i at w = record w { table = (forget_one at p i w.table).0 }

-- Before the credential's first sample: nothing served and no row.
abbrev pub start : World
start = record { rx_served = 0; tx_served = 0; rx_counter = 0; tx_counter = 0; table = [] }

abbrev pub last_rx_of : Option CredentialUsage → ℕ
last_rx_of none = 0
last_rx_of (some row) = row.last_rx_reading

abbrev pub last_tx_of : Option CredentialUsage → ℕ
last_tx_of none = 0
last_tx_of (some row) = row.last_tx_reading

abbrev pub collected_of : Option CredentialUsage → Option ℕ
collected_of none = none
collected_of (some row) = row.last_collected_at

-- A reading that was asked for at `at`, as the source was when it answered.
pub record Answered : Type 0 where
  pub at : ℕ
  pub source : World

-- The readings that were answered, the latest first, and when the last of them was asked for.
pub record Run : Type 0 where
  pub world : World
  pub answers : List Answered
  pub last_asked : ℕ

abbrev pub In : Answered → List Answered → Type 0
In r [] = ⊥
In r (x ∷ xs) = (r ≡ x) ⊎ In r xs

abbrev pub starting : Run
starting = record { world = start; answers = []; last_asked = 0 }

-- `sampled_at` is the agent's own time of the answer.
abbrev pub sample_of : ℕ → ℕ → ℕ → Answered → UsageSample
sample_of p i sampled_at r = record (reading p i r.at r.source) { sampled_at = sampled_at }

-- What can happen, in any order: traffic, restarts at any moment, answers of the source to readings
-- in the order in which they were asked for, and recordings of answered readings in any order, at any
-- time later and as often as may be. A reading that found the counter gone forgets the last one.
-- Samples and forgotten readings of other credentials may come at any time.
pub data Step (p i : ℕ) (w v : Run) : Type 0 where
  serves : (a b : ℕ) → v ≡ record w { world = serve a b w.world } → Step p i w v
  restarts : v ≡ record w { world = restart w.world } → Step p i w v
  answers :
      (at : ℕ)
      → w.last_asked < at
      → v ≡ record w { answers = record { at = at; source = w.world } ∷ w.answers; last_asked = at }
      → Step p i w v
  records :
      (r : Answered) (sampled_at : ℕ)
      → In r w.answers
      → v ≡ record w {
        world = record w.world { table = (apply (sample_of p i sampled_at r) w.world.table).0 };
      }
      → Step p i w v
  forgets :
      (r : Answered)
      → In r w.answers
      → r.source.rx_counter ≡ 0
      → r.source.tx_counter ≡ 0
      → v ≡ record w { world = forget p i r.at w.world }
      → Step p i w v
  others :
      (s : UsageSample)
      → is_for p i s ≡ false
      → v ≡ record w { world = record w.world { table = (apply s w.world.table).0 } }
      → Step p i w v
  others_gone :
      (at q j : ℕ)
      → ((q == p) && (j == i)) ≡ false
      → v ≡ record w { world = forget q j at w.world }
      → Step p i w v

pub data Reach (p i : ℕ) (w : Run) : Run → Type 0 where
  here : Reach p i w w
  next : {v u : Run} → Reach p i w v → Step p i v u → Reach p i w u
