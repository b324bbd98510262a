-- ===== src/Usage/Tests.antt =====
-- Runs of services/api/src/nebula_api/usage at concrete inputs, and the theorems at such inputs.
use vpn.Prelude.{◌+◌, inl, inr, ℕ, ◌≤◌, ◌≡◌, refl, true, false, some, [], ◌∷◌, arith}
use vpn.Usage.Ledger.{
  UsageSample, Table, insert_missing, put, accumulate, forget_one, reset_reading, apply,
  record_samples,
}
use vpn.Usage.Ledger.Totals.{rx_total, tx_total}
use Prim.Native.Nat.{zero, suc}
use vpn.Usage.Ledger.Process.{Step, World, Answered, sample_of, Reach, start, serve, restart, poll}
use vpn.Usage.Ledger.Overcounts.{never_overcounts}
use vpn.Usage.Ledger.Exact.{Kept, kept_exact, bracket_gone}
use vpn.Usage.Counters.{
  CounterReading, Outcome, returned, Environment, Session, keep_counters_across,
}
use vpn.Usage.Counters.Effects.{keep_counters_across-grows}

abbrev sample : ℕ → ℕ → ℕ → UsageSample
sample rx tx at = record {
  protocol = 1;
  identity = 7;
  rx_bytes = rx;
  tx_bytes = tx;
  sampled_at = at;
  collected_at = at;
}

-- A credential with a reading of 100 and 40, taken at 5.
abbrev stored : Table
stored =
    record {
      protocol = 1;
      identity = 7;
      rx_bytes = 300;
      tx_bytes = 50;
      last_rx_reading = 100;
      last_tx_reading = 40;
      last_collected_at = some 5;
      last_active_at = some 5;
      updated_at = 5;
    }
    ∷ []

-- 100 to 160 adds 60; then 20 is a restart and adds 20.
two_readings : rx_total 1 7 (record_samples (sample 160 40 6 ∷ sample 20 41 7 ∷ []) stored).0 ≡ 380
unfolding record_samples apply insert_missing put accumulate
two_readings = refl

-- Traffic, a poll, a crash, and more traffic than was counted before it.
abbrev crashed : World
crashed = poll 1 7 2 (serve 120 9 (restart (poll 1 7 1 (serve 100 8 start))))

-- Two readings that overlap, a crash, and a third; the second is recorded before the first.
abbrev first : Answered
first = record { at = 1; source = serve 100 8 start }

abbrev second : Answered
second = record { at = 2; source = serve 10 0 first.source }

abbrev third : Answered
third = record { at = 3; source = serve 120 9 (restart second.source) }

abbrev overlapped : Table
overlapped =
    (apply (sample_of 1 7 32 third)
      (apply (sample_of 1 7 31 first) (apply (sample_of 1 7 31 second) []).0).0).0

never_overcounts_example : (rx_total 1 7 overlapped ≤ 230) × (tx_total 1 7 overlapped ≤ 17)
never_overcounts_example = never_overcounts 1 7 (
    Reach.next
      (Reach.next
        (Reach.next
          (Reach.next
            (Reach.next
              (Reach.next
                (Reach.next
                  (Reach.next
                    (Reach.next (Reach.next Reach.here (Step.serves 100 8 refl))
                      (Step.answers 1 (omega arith) refl))
                    (Step.serves 10 0 refl))
                  (Step.answers 2 (omega arith) refl))
                (Step.restarts refl))
              (Step.serves 120 9 refl))
            (Step.answers 3 (omega arith) refl))
          (Step.records second 31 (inr (inl refl)) refl))
        (Step.records first 31 (inr (inr (inl refl))) refl))
      (Step.records third 32 (inl refl) refl))

-- A reading of 100, asked for at 5 and answered after one of 90 that was asked for at 6: where the
-- source answers out of order, the second one is taken for that of a restarted process.
overtaken : rx_total 1 7 (record_samples (sample 100 0 5 ∷ sample 90 0 6 ∷ []) []).0 ≡ 190
unfolding record_samples apply insert_missing put accumulate
overtaken = refl

crash_loses : rx_total 1 7 crashed.table ≡ 120
unfolding apply insert_missing put accumulate
crash_loses = refl

abbrev bracketed : World
bracketed = serve 120 9 (bracket_gone 1 7 1 2 5 0 (serve 100 8 start))

kept_exact_example :
    (rx_total 1 7 (poll 1 7 3 bracketed).table + 5 ≡ 225)
    × (tx_total 1 7 (poll 1 7 3 bracketed).table + 0 ≡ 17)
unfolding apply insert_missing put accumulate forget_one reset_reading
kept_exact_example =
    kept_exact 1 7 3
      (Kept.serves 120 9 (Kept.gone 1 2 5 0 refl (omega arith) (Kept.serves 100 8 Kept.begins)))
      refl

abbrev before : CounterReading
before = record { samples = sample 160 40 6 ∷ []; sources_read = 1 ∷ 2 ∷ []; collected_at = 6 }

abbrev after : CounterReading
after = record { samples = []; sources_read = 1 ∷ 2 ∷ []; collected_at = 8 }

-- The second read fails to reach a source once, and the first write is refused.
abbrev env : Environment
env = record {
  answer = λ n. elim n [
    | zero ↦ some before
    | suc m ↦ elim m [ zero ↦ some (record after { sources_read = 2 ∷ [] }) | suc k ↦ some after ]
  ];
  stores = λ n. elim n [ zero ↦ false | suc m ↦ true ];
}

abbrev done : Outcome ℕ
done = returned 5

abbrev session : Session
session = record { table = stored; reads = 0; writes = 0; sleeps = 0 }

keep_counters_across-grows_example :
    (300 ≤ rx_total 1 7 (keep_counters_across env done session).1.table)
    × (50 ≤ tx_total 1 7 (keep_counters_across env done session).1.table)
    × ((keep_counters_across env done session).1.reads ≤ 7)
keep_counters_across-grows_example = keep_counters_across-grows env 1 7 done session
