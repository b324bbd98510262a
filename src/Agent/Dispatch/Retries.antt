-- ===== src/Agent/Dispatch/Retries.antt =====
-- What a retried request meets in services/vpn-agent/src/nebula_agent/api/_dispatch.py, before and
-- after a restart of the agent.
use mathlib.Core.Path.{subst}
use vpn.Prelude.{true, ℕ, ◌<◌, ◌≡◌, refl, Option, none, some, arith, ==_refl}
use vpn.Agent.Ledger.{OperationLedger, load, lookup}
use vpn.Agent.Ledger.Invariant.{IsValid, is_ended, record_entry-IsValid}
use vpn.Agent.Ledger.Lookup.{lookup-record_entry_new, load_restores}
use vpn.Agent.Dispatch.{
  Request, Ran, answered, replied, entry_for, after_run, dispatch_cached, dispatch_ledgered,
}

module _ {R E D : Type 0} (validate : ℕ → Option R) (dump generation : R → ℕ) where
  -- An operation that ran is answered from the ledger when it is sent again after a restart of the
  -- agent: with the first response, without another run, whatever the driver would do then. The
  -- ledger was well-formed and has room for an entry, its file did not end inside of a line, the key
  -- was new, and the response model reads back what it wrote.
  pub dispatch_ledgered-once :
      (q : Request) (run again : D → Ran R E × D) (l : OperationLedger) (d d' : D) (later : D)
      (r : R)
      → IsValid l
      → is_ended l.file ≡ true
      → 0 < l.max_entries
      → lookup q.idempotency_key l ≡ none
      → run d ≡ (answered r, d')
      → validate (dump r) ≡ some r
      → (l' : OperationLedger) × (dispatch_ledgered validate dump generation q run l d
          ≡ (replied r, l', d'))
        × IsValid l'
        × (is_ended l'.file ≡ true)
        × (dispatch_ledgered validate dump generation q again (load l'.max_entries l'.file) later
            ≡ (replied r, l', later))
  unfolding dispatch_ledgered dispatch_cached after_run
  dispatch_ledgered-once q run again l d d' later r v ended room absent ran reads =
      let e = entry_for dump generation q r in
      let (l', made, found) = lookup-record_entry_new e l v absent room in
      let (l'', made', v', ended', _, _) = record_entry-IsValid e l v ended in
      let same : l'' ≡ l' = ground arith in
      let valid = subst IsValid same v' in
      (
        l',
        rw (absent, ran, made) refl,
        valid,
        subst (λ (x : OperationLedger). is_ended x.file ≡ true) same ended',
        rw (load_restores l' valid, found, ==_refl q.operation_kind, ==_refl q.target_id, reads)
            refl,
      )
