-- ===== src/Agent/DispatchTests.antt =====
-- A driver that counts its runs, for services/vpn-agent/src/nebula_agent/api/_dispatch.py.
use vpn.Prelude.{true, ℕ, ◌+◌, ◌≡◌, refl, Option, some, arith}
use vpn.Agent.Ledger.{OperationLedger, load}
use vpn.Agent.Ledger.Invariant.{IsValid, is_ended}
use vpn.Agent.Tests.{full, full-IsValid, full-is_ended, unknown}
use vpn.Agent.Dispatch.{Request, Ran, answered, replied, dispatch_ledgered}
use vpn.Agent.Dispatch.Retries.{dispatch_ledgered-once}

-- Responses are their own JSON, and the driver's generation is the number of its runs.
abbrev validate : ℕ → Option ℕ
validate json = some json

abbrev dump : ℕ → ℕ
dump r = r

abbrev run : ℕ → Ran ℕ ℕ × ℕ
run d = (answered (d + 1), d + 1)

abbrev request : ℕ → Request
request key = record { idempotency_key = key; operation_kind = 1; target_id = 40 }

dispatch_ledgered-once_example :
    (l' : OperationLedger) × (dispatch_ledgered validate dump dump (request 3) run full 0
      ≡ (replied 1, l', 1))
    × IsValid l'
    × (is_ended l'.file ≡ true)
    × (dispatch_ledgered validate dump dump (request 3) run (load l'.max_entries l'.file) 7
        ≡ (replied 1, l', 7))
unfolding load
dispatch_ledgered-once_example =
    dispatch_ledgered-once validate dump dump (request 3) run run full 0 1 7 1 full-IsValid
      full-is_ended (omega arith) unknown refl refl
