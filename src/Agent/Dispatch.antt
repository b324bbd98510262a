-- ===== src/Agent/Dispatch.antt =====
-- `dispatch_ledgered` of services/vpn-agent/src/nebula_agent/api/_dispatch.py: an operation runs
-- unless its idempotency key is in the ledger. The response model's reading and writing of JSON
-- (pydantic) are parameters, and so is the driver, a function of its own state.
pub mod Retries
use vpn.Prelude.{ℕ, Bool, ◌&&◌, Option, none, some, ◌==◌, if◌then◌else◌}
use vpn.Agent.Ledger.{LedgerEntry, OperationLedger, lookup, record_entry}

pub record Request : Type 0 where
  pub idempotency_key : ℕ
  pub operation_kind : ℕ
  pub target_id : ℕ

-- How `run()` ends.
pub data Ran (R E : Type 0) : Type 0 where
  answered : R → Ran R E
  raised : E → Ran R E

-- How the dispatch ends: the response, the 409, a stored response that does not validate, the
-- exception of `run`, or `KeyError` out of the ledger.
pub data Reply (R E : Type 0) : Type 0 where
  replied : R → Reply R E
  conflict invalid ledger_error : Reply R E
  failed : E → Reply R E

abbrev pub validated : {R E : Type 0} → Option R → Reply R E
validated none = invalid
validated (some r) = replied r

abbrev pub is_same : Request → LedgerEntry → Bool
is_same q cached = (cached.operation_kind == q.operation_kind) && (cached.target_id == q.target_id)

-- The answer to a key that the ledger holds.
abbrev pub replayed : {R E : Type 0} → (ℕ → Option R) → Request → LedgerEntry → Reply R E
replayed validate q cached =
    if is_same q cached then validated (validate cached.response_json) else conflict

abbrev pub entry_for : {R : Type 0} → (R → ℕ) → (R → ℕ) → Request → R → LedgerEntry
entry_for dump generation q r = record {
  idempotency_key = q.idempotency_key;
  operation_kind = q.operation_kind;
  target_id = q.target_id;
  applied_generation = generation r;
  response_json = dump r;
}

abbrev pub stored :
    {R E D : Type 0}
    → R
    → OperationLedger
    → D
    → Option OperationLedger
    → Reply R E × OperationLedger × D
stored r l d none = (ledger_error, l, d)
stored r l d (some l') = (replied r, l', d)

module _ {R E D : Type 0} (validate : ℕ → Option R) (dump generation : R → ℕ) where
  unfoldable pub after_run :
      Request → OperationLedger → Ran R E × D → Reply R E × OperationLedger × D
  after_run q l (answered r, d) = stored r l d (record_entry (entry_for dump generation q r) l)
  after_run q l (raised e, d) = (failed e, l, d)

  unfoldable pub dispatch_cached :
      Request
      → (D → Ran R E × D)
      → OperationLedger
      → D
      → Option LedgerEntry
      → Reply R E × OperationLedger × D
  unfolding after_run
  dispatch_cached q run l d (some cached) = (replayed validate q cached, l, d)
  dispatch_cached q run l d none = after_run q l (run d)

  -- `dispatch_ledgered`
  unfoldable pub dispatch_ledgered :
      Request → (D → Ran R E × D) → OperationLedger → D → Reply R E × OperationLedger × D
  unfolding dispatch_cached
  dispatch_ledgered q run l d = dispatch_cached q run l d (lookup q.idempotency_key l)
