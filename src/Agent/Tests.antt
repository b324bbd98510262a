-- ===== src/Agent/Tests.antt =====
-- Small ledgers for services/vpn-agent/src/nebula_agent/ledger.py, and the theorems about it.
use vpn.Prelude.{
  arith, true, ℕ, ◌+◌, ◌≤◌, ◌≡◌, refl, none, some, List, [], ◌∷◌, length, contains, if◌then◌else◌,
  ◌==◌,
}
use vpn.Agent.Ledger.{
  LedgerEntry, Line, malformed, Field, object, OperationLedger, parse_entry, entry_line, load,
  lookup, record_entry, replay,
}
use vpn.Agent.Ledger.Invariant.{IsValid, is_ended, load-IsValid, record_entry-IsValid}
use vpn.Agent.Ledger.Lookup.{evicted, lookup-record_entry}
use vpn.Agent.Ledger.Torn.{record_entry-unended}

abbrev pub entry : ℕ → LedgerEntry
entry key = record {
  idempotency_key = key;
  operation_kind = 1;
  target_id = 40 + key;
  applied_generation = 7;
  response_json = 50 + key;
}

-- A file with a torn line between two entries, and a field too many in its last line.
abbrev lines : List Line
lines =
    entry_line (entry 1) ∷ malformed ∷ entry_line (entry 2) ∷ object ((Field.other 0, 3) ∷ []) ∷ []

-- Room for two entries, and both taken.
abbrev pub full : OperationLedger
full = load 2 (some (record { lines = lines; unended = none }))

pub full-IsValid : IsValid full
full-IsValid = load-IsValid 2 (some (record { lines = lines; unended = none }))

pub full-is_ended : is_ended full.file ≡ true
unfolding load
full-is_ended = refl

load_order : full.order ≡ 1 ∷ 2 ∷ []
unfolding load replay parse_entry entry_line
load_order = refl

pub load_found : lookup 2 full ≡ some (entry 2)
unfolding load lookup replay parse_entry entry_line
load_found = refl

record_entry-IsValid_example :
    (l' : OperationLedger) × (record_entry (entry 3) full ≡ some l')
    × IsValid l'
    × (is_ended l'.file ≡ true)
    × (length l'.order ≤ l'.max_entries)
    × (l'.max_entries ≡ full.max_entries)
record_entry-IsValid_example = record_entry-IsValid (entry 3) full full-IsValid full-is_ended

-- Key 1 is the oldest of three, where two fit.
lookup-record_entry_example :
    (l' : OperationLedger) × (record_entry (entry 3) full ≡ some l')
    × (lookup 1 l' ≡ (
        if contains 1 (evicted (entry 3) full)
        then none
        else (if (entry 3).idempotency_key == 1 then some (entry 3) else lookup 1 full)))
lookup-record_entry_example = lookup-record_entry 1 (entry 3) full full-IsValid

evicts_oldest : evicted (entry 3) full ≡ 1 ∷ []
unfolding load replay parse_entry entry_line
evicts_oldest = refl

pub unknown : lookup 3 full ≡ none
unfolding load lookup replay parse_entry entry_line
unknown = refl

-- The process was killed inside of the entry's line, and the next one is recorded.
abbrev torn : OperationLedger
torn = load 3 (some (record { lines = entry_line (entry 1) ∷ []; unended = some malformed }))

record_entry-unended_example :
    (l' : OperationLedger) × (record_entry (entry 2) torn ≡ some l')
    × (lookup 2 l' ≡ some (entry 2))
    × (lookup 2 (load l'.max_entries l'.file)
        ≡ lookup 2 (load 3 (some (record { lines = entry_line (entry 1) ∷ []; unended = none }))))
unfolding load replay parse_entry entry_line
record_entry-unended_example =
    record_entry-unended 2 (entry 2) torn (entry_line (entry 1) ∷ []) malformed refl refl
      (omega arith)
