-- ===== src/Agent/Ledger/Torn.antt =====
-- A file of services/vpn-agent/src/nebula_agent/ledger.py that a killed process left without a newline
-- at its end, and the next record.
use vpn.Prelude.{
  ℕ, ◌≤◌, ◌≡◌, ◌∙◌, refl, Bool, true, false, none, some, List, [], ◌∷◌, length, arith, leb, ==_refl,
}
use vpn.Agent.Ledger.{
  LedgerEntry, Line, blank, malformed, scalar, object, parse_entry, OperationLedger, put_order,
  replay, load, lookup, joined_line, record_entry, compact_if_needed,
}
use vpn.Agent.Ledger.Replay.{replay-append}
use vpn.Agent.Ledger.Invariant.{appended}
use vpn.Agent.Ledger.Lookup.{find-put}

-- Nothing but spaces.
abbrev pub is_blank : Line → Bool
is_blank blank = true
is_blank malformed = false
is_blank scalar = false
is_blank (object payload) = false

joined_line-lost :
    (line : Line) (e : LedgerEntry)
    → is_blank line ≡ false
    → parse_entry (joined_line line e) ≡ none
unfolding parse_entry
joined_line-lost blank e h = let bad : true ≡ false = h in ground arith
joined_line-lost malformed e h = refl
joined_line-lost scalar e h = refl
joined_line-lost (object payload) e h = refl

-- When the file's last line is not blank and has no newline, and the ledger does not have to drop a
-- key, recording an entry ends well and its key finds it in memory, but it is lost at a restart: then
-- every key finds what the lines before the unended one gave. The unended line's own entry, if it was
-- whole, is lost too.
pub record_entry-unended :
    (k : ℕ) (e : LedgerEntry) (l : OperationLedger) (lines : List Line) (line : Line)
    → l.file ≡ some (record { lines = lines; unended = some line })
    → is_blank line ≡ false
    → length (put_order e l.entries l.order) ≤ l.max_entries
    → (l' : OperationLedger) × (record_entry e l ≡ some l')
      × (lookup e.idempotency_key l' ≡ some e)
      × (lookup k (load l'.max_entries l'.file)
          ≡ lookup k (load l.max_entries (some (record { lines = lines; unended = none }))))
unfolding record_entry compact_if_needed lookup load replay
record_entry-unended k e l lines line f torn le =
    let fits : leb (length (put_order e l.entries l.order)) l.max_entries ≡ true = ground arith in
    (
      appended e l,
      rw fits refl,
      find-put e.idempotency_key e l.entries ∙ rw (==_refl e.idempotency_key) refl,
      rw (f, replay-append lines (joined_line line e ∷ []) ([], []), joined_line-lost line e torn)
          refl,
    )
