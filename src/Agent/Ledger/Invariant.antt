-- ===== src/Agent/Ledger/Invariant.antt =====
-- The ledger of services/vpn-agent/src/nebula_agent/ledger.py stays well-formed, bounded and equal
-- to what its file gives back.
use mathlib.Core.Path.{subst}
use vpn.Prelude.{
  ◌++◌, not, Bool, is_some, Option-cases, ℕ, ◌-◌, ◌≤◌, ◌≡◌, ◌∙◌, ap, sym, refl, true, false, Option,
  none, some, List, [], ◌∷◌, map, length, take, drop, inl, inr, Bool-cases, arith, leb,
  if◌then◌else◌, length-drop,
}
use vpn.Agent.Ledger.{
  LedgerFile, lines_behind, LedgerEntry, Line, parse_entry, entry_line, OperationLedger, put,
  append_to_disk, remove_all, put_order, replay_entry, replay, file_lines, load, rewrite_lines,
  rewritten, rewrite, compact_if_needed, record_entry,
}
use vpn.Agent.Ledger.Replay.{
  replay-append, replay-entry_line, keys, IsDistinct, keys-put, put_order-IsDistinct,
  drop-IsDistinct, keys-drop, remove_all-take, rewrite_lines-keys, replay-entries,
}

pub record IsValid (l : OperationLedger) : Type 0 where
  pub keyed : keys l.entries ≡ l.order
  pub distinct : IsDistinct l.order
  -- A restart reads back what is in memory.
  pub saved : replay (file_lines l.file) ([], []) ≡ (l.entries, l.order)

abbrev Keyed : List LedgerEntry × List ℕ → Type 0
Keyed (es, order) = (keys es ≡ order) × IsDistinct order

replay_entry-Keyed :
    (o : Option LedgerEntry) (es : List LedgerEntry) (order : List ℕ)
    → Keyed (es, order)
    → Keyed (replay_entry o (es, order))
replay_entry-Keyed none es order h = h
replay_entry-Keyed (some e) es order h = (
  rw (← h.0) (keys-put e es),
  subst (λ ks. IsDistinct (put_order e es ks)) h.0
      (put_order-IsDistinct e es (subst IsDistinct (sym h.0) h.1)),
)

replay-Keyed :
    (lines : List Line) (es : List LedgerEntry) (order : List ℕ)
    → Keyed (es, order)
    → Keyed (replay lines (es, order))
unfolding replay
replay-Keyed [] es order h = h
replay-Keyed (line ∷ lines) es order h =
    let st = replay_entry (parse_entry line) (es, order) in
    replay-Keyed lines st.0 st.1 (replay_entry-Keyed (parse_entry line) es order h)

-- Whatever file the agent finds at its start, the ledger that it loads is well-formed: the order
-- lists the entries' keys, each once, and loading the file once more gives the same.
pub load-IsValid : (max_entries : ℕ) (file : Option LedgerFile) → IsValid (load max_entries file)
unfolding load
load-IsValid max_entries file =
    let h = replay-Keyed (file_lines file) [] [] (refl, tt) in
    record { keyed = h.0; distinct = h.1; saved = refl }

-- A ledger as compaction leaves it.
abbrev pub compacted : OperationLedger → OperationLedger
compacted l =
    let overflow = length l.order - l.max_entries in
    record l {
      entries = drop overflow l.entries;
      order = drop overflow l.order;
      file = some (record { lines = map entry_line (drop overflow l.entries); unended = none });
    }

rewrite_lem :
    (l : OperationLedger)
    → keys l.entries ≡ l.order
    → IsDistinct l.order
    → rewrite l
      ≡ some
          (record l { file = some (record { lines = map entry_line l.entries; unended = none }) })
unfolding rewrite
rewrite_lem l k d = ap (rewritten l) (
    subst (λ ks. rewrite_lines ks l.entries ≡ some (map entry_line l.entries)) k
      (rewrite_lines-keys l.entries (subst IsDistinct (sym k) d)))

compact_fits :
    (l : OperationLedger) → leb (length l.order) l.max_entries ≡ true → compact_if_needed l ≡ some l
unfolding compact_if_needed
compact_fits l h = rw h

compact_over :
    (l : OperationLedger)
    → keys l.entries ≡ l.order
    → IsDistinct l.order
    → leb (length l.order) l.max_entries ≡ false
    → compact_if_needed l ≡ some (compacted l)
unfolding compact_if_needed
compact_over l k d h =
    let n = length l.order - l.max_entries in
    let dropped =
      subst (λ ks. remove_all (take n ks) l.entries ≡ drop n l.entries) k
        (remove_all-take n l.entries) in
    rw (h, dropped)
      (rewrite_lem (record l { entries = drop n l.entries; order = drop n l.order })
        (keys-drop n l.entries ∙ ap (drop n) k) (drop-IsDistinct n l.order d))

compacted-IsValid :
    (l : OperationLedger) → keys l.entries ≡ l.order → IsDistinct l.order → IsValid (compacted l)
compacted-IsValid l k d =
    let n = length l.order - l.max_entries in
    let kept : keys (drop n l.entries) ≡ drop n l.order = keys-drop n l.entries ∙ ap (drop n) k in
    let d' = drop-IsDistinct n l.order d in
    record {
      keyed = kept;
      distinct = d';
      saved =
          replay-entries (drop n l.entries) [] (subst IsDistinct (sym kept) d')
          ∙ ap (λ (ks : List ℕ). (drop n l.entries, ks)) kept;
    }

-- The ledger after the append, before compaction.
abbrev pub appended : LedgerEntry → OperationLedger → OperationLedger
appended e l =
    append_to_disk e (record l { entries = put e l.entries; order = put_order e l.entries l.order })

-- Whether a file's last line, if it has one, ends with a newline.
abbrev pub is_ended : Option LedgerFile → Bool
is_ended none = true
is_ended (some f) = not (is_some f.unended)

lines_behind-ended :
    (e : LedgerEntry) (file : Option LedgerFile)
    → is_ended file ≡ true
    → lines_behind e file ≡ file_lines file ++ entry_line e ∷ []
lines_behind-ended e none h = refl
lines_behind-ended e (some f) h = elim (Option-cases f.unended) [
  | inl ended ↦ rw ended refl
  | inr (line, torn) ↦ let bad : false ≡ true = rw torn at h in ground arith
]

appended-Keyed :
    (e : LedgerEntry) (l : OperationLedger)
    → IsValid l
    → Keyed ((appended e l).entries, (appended e l).order)
appended-Keyed e l v = replay_entry-Keyed (some e) l.entries l.order (v.keyed, v.distinct)

appended-IsValid :
    (e : LedgerEntry) (l : OperationLedger)
    → IsValid l
    → is_ended l.file ≡ true
    → IsValid (appended e l)
unfolding replay
appended-IsValid e l v ended =
    let (k, d) = appended-Keyed e l v in
    record {
      keyed = k;
      distinct = d;
      saved =
          ap (λ (lines : List Line). replay lines ([], [])) (lines_behind-ended e l.file ended)
          ∙ replay-append (file_lines l.file) (entry_line e ∷ []) ([], [])
          ∙ ap (replay (entry_line e ∷ [])) v.saved
          ∙ replay-entry_line e [] (l.entries, l.order);
    }

-- What `record` leaves.
abbrev pub recorded : LedgerEntry → OperationLedger → OperationLedger
recorded e l =
    if leb (length (appended e l).order) l.max_entries
    then appended e l
    else compacted (appended e l)

pub record_entry-recorded :
    (e : LedgerEntry) (l : OperationLedger) → IsValid l → record_entry e l ≡ some (recorded e l)
unfolding record_entry
record_entry-recorded e l v = elim (Bool-cases (leb (length (appended e l).order) l.max_entries)) [
  | inl fits ↦ rw fits (compact_fits (appended e l) fits)
  | inr over ↦ let a = appended-Keyed e l v in rw over (compact_over (appended e l) a.0 a.1 over)
]

-- Recording an entry in a well-formed ledger whose file does not end inside of a line never raises
-- `KeyError`, keeps the ledger well-formed (so a restart reads back exactly what is in memory) and the
-- file so that it does not end inside of a line, and leaves no more than `max_entries` keys.
pub record_entry-IsValid :
    (e : LedgerEntry) (l : OperationLedger)
    → IsValid l
    → is_ended l.file ≡ true
    → (l' : OperationLedger) × (record_entry e l ≡ some l')
      × IsValid l'
      × (is_ended l'.file ≡ true)
      × (length l'.order ≤ l'.max_entries)
      × (l'.max_entries ≡ l.max_entries)
record_entry-IsValid e l v ended =
    elim (Bool-cases (leb (length (appended e l).order) l.max_entries)) [
      | inl fits ↦ (
        appended e l,
        record_entry-recorded e l v ∙ rw fits,
        appended-IsValid e l v ended,
        refl,
        ground arith,
        refl,
      )
      | inr over ↦
          let a = appended-Keyed e l v in
          (
            compacted (appended e l),
            record_entry-recorded e l v ∙ rw over,
            compacted-IsValid (appended e l) a.0 a.1,
            refl,
            omega (
              arith,
              length-drop (length (appended e l).order - l.max_entries) (appended e l).order,
            ),
            refl,
          )
    ]
