-- ===== src/Agent/Ledger/Lookup.antt =====
-- What `lookup` of services/vpn-agent/src/nebula_agent/ledger.py finds after a record, and after a
-- restart.
use mathlib.Core.Path.{subst}
use vpn.Prelude.{
  ==_refl, ℕ, zero, suc, ◌-◌, ◌≤◌, ◌<◌, ◌≡◌, ◌∙◌, ap, sym, refl, false, none, some, List, [], ◌∷◌,
  ◌++◌, length, take, drop, contains, inl, inr, Bool-cases, arith, leb, ◌==◌, if◌then◌else◌,
  is_some, length-append,
}
use vpn.Agent.Ledger.{
  LedgerEntry, OperationLedger, find, put, put_order, load, lookup, record_entry,
}
use vpn.Agent.Ledger.Replay.{keys, IsDistinct, find_iff, keys-put, put_order-IsDistinct, keys-drop}
use vpn.Agent.Ledger.Invariant.{IsValid, appended, recorded, record_entry-recorded}

pub find-put :
    (k : ℕ) (e : LedgerEntry) (es : List LedgerEntry)
    → find k (put e es) ≡ (if e.idempotency_key == k then some e else find k es)
find-put k e [] = refl
find-put k e (x ∷ es) = ground (arith, find-put k e es)

find-none : (k : ℕ) (es : List LedgerEntry) → contains k (keys es) ≡ false → find k es ≡ none
find-none k [] h = refl
find-none k (e ∷ es) h = ground (arith, find-none k es)

contains-drop : (k n : ℕ) (ks : List ℕ) → contains k ks ≡ false → contains k (drop n ks) ≡ false
contains-drop k zero ks h = h
contains-drop k (suc n) [] h = h
contains-drop k (suc n) (j ∷ ks) h = contains-drop k n ks (ground arith)

find-drop :
    (k n : ℕ) (es : List LedgerEntry)
    → IsDistinct (keys es)
    → find k (drop n es) ≡ (if contains k (take n (keys es)) then none else find k es)
find-drop k zero es h = refl
find-drop k (suc n) [] h = refl
find-drop k (suc n) (e ∷ es) h = elim (Bool-cases (e.idempotency_key == k)) [
  | inl same ↦
      let same' : e.idempotency_key ≡ k = ground arith in
      let c = contains-drop k n (keys es) (subst (λ j. contains j (keys es) ≡ false) same' h.0) in
      rw same (find-none k (drop n es) (rw (keys-drop n es) c))
  | inr other ↦ rw other (find-drop k n es h.1)
]

-- The keys that compaction drops when `e` is recorded: the oldest, as many as there are too many.
abbrev pub evicted : LedgerEntry → OperationLedger → List ℕ
evicted e l = let order = put_order e l.entries l.order in take (length order - l.max_entries) order

recorded-entries :
    (e : LedgerEntry) (l : OperationLedger)
    → (recorded e l).entries
      ≡ drop (length (put_order e l.entries l.order) - l.max_entries) (put e l.entries)
recorded-entries e l = elim (Bool-cases (leb (length (appended e l).order) l.max_entries)) [
  | inl fits ↦
      let zero' : length (put_order e l.entries l.order) - l.max_entries ≡ 0 = ground arith in
      rw (fits, zero')
  | inr over ↦ rw over
]

find-recorded :
    (k : ℕ) (e : LedgerEntry) (l : OperationLedger)
    → IsValid l
    → find k (recorded e l).entries ≡ (
        if contains k (evicted e l)
        then none
        else (if e.idempotency_key == k then some e else find k l.entries))
find-recorded k e l v =
    let order = put_order e l.entries l.order in
    let n = length order - l.max_entries in
    let ordered : keys (put e l.entries) ≡ order =
      keys-put e l.entries ∙ ap (put_order e l.entries) v.keyed in
    let apart : IsDistinct (keys (put e l.entries)) =
      rw (keys-put e l.entries) (put_order-IsDistinct e l.entries (rw v.keyed v.distinct)) in
    rw (recorded-entries e l)
      (find-drop k n (put e l.entries) apart ∙ rw (ordered, find-put k e l.entries))

-- After a record in a well-formed ledger, a key finds nothing if it was among the oldest that are too many, else the
-- recorded entry if it is its key, else what it found before.
pub lookup-record_entry :
    (k : ℕ) (e : LedgerEntry) (l : OperationLedger)
    → IsValid l
    → (l' : OperationLedger) × (record_entry e l ≡ some l')
      × (lookup k l' ≡ (
          if contains k (evicted e l)
          then none
          else (if e.idempotency_key == k then some e else lookup k l)))
unfolding lookup
lookup-record_entry k e l v = (recorded e l, record_entry-recorded e l v, find-recorded k e l v)

take-length :
    (n : ℕ) (ks : List ℕ) (k : ℕ)
    → n ≤ length ks
    → contains k ks ≡ false
    → contains k (take n (ks ++ k ∷ [])) ≡ false
take-length zero ks k h c = refl
take-length (suc n) [] k h c = elim h [ ]
take-length (suc n) (j ∷ ks) k h c = ground (arith, take-length n ks k)

-- An entry with a new key is found right after it was recorded in a well-formed ledger, when at least
-- one entry may be kept.
pub lookup-record_entry_new :
    (e : LedgerEntry) (l : OperationLedger)
    → IsValid l
    → lookup e.idempotency_key l ≡ none
    → 0 < l.max_entries
    → (l' : OperationLedger) × (record_entry e l ≡ some l') × (lookup e.idempotency_key l' ≡ some e)
unfolding lookup
lookup-record_entry_new e l v absent pos =
    let key = e.idempotency_key in
    let new : contains key (keys l.entries) ≡ false =
      sym (find_iff key l.entries) ∙ ap is_some absent in
    let new' : contains key l.order ≡ false = subst (λ ks. contains key ks ≡ false) v.keyed new in
    let kept =
      take-length (length (l.order ++ key ∷ []) - l.max_entries) l.order key
        (omega (arith, length-append l.order (key ∷ []))) new' in
    (
      recorded e l,
      record_entry-recorded e l v,
      find-recorded key e l v ∙ rw (absent, kept, ==_refl key),
    )

-- A restart gives back the well-formed ledger that was in memory.
pub load_restores : (l : OperationLedger) → IsValid l → load l.max_entries l.file ≡ l
unfolding load
load_restores l v =
    ap (λ (st : List LedgerEntry × List ℕ). record l { entries = st.0; order = st.1 }) v.saved
