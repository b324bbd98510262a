-- ===== src/Agent/Ledger/Replay.antt =====
-- What the file of services/vpn-agent/src/nebula_agent/ledger.py gives back at a restart.
use mathlib.Core.Path.{subst}
use mathlib.Core.List.{append-nil, append_assoc}
use vpn.Prelude.{
  ==_refl, ℕ, zero, suc, ◌≡◌, ◌∙◌, ap, refl, true, false, ◌||◌, Option, some, List, [], ◌∷◌, ◌++◌,
  map, take, drop, contains, inl, inr, Bool-cases, arith, ◌==◌, is_some,
}
use vpn.Agent.Ledger.{
  LedgerEntry, Line, parse_entry, entry_line, find, put, remove_all, put_order, replay_entry,
  replay, rewrite_lines,
}

-- Every entry is read back from the line that is written for it.
pub parse_entry-entry_line : (e : LedgerEntry) → parse_entry (entry_line e) ≡ some e
unfolding parse_entry entry_line
parse_entry-entry_line e = refl

pub replay-entry_line :
    (e : LedgerEntry) (lines : List Line) (st : List LedgerEntry × List ℕ)
    → replay (entry_line e ∷ lines) st ≡ replay lines (put e st.0, put_order e st.0 st.1)
unfolding replay
replay-entry_line e lines st =
    ap (λ (o : Option LedgerEntry). replay lines (replay_entry o st)) (parse_entry-entry_line e)

pub replay-append :
    (xs ys : List Line) (st : List LedgerEntry × List ℕ)
    → replay (xs ++ ys) st ≡ replay ys (replay xs st)
unfolding replay
replay-append [] ys st = refl
replay-append (x ∷ xs) ys st = replay-append xs ys (replay_entry (parse_entry x) st)

abbrev pub keys : List LedgerEntry → List ℕ
keys [] = []
keys (e ∷ es) = e.idempotency_key ∷ keys es

abbrev pub IsDistinct : List ℕ → Type 0
IsDistinct [] = Unit
IsDistinct (k ∷ ks) = (contains k ks ≡ false) × IsDistinct ks

pub find_iff : (k : ℕ) (es : List LedgerEntry) → is_some (find k es) ≡ contains k (keys es)
find_iff k [] = refl
find_iff k (e ∷ es) = ground (arith, find_iff k es)

pub keys-put :
    (e : LedgerEntry) (es : List LedgerEntry) → keys (put e es) ≡ put_order e es (keys es)
keys-put e [] = refl
keys-put e (x ∷ es) = ground (arith, keys-put e es)

contains-append_one :
    (k j : ℕ) (ks : List ℕ) → contains k (ks ++ j ∷ []) ≡ (contains k ks || (j == k))
contains-append_one k j [] = ground arith
contains-append_one k j (i ∷ ks) = ground (arith, contains-append_one k j ks)

IsDistinct-append_one :
    (j : ℕ) (ks : List ℕ) → contains j ks ≡ false → IsDistinct ks → IsDistinct (ks ++ j ∷ [])
IsDistinct-append_one j [] c h = (refl, tt)
IsDistinct-append_one j (k ∷ ks) c h =
    (ground (arith, contains-append_one k j ks), IsDistinct-append_one j ks (ground arith) h.1)

pub put_order-IsDistinct :
    (e : LedgerEntry) (es : List LedgerEntry)
    → IsDistinct (keys es)
    → IsDistinct (put_order e es (keys es))
put_order-IsDistinct e es h = elim (Bool-cases (contains e.idempotency_key (keys es))) [
  | inl c ↦ rw (find_iff e.idempotency_key es, c) h
  | inr c ↦
      rw (find_iff e.idempotency_key es, c) (IsDistinct-append_one e.idempotency_key (keys es) c h)
]

pub drop-IsDistinct : (n : ℕ) (ks : List ℕ) → IsDistinct ks → IsDistinct (drop n ks)
drop-IsDistinct zero ks h = h
drop-IsDistinct (suc n) [] h = h
drop-IsDistinct (suc n) (k ∷ ks) h = drop-IsDistinct n ks h.1

pub keys-drop : (n : ℕ) (es : List LedgerEntry) → keys (drop n es) ≡ drop n (keys es)
keys-drop zero es = refl
keys-drop (suc n) [] = refl
keys-drop (suc n) (e ∷ es) = keys-drop n es

-- Dropping the oldest keys one by one drops a prefix of the entries.
pub remove_all-take : (n : ℕ) (es : List LedgerEntry) → remove_all (take n (keys es)) es ≡ drop n es
remove_all-take zero es = refl
remove_all-take (suc n) [] = refl
remove_all-take (suc n) (e ∷ es) = rw (==_refl e.idempotency_key) (remove_all-take n es)

rewrite_lines-cons :
    (e : LedgerEntry) (ks : List ℕ) (es : List LedgerEntry)
    → contains e.idempotency_key ks ≡ false
    → rewrite_lines ks (e ∷ es) ≡ rewrite_lines ks es
unfolding rewrite_lines
rewrite_lines-cons e [] es h = refl
rewrite_lines-cons e (k ∷ ks) es h =
    let ne : (e.idempotency_key == k) ≡ false = ground arith in
    rw (ne, rewrite_lines-cons e ks es (ground arith))

pub rewrite_lines-keys :
    (es : List LedgerEntry)
    → IsDistinct (keys es)
    → rewrite_lines (keys es) es ≡ some (map entry_line es)
unfolding rewrite_lines
rewrite_lines-keys [] h = refl
rewrite_lines-keys (e ∷ es) h =
    rw (==_refl e.idempotency_key, rewrite_lines-cons e (keys es) es h.0, rewrite_lines-keys es h.1)

pub put_new :
    (e : LedgerEntry) (es : List LedgerEntry)
    → contains e.idempotency_key (keys es) ≡ false
    → put e es ≡ es ++ e ∷ []
put_new e [] h = refl
put_new e (x ∷ es) h = ground (arith, put_new e es)

keys-append_one :
    (e : LedgerEntry) (es : List LedgerEntry)
    → keys (es ++ e ∷ []) ≡ keys es ++ e.idempotency_key ∷ []
keys-append_one e [] = refl
keys-append_one e (x ∷ es) = ap (λ (ks : List ℕ). x.idempotency_key ∷ ks) (keys-append_one e es)

contains-middle :
    (e : LedgerEntry) (es acc : List LedgerEntry)
    → contains e.idempotency_key (keys (acc ++ e ∷ es)) ≡ true
contains-middle e es [] = ground arith
contains-middle e es (x ∷ acc) = ground (arith, contains-middle e es acc)

-- Of distinct keys, that of an entry is none of those before it.
earlier_keys :
    (e : LedgerEntry) (es acc : List LedgerEntry)
    → IsDistinct (keys (acc ++ e ∷ es))
    → contains e.idempotency_key (keys acc) ≡ false
earlier_keys e es [] h = refl
earlier_keys e es (x ∷ acc) h = elim (Bool-cases (x.idempotency_key == e.idempotency_key)) [
  | inl same ↦
      let same' : x.idempotency_key ≡ e.idempotency_key = ground arith in
      let h0 = subst (λ k. contains k (keys (acc ++ e ∷ es)) ≡ false) same' h.0 in
      cc (contains-middle e es acc, h0)
  | inr other ↦ rw other (earlier_keys e es acc h.1)
]

pub replay-entries :
    (es acc : List LedgerEntry)
    → IsDistinct (keys (acc ++ es))
    → replay (map entry_line es) (acc, keys acc) ≡ (acc ++ es, keys (acc ++ es))
unfolding replay
replay-entries [] acc h = rw append-nil
replay-entries (e ∷ es) acc h =
    let gone = earlier_keys e es acc h in
    let regroup : (acc ++ e ∷ []) ++ es ≡ acc ++ e ∷ es = append_assoc acc (e ∷ []) es in
    let known : is_some (find e.idempotency_key acc) ≡ false =
      find_iff e.idempotency_key acc ∙ gone in
    replay-entry_line e (map entry_line es) (acc, keys acc)
    ∙ rw (put_new e acc gone, known, ← keys-append_one e acc, ← regroup)
        (replay-entries es (acc ++ e ∷ []) (rw regroup h))
