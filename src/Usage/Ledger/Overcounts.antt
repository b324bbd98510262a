-- ===== src/Usage/Ledger/Overcounts.antt =====
-- What the totals of services/api/src/nebula_api/usage/service.py are at most, while readings overlap.
use vpn.Prelude.{
  ◌∙◌, Option-cases, inl, inr, ℕ, ◌≤◌, ◌<◌, ◌≡◌, sym, refl, false, ◌&&◌, ◌==◌, Option, some, ◌∷◌,
  arith,
}
use mathlib.Core.Path.{subst}
use vpn.Usage.Ledger.{UsageSample, CredentialUsage, Table, find, apply}
use vpn.Usage.Ledger.View.{row_of, is_for, folded, forgotten_if, find-apply, find-forget_one}
use vpn.Usage.Ledger.Totals.{rx_total, tx_total, find-apply_self}
use vpn.Usage.Ledger.Process.{
  serve, restart, Answered, Run, In, starting, forget, sample_of, Step, serves, restarts, answers,
  records, forgets, others, others_gone, Reach, here, next,
}
use vpn.Usage.Ledger.Readings.{
  Within, Follows, Covers, IsOrdered, serve-Within, restart-Within, serve-Follows, restart-Follows,
  Follows-self, folded-Within, folded-Covers, forgotten-Within, forgotten-Covers, row_of-Within,
  row_of-Covers,
}

-- The row, every answer, and the source as it is now, each beside the later ones.
record IsSound (p i : ℕ) (w : Run) : Type 0 where
  now : Within (find p i w.world.table) w.world
  ordered : (r t : Answered) → In r w.answers → In t w.answers → IsOrdered r t
  past : (r : Answered) → In r w.answers → Follows r.source w.world × (r.at ≤ w.last_asked)
  covered : (r : Answered) → In r w.answers → Covers (find p i w.world.table) r

serves-IsSound :
    (p i a b : ℕ) (w : Run) → IsSound p i w → IsSound p i (record w { world = serve a b w.world })
serves-IsSound p i a b w h = record {
  now = serve-Within a b (find p i w.world.table) w.world h.now;
  ordered = h.ordered;
  past = λ r m. (serve-Follows a b r.source w.world (h.past r m).0, (h.past r m).1);
  covered = h.covered;
}

restarts-IsSound :
    (p i : ℕ) (w : Run) → IsSound p i w → IsSound p i (record w { world = restart w.world })
restarts-IsSound p i w h = record {
  now = restart-Within (find p i w.world.table) w.world h.now;
  ordered = h.ordered;
  past = λ r m. (restart-Follows r.source w.world (h.past r m).0, (h.past r m).1);
  covered = h.covered;
}

abbrev answered : ℕ → Run → Run
answered at w = record w {
  answers = record { at = at; source = w.world } ∷ w.answers;
  last_asked = at;
}

answers-IsOrdered :
    (p i at : ℕ) (w : Run) (r t : Answered)
    → w.last_asked < at
    → IsSound p i w
    → In r (answered at w).answers
    → In t (answered at w).answers
    → IsOrdered r t
answers-IsOrdered p i at w r t lt h m n = elim m [
  | inl new ↦ elim n [
    | inl new' ↦ inr (rw (new, new') (Follows-self w.world))
    | inr old ↦ let (_, le) = h.past t old in inl (rw new (omega arith))
  ]
  | inr old ↦ elim n [ inl new ↦ inr (rw new (h.past r old).0) | inr old' ↦ h.ordered r t old old' ]
]

answers-IsSound :
    (p i at : ℕ) (w : Run) → w.last_asked < at → IsSound p i w → IsSound p i (answered at w)
answers-IsSound p i at w lt h = record {
  now = h.now;
  ordered = λ r t m n. answers-IsOrdered p i at w r t lt h m n;
  past = λ r m. elim m [
    | inl new ↦ rw new (Follows-self w.world, omega arith)
    | inr old ↦ let (f, le) = h.past r old in (f, omega arith)
  ];
  covered = λ r m. elim m [ inl new ↦ rw new (inr h.now) | inr old ↦ h.covered r old ];
}

-- A change of the table alone, by what the credential's row comes to.
table-IsSound :
    (p i : ℕ) (w : Run) (t : Table) (o : Option CredentialUsage)
    → IsSound p i w
    → find p i t ≡ o
    → Within o w.world
    → ((r : Answered) → In r w.answers → Covers o r)
    → IsSound p i (record w { world = record w.world { table = t } })
table-IsSound p i w t o h e n c = record {
  now = rw e n;
  ordered = h.ordered;
  past = h.past;
  covered = λ r m. rw e (c r m);
}

records-IsSound :
    (p i at : ℕ) (r : Answered) (w : Run)
    → In r w.answers
    → IsSound p i w
    → IsSound p i (record w {
      world = record w.world { table = (apply (sample_of p i at r) w.world.table).0 };
    })
records-IsSound p i at r w m h =
    let s = sample_of p i at r in
    let row = row_of s w.world.table in
    let c = row_of-Covers s w.world.table r (h.covered r m) in
    table-IsSound p i w (apply s w.world.table).0 (some (folded s row)) h
      (find-apply_self s w.world.table)
      (folded-Within p i at r row w.world c (row_of-Within s w.world.table w.world h.now)
        (h.past r m).0)
      (λ t n.
        folded-Covers p i at r t row c (row_of-Covers s w.world.table t (h.covered t n))
          (h.ordered r t m n))

forgets-IsSound :
    (p i q j : ℕ) (r : Answered) (w : Run)
    → In r w.answers
    → r.source.rx_counter ≡ 0
    → r.source.tx_counter ≡ 0
    → IsSound p i w
    → IsSound p i (record w { world = forget q j r.at w.world })
forgets-IsSound p i q j r w m e f h =
    let own = (q == p) && (j == i) in
    let o = find p i w.world.table in
    table-IsSound p i w (forget q j r.at w.world).table (forgotten_if own r.at o) h
      (find-forget_one p i r.at q j w.world.table)
      (forgotten-Within own r o w.world e f (h.covered r m) h.now (h.past r m).0)
      (λ t n. forgotten-Covers own r t o e f (h.covered r m) (h.covered t n) (h.ordered r t m n))

others-IsSound :
    (p i : ℕ) (s : UsageSample) (w : Run)
    → is_for p i s ≡ false
    → IsSound p i w
    → IsSound p i (record w { world = record w.world { table = (apply s w.world.table).0 } })
others-IsSound p i s w ne h =
    table-IsSound p i w (apply s w.world.table).0 (find p i w.world.table) h
      (find-apply p i s w.world.table ∙ rw ne refl) h.now h.covered

others_gone-IsSound :
    (p i at q j : ℕ) (w : Run)
    → ((q == p) && (j == i)) ≡ false
    → IsSound p i w
    → IsSound p i (record w { world = forget q j at w.world })
others_gone-IsSound p i at q j w ne h =
    table-IsSound p i w (forget q j at w.world).table (find p i w.world.table) h
      (find-forget_one p i at q j w.world.table ∙ elim (Option-cases (find p i w.world.table)) [
        | inl absent ↦ rw absent refl
        | inr (row, e) ↦ rw (e, ne) refl
      ])
      h.now h.covered

Step-IsSound : (p i : ℕ) {w v : Run} → Step p i w v → IsSound p i w → IsSound p i v
Step-IsSound p i {w} (serves a b e) h = subst (IsSound p i) (sym e) (serves-IsSound p i a b w h)
Step-IsSound p i {w} (restarts e) h = subst (IsSound p i) (sym e) (restarts-IsSound p i w h)
Step-IsSound p i {w} (answers at lt e) h =
    subst (IsSound p i) (sym e) (answers-IsSound p i at w lt h)
Step-IsSound p i {w} (records r at m e) h =
    subst (IsSound p i) (sym e) (records-IsSound p i at r w m h)
Step-IsSound p i {w} (forgets r m c d e) h =
    subst (IsSound p i) (sym e) (forgets-IsSound p i p i r w m c d h)
Step-IsSound p i {w} (others s ne e) h = subst (IsSound p i) (sym e) (others-IsSound p i s w ne h)
Step-IsSound p i {w} (others_gone at q j ne e) h =
    subst (IsSound p i) (sym e) (others_gone-IsSound p i at q j w ne h)

Reach-IsSound : (p i : ℕ) {w v : Run} → IsSound p i w → Reach p i w v → IsSound p i v
Reach-IsSound p i h here = h
Reach-IsSound p i h (next r st) = Step-IsSound p i st (Reach-IsSound p i h r)

starting-IsSound : (p i : ℕ) → IsSound p i starting
starting-IsSound p i = record {
  now = omega arith;
  ordered = λ r t m n. absurd m;
  past = λ r m. absurd m;
  covered = λ r m. absurd m;
}

-- In every run from the start in which the source answers the readings in the order in which they
-- were asked for, no two of them at the same time, however it restarts, whenever and in whatever
-- order the answers are recorded, late or more than once, and whenever a counter that a reading found
-- gone is forgotten, neither total exceeds what the process served.
pub never_overcounts :
    (p i : ℕ) {w : Run}
    → Reach p i starting w
    → (rx_total p i w.world.table ≤ w.world.rx_served)
      × (tx_total p i w.world.table ≤ w.world.tx_served)
never_overcounts p i r = let h = Reach-IsSound p i (starting-IsSound p i) r in omega (arith, h.now)
