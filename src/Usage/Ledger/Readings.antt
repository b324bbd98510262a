-- ===== src/Usage/Ledger/Readings.antt =====
-- What a reading that is recorded or forgotten late does to the totals of
-- services/api/src/nebula_api/usage/service.py.
use vpn.Prelude.{
  Bool, true, ◌∙◌, Bool-cases, Option-cases, inl, inr, ℕ, ◌+◌, ◌≤◌, ◌<◌, ◌≡◌, ◌⊎◌, sym, false,
  Option, none, some, arith,
}
use mathlib.Core.Path.{subst}
use vpn.Usage.Ledger.{
  UsageSample, CredentialUsage, Table, delta, older, find, accumulate, reset_reading,
}
use vpn.Usage.Ledger.View.{row_of, folded, forgotten_if}
use vpn.Usage.Ledger.Totals.{rx_of, tx_of}
use vpn.Usage.Ledger.Process.{
  World, serve, restart, last_rx_of, last_tx_of, collected_of, Answered, sample_of,
}

-- What the totals say and what a reading of the source as it is would add is no more than what was
-- served.
abbrev pub Within : Option CredentialUsage → World → Type 0
Within o w =
    (rx_of o + delta w.rx_counter (last_rx_of o) ≤ w.rx_served)
    × (tx_of o + delta w.tx_counter (last_tx_of o) ≤ w.tx_served)

-- From one state of the source to a later one, the counters grow by no more than what was served.
abbrev pub Follows : World → World → Type 0
Follows w v =
    (w.rx_served + delta v.rx_counter w.rx_counter ≤ v.rx_served)
    × (w.tx_served + delta v.tx_counter w.tx_counter ≤ v.tx_served)

-- A reading that the row ignores, or would not overcount by.
abbrev pub Covers : Option CredentialUsage → Answered → Type 0
Covers o r = (older r.at (collected_of o) ≡ true) ⊎ Within o r.source

abbrev pub IsOrdered : Answered → Answered → Type 0
IsOrdered r t = (t.at < r.at) ⊎ Follows r.source t.source

pub serve-Within :
    (a b : ℕ) (o : Option CredentialUsage) (w : World) → Within o w → Within o (serve a b w)
serve-Within a b o w h = ground arith

pub restart-Within : (o : Option CredentialUsage) (w : World) → Within o w → Within o (restart w)
restart-Within o w h = ground arith

pub serve-Follows : (a b : ℕ) (v w : World) → Follows v w → Follows v (serve a b w)
serve-Follows a b v w h = ground arith

pub restart-Follows : (v w : World) → Follows v w → Follows v (restart w)
restart-Follows v w h = ground arith

pub Follows-self : (w : World) → Follows w w
Follows-self w = ground arith

-- A recorded reading, for a later state of the source.
pub folded-Within :
    (p i at : ℕ) (r : Answered) (row : CredentialUsage) (v : World)
    → Covers (some row) r
    → Within (some row) v
    → Follows r.source v
    → Within (some (folded (sample_of p i at r) row)) v
unfolding accumulate
folded-Within p i at r row v c h f = elim c [
  | inl stale ↦ rw stale h
  | inr fresh ↦ elim (Bool-cases (older r.at row.last_collected_at)) [
    | inl stale ↦ rw stale h
    | inr taken ↦ rw taken (ground arith)
  ]
]

pub folded-Covers :
    (p i at : ℕ) (r t : Answered) (row : CredentialUsage)
    → Covers (some row) r
    → Covers (some row) t
    → IsOrdered r t
    → Covers (some (folded (sample_of p i at r) row)) t
unfolding accumulate
folded-Covers p i at r t row c d o = elim (Bool-cases (older r.at row.last_collected_at)) [
  | inl stale ↦ rw stale d
  | inr taken ↦ elim c [
    | inl stale ↦ let bad : true ≡ false = sym stale ∙ taken in ground arith
    | inr within ↦ elim o [
      | inl earlier ↦ rw taken (inl (ground arith))
      | inr f ↦ rw taken (inr (ground arith))
    ]
  ]
]

pub forgotten-Within :
    (own : Bool) (r : Answered) (o : Option CredentialUsage) (v : World)
    → r.source.rx_counter ≡ 0
    → r.source.tx_counter ≡ 0
    → Covers o r
    → Within o v
    → Follows r.source v
    → Within (forgotten_if own r.at o) v
unfolding reset_reading
forgotten-Within own r none v e e' c h f = h
forgotten-Within false r (some row) v e e' c h f = h
forgotten-Within true r (some row) v e e' c h f = elim c [
  | inl stale ↦ rw stale h
  | inr fresh ↦ elim (Bool-cases (older r.at row.last_collected_at)) [
    | inl stale ↦ rw stale h
    | inr taken ↦ rw taken (ground arith)
  ]
]

pub forgotten-Covers :
    (own : Bool) (r t : Answered) (o : Option CredentialUsage)
    → r.source.rx_counter ≡ 0
    → r.source.tx_counter ≡ 0
    → Covers o r
    → Covers o t
    → IsOrdered r t
    → Covers (forgotten_if own r.at o) t
unfolding reset_reading
forgotten-Covers own r t none e e' c d o = d
forgotten-Covers false r t (some row) e e' c d o = d
forgotten-Covers true r t (some row) e e' c d o =
    elim (Bool-cases (older r.at row.last_collected_at)) [
      | inl stale ↦ rw stale d
      | inr taken ↦ elim c [
        | inl stale ↦ let bad : true ≡ false = sym stale ∙ taken in ground arith
        | inr within ↦ elim o [
          | inl earlier ↦ rw taken (inl (ground arith))
          | inr f ↦ rw taken (inr (ground arith))
        ]
      ]
    ]

-- The row that a sample finds or inserts stands for what the table had.
pub row_of-Within :
    (s : UsageSample) (t : Table) (v : World)
    → Within (find s.protocol s.identity t) v
    → Within (some (row_of s t)) v
row_of-Within s t v h = elim (Option-cases (find s.protocol s.identity t)) [
  | inl absent ↦ rw (absent, row_of) (subst (λ o. Within o v) absent h)
  | inr (row, e) ↦ rw (e, row_of) (subst (λ o. Within o v) e h)
]

pub row_of-Covers :
    (s : UsageSample) (t : Table) (r : Answered)
    → Covers (find s.protocol s.identity t) r
    → Covers (some (row_of s t)) r
row_of-Covers s t r h = elim (Option-cases (find s.protocol s.identity t)) [
  | inl absent ↦ rw (absent, row_of) (subst (λ o. Covers o r) absent h)
  | inr (row, e) ↦ rw (e, row_of) (subst (λ o. Covers o r) e h)
]
