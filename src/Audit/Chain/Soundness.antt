-- ===== src/Audit/Chain/Soundness.antt =====
-- What an export holds when `verify` of services/api/src/nebula_api/audit/chain.py accepts it, and
-- what two accepted exports with the same last hash have in common.
use vpn.Prelude.{
  ℕ, ◌≡◌, ◌⊎◌, ◌∙◌, ap, sym, refl, Bool, true, false, ◌&&◌, Option, none, some, List, [], ◌∷◌, ◌++◌,
  length, inl, inr, Bool-cases, arith, ◌==◌, if◌then◌else◌,
}
use vpn.Audit.Chain.{
  Line, blank, malformed, scalar, event, closing, Trailer, ChainSummary, AuditChainError, cut_short,
  mismatch, breaks, Verified, intact, error, is_value, close, verify_from, verify,
}
use vpn.Audit.Chain.Exports.{links, last_link, length-links, append_assoc, append_nil}

-- The events of the lines, in order.
abbrev pub events_of : List Line → List ℕ
events_of [] = []
events_of (blank ∷ lines) = events_of lines
events_of (malformed ∷ lines) = events_of lines
events_of (scalar ∷ lines) = events_of lines
events_of (closing f c h u ∷ lines) = events_of lines
events_of (event p h e ∷ lines) = e ∷ events_of lines

abbrev summary : ChainSummary → Verified → ChainSummary
summary s (intact t) = t
summary s (error e) = s

if_intact :
    (b : Bool) (v : Verified) (e : AuditChainError) (s : ChainSummary)
    → (if b then v else error e) ≡ intact s
    → v ≡ intact s
if_intact true v e s h = h
if_intact false v e s h = ground arith

module _ (link : ℕ → ℕ → ℕ) (genesis format : ℕ) where
  -- A summary that holds the chain of events from a hash on.
  abbrev pub IsChain : ℕ → List ℕ → List ℕ → ChainSummary → Type 0
  IsChain prev hashes es s =
      (s.hashes ≡ hashes ++ links link prev es)
      × (s.head ≡ last_link link prev es)
      × (s.count ≡ length s.hashes)

  close-IsChain :
      (prev : ℕ) (hashes : List ℕ) (t : Option Trailer) (s : ChainSummary)
      → close link genesis format prev hashes t ≡ intact s
      → IsChain prev hashes [] s
  unfolding close
  close-IsChain prev hashes none s h = ground arith
  close-IsChain prev hashes (some t) s h =
      let now : ChainSummary = record {
        count = length hashes;
        head = prev;
        until = t.until;
        hashes = hashes;
      } in
      let named =
        if_intact (t.format == format)
          (if is_value t.count (length hashes) && is_value t.head prev
            then intact now
            else error mismatch)
          cut_short s h in
      let good =
        if_intact (is_value t.count (length hashes) && is_value t.head prev) (intact now) mismatch s
          named in
      let same : now ≡ s = ap (summary s) good in
      (
        sym (ap (λ (r : ChainSummary). r.hashes) same) ∙ sym (append_nil link hashes),
        sym (ap (λ (r : ChainSummary). r.head) same),
        sym (ap (λ (r : ChainSummary). r.count) same)
            ∙ ap (λ (r : ChainSummary). length r.hashes) same,
      )

  verify_from-closed :
      (prev : ℕ) (hashes : List ℕ) (t : Trailer) (lines : List Line) (s : ChainSummary)
      → verify_from link genesis format prev hashes (some t) lines ≡ intact s
      → IsChain prev hashes (events_of lines) s
  unfolding verify_from
  verify_from-closed prev hashes t [] s h = close-IsChain prev hashes (some t) s h
  verify_from-closed prev hashes t (blank ∷ lines) s h = verify_from-closed prev hashes t lines s h
  verify_from-closed prev hashes t (malformed ∷ lines) s h = ground arith
  verify_from-closed prev hashes t (scalar ∷ lines) s h = ground arith
  verify_from-closed prev hashes t (closing f c k u ∷ lines) s h = ground arith
  verify_from-closed prev hashes t (event p k e ∷ lines) s h = ground arith

  verify_from-IsChain :
      (prev : ℕ) (hashes : List ℕ) (lines : List Line) (s : ChainSummary)
      → verify_from link genesis format prev hashes none lines ≡ intact s
      → IsChain prev hashes (events_of lines) s
  unfolding verify_from
  verify_from-IsChain prev hashes [] s h = close-IsChain prev hashes none s h
  verify_from-IsChain prev hashes (blank ∷ lines) s h = verify_from-IsChain prev hashes lines s h
  verify_from-IsChain prev hashes (malformed ∷ lines) s h = ground arith
  verify_from-IsChain prev hashes (scalar ∷ lines) s h = ground arith
  verify_from-IsChain prev hashes (closing f c k u ∷ lines) s h =
      verify_from-closed prev hashes (record { format = f; count = c; head = k; until = u }) lines s
        h
  verify_from-IsChain prev hashes (event p k e ∷ lines) s h =
      let next = hashes ++ link prev e ∷ [] in
      let good =
        if_intact (is_value p prev && is_value k (link prev e))
          (verify_from link genesis format (link prev e) next none lines) breaks s h in
      let (a, b, c) = verify_from-IsChain (link prev e) next lines s good in
      (
        a ∙ append_assoc link hashes (link prev e) (links link (link prev e) (events_of lines)),
        b,
        c,
      )

  -- An export that verifies is the chain of its events: the summary's hashes are those of the events
  -- in order, its head is the last of them, and its count their number.
  pub verify-IsChain :
      (lines : List Line) (s : ChainSummary)
      → verify link genesis format lines ≡ intact s
      → (s.hashes ≡ links link genesis (events_of lines))
        × (s.head ≡ last_link link genesis (events_of lines))
        × (s.count ≡ length (events_of lines))
  unfolding verify
  verify-IsChain lines s h =
      let (a, b, c) = verify_from-IsChain genesis [] lines s h in
      (a, b, c ∙ ap length a ∙ length-links link genesis (events_of lines))

  -- Two different inputs of the hash with one output.
  abbrev pub Collision : Type 0
  Collision =
      (p : ℕ) × (e : ℕ) × (q : ℕ) × (f : ℕ) × (link p e ≡ link q f) × ((p == q) && (e == f) ≡ false)

  last_link-binds :
      (p q : ℕ) (es fs : List ℕ)
      → length es ≡ length fs
      → last_link link p es ≡ last_link link q fs
      → ((p ≡ q) × (es ≡ fs)) ⊎ Collision
  last_link-binds p q [] [] n h = inl (h, refl)
  last_link-binds p q [] (f ∷ fs) n h = ground arith
  last_link-binds p q (e ∷ es) [] n h = ground arith
  last_link-binds p q (e ∷ es) (f ∷ fs) n h =
      elim (last_link-binds (link p e) (link q f) es fs (omega arith) h) [
        | inr found ↦ inr found
        | inl (same, rest) ↦ elim (Bool-cases ((p == q) && (e == f))) [
          | inl equal ↦
              let pq : p ≡ q = ground arith in
              let ef : e ≡ f = ground arith in
              inl (pq, ap (λ x. x ∷ es) ef ∙ ap (λ xs. f ∷ xs) rest)
          | inr other ↦ inr (p, e, q, f, same, other)
        ]
      ]

  -- Two exports that verify with the same count and the same head hold the same events, or show two
  -- different inputs of the hash with one output.
  pub verify-binds :
      (older newer : List Line) (old new : ChainSummary)
      → verify link genesis format older ≡ intact old
      → verify link genesis format newer ≡ intact new
      → old.count ≡ new.count
      → old.head ≡ new.head
      → (events_of older ≡ events_of newer) ⊎ Collision
  verify-binds older newer old new a b n h =
      let (_, head, count) = verify-IsChain older old a in
      let (_, head', count') = verify-IsChain newer new b in
      elim (last_link-binds genesis genesis (events_of older) (events_of newer) (omega arith)
        (sym head ∙ h ∙ head')) [ inl (_, same) ↦ inl same | inr found ↦ inr found ]
