-- ===== src/Worker/Poller/Progress.antt =====
-- What services/worker/src/nebula_worker/poller.py makes of a delivery that it claims: it ends, or
-- waits for a bounded time.
use native.Mathlib.Numerals.{unary_clauses}
use vpn.Prelude.{
  ℕ, zero, suc, ◌+◌, ◌^◌, ◌≤◌, ◌≡◌, ◌∙◌, ap, refl, Bool, true, false, ◌||◌, some, contains, inl,
  inr, Bool-cases, arith, leb,
}
use vpn.Worker.Poller.{
  ResultCode, EmailDelivery, Outbox, ClaimedDelivery, Settings, ids, claim_of, leased,
}
use vpn.Worker.Poller.Delivery.{
  World, Payload, staged, unavailable, undecodable, SendResult, accepted, send_error, raised,
  finalized, is_known, is_unretryable, backoff_seconds, poll_once,
}
use vpn.Worker.Poller.Rows.{find, find_id, IsDistinct}
use vpn.Worker.Poller.Ends.{after_payload, after_send}
use vpn.Worker.Poller.Polls.{free_row, claimed_row, claims}
use vpn.Worker.Poller.Attempts.{is_waiting, poll_once-found}

pow_pos : (n : ℕ) → 1 ≤ 2 ^ n
pow_pos zero = omega arith
pow_pos (suc n) = simp unary_clauses (omega (arith, pow_pos n))

-- The pause before the next attempt is at least half a minute and at most an hour.
backoff_seconds-bounds : (n : ℕ) → (30 ≤ backoff_seconds n) × (backoff_seconds n ≤ 3600)
backoff_seconds-bounds n = (omega (arith, pow_pos n), omega arith)

abbrev pub is_raised : SendResult → Bool
is_raised (accepted m) = false
is_raised send_error = false
is_raised raised = true

-- One attempt more, and the next one, if any, after a bounded pause.
abbrev pub IsTried : ℕ → ℕ → EmailDelivery → Type 0
IsTried now attempts row =
    (row.attempt_count ≡ attempts + 1)
    × (is_waiting row ≡ true → (now + 30 ≤ row.available_at) × (row.available_at ≤ now + 3600))

-- Not the bytes that `raw.decode` refuses.
abbrev pub is_decoded : Payload → Bool
is_decoded staged = true
is_decoded unavailable = true
is_decoded undecodable = false

module _ (w : World) (s : Settings) (now : ℕ) where
  finalized-IsTried :
      (d : ClaimedDelivery) (code : ResultCode) (row : EmailDelivery)
      → IsTried now row.attempt_count (finalized s now d code row)
  finalized-IsTried d code row =
      let (least, most) = backoff_seconds-bounds d.attempt_count in
      elim (Bool-cases (leb s.max_attempts (d.attempt_count + 1) || is_unretryable code)) [
        | inl last ↦ rw last (refl, λ c. ground arith)
        | inr more ↦ rw more (refl, λ c. (omega (arith, least), omega (arith, most)))
      ]

  after_send-IsTried :
      (d : ClaimedDelivery) (r : SendResult) (row : EmailDelivery)
      → is_raised r ≡ false
      → IsTried now row.attempt_count (after_send s now d r row)
  after_send-IsTried d (accepted m) row h = (refl, λ c. ground arith)
  after_send-IsTried d send_error row h = finalized-IsTried d ResultCode.send_failed row
  after_send-IsTried d raised row h = ground arith

  after_payload-IsTried :
      (p : Payload) (d : ClaimedDelivery) (row : EmailDelivery)
      → is_decoded p ≡ true
      → is_raised (w.send d.id) ≡ false
      → IsTried now row.attempt_count (after_payload w s now p d row)
  after_payload-IsTried staged d row h r = elim (Bool-cases (is_known d.template_code)) [
    | inl known ↦ rw known (after_send-IsTried d (w.send d.id) row r)
    | inr unknown ↦ rw unknown (finalized-IsTried d ResultCode.unknown_template row)
  ]
  after_payload-IsTried unavailable d row h r =
      finalized-IsTried d ResultCode.payload_unavailable row
  after_payload-IsTried undecodable d row h r = ground arith

  free_row-id : (row : EmailDelivery) → (free_row w s now row).id ≡ row.id
  free_row-id row = ground arith

  -- A delivery that a poll claims, with a payload that is missing or can be decoded, a provider that
  -- answers and a database that commits, has one attempt more than after its lease was checked, and
  -- either has ended or waits between half a minute and an hour for the next one.
  pub poll_once-progress :
      (k : ℕ) (box : Outbox) (row : EmailDelivery)
      → IsDistinct (ids box.rows)
      → find k box.rows ≡ some row
      → contains k (claims w s now box) ≡ true
      → is_decoded (w.payload k) ≡ true
      → w.commits k ≡ true
      → is_raised (w.send k) ≡ false
      → (row' : EmailDelivery) × (find k (poll_once w s now box).0.rows ≡ some row')
        × IsTried now (free_row w s now row).attempt_count row'
  poll_once-progress k box row h e hit p c r =
      let free = free_row w s now row in
      let same : free.id ≡ k = free_row-id row ∙ find_id k box.rows e in
      let committed : w.commits free.id ≡ true = ap w.commits same ∙ c in
      (
        claimed_row w s now true free,
        poll_once-found w s now k box h e ∙ rw hit refl,
        rw committed (
            after_payload-IsTried (w.payload free.id) (claim_of free)
              (leased (now + s.lease_seconds) free) (ap (λ j. is_decoded (w.payload j)) same ∙ p)
              (ap (λ j. is_raised (w.send j)) same ∙ r)),
      )
