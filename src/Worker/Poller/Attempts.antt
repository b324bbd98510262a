-- ===== src/Worker/Poller/Attempts.antt =====
-- The rows that services/worker/src/nebula_worker/poller.py keeps: bounded attempts, no row left
-- behind in `sending`, and nothing done to a delivery that has ended.
use vpn.Prelude.{
  ℕ, ◌+◌, ◌≤◌, ◌<◌, ◌≡◌, ◌∙◌, ap, sym, refl, Bool, true, false, ◌||◌, some, List, contains, inl,
  inr, Bool-cases, arith, leb,
}
use vpn.Worker.Poller.{
  ResultCode, EmailDelivery, Outbox, ClaimedDelivery, Settings, ids, claim_of, is_pending,
  is_sending, reclaim_expired_leases, has_expired, reclaimed, is_due, leased,
}
use vpn.Worker.Poller.Delivery.{
  Payload, staged, unavailable, undecodable, World, SendResult, accepted, send_error, raised,
  finalized, mark_sent, is_known, is_unretryable, poll_once,
}
use vpn.Worker.Poller.Rows.{find, find-update, ids-update, updated, IsDistinct}
use vpn.Worker.Poller.Ends.{after_payload, after_delivery, after_send, map_row}
use vpn.Worker.Poller.Claims.{passes, selected_due}
use vpn.Worker.Poller.Polls.{free_row, claimed_row, claims, poll_once-row}

abbrev pub is_waiting : EmailDelivery → Bool
is_waiting row = is_pending row.state || is_sending row.state

-- No more attempts than allowed, and one left while the delivery waits.
abbrev pub IsWithin : ℕ → EmailDelivery → Type 0
IsWithin most row = (row.attempt_count ≤ most) × (is_waiting row ≡ true → row.attempt_count < most)

expired_waiting :
    (now : ℕ) (row : EmailDelivery) → has_expired now row ≡ true → is_waiting row ≡ true
expired_waiting now row h = ground arith

module _ (w : World) (s : Settings) (now : ℕ) where
  free_row-IsWithin :
      (row : EmailDelivery)
      → IsWithin s.max_attempts row
      → IsWithin s.max_attempts (free_row w s now row)
  free_row-IsWithin row h = elim (Bool-cases (has_expired now row)) [
    | inl out ↦
        let left = h.1 (expired_waiting now row out) in
        elim (Bool-cases (leb s.max_attempts (row.attempt_count + 1))) [
          | inl last ↦ rw (out, last) (omega arith, λ c. ground arith)
          | inr more ↦ rw (out, more) (omega arith, λ c. ground arith)
        ]
    | inr held ↦ rw held h
  ]

  finalized-IsWithin :
      (d : ClaimedDelivery) (code : ResultCode) (row : EmailDelivery)
      → d.attempt_count ≡ row.attempt_count
      → row.attempt_count < s.max_attempts
      → IsWithin s.max_attempts (finalized s now d code row)
  finalized-IsWithin d code row e h =
      elim (Bool-cases (leb s.max_attempts (d.attempt_count + 1) || is_unretryable code)) [
        | inl last ↦ rw last (omega arith, λ c. ground arith)
        | inr more ↦ rw more (omega arith, λ c. ground arith)
      ]

  after_send-ends :
      (P : EmailDelivery → Type 0) (d : ClaimedDelivery) (r : SendResult) (row : EmailDelivery)
      → P row
      → ((code : ResultCode) → P (finalized s now d code row))
      → ((m : ℕ) → P (mark_sent now m row))
      → P (after_send s now d r row)
  after_send-ends P d (accepted m) row left closed sent = sent m
  after_send-ends P d send_error row left closed sent = closed ResultCode.send_failed
  after_send-ends P d raised row left closed sent = left

  after_payload-ends :
      (P : EmailDelivery → Type 0) (p : Payload) (d : ClaimedDelivery) (row : EmailDelivery)
      → P row
      → ((code : ResultCode) → P (finalized s now d code row))
      → ((m : ℕ) → P (mark_sent now m row))
      → P (after_payload w s now p d row)
  after_payload-ends P staged d row left closed sent =
      elim (Bool-cases (is_known d.template_code)) [
        | inl known ↦ rw known (after_send-ends P d (w.send d.id) row left closed sent)
        | inr unknown ↦ rw unknown (closed ResultCode.unknown_template)
      ]
  after_payload-ends P unavailable d row left closed sent = closed ResultCode.payload_unavailable
  after_payload-ends P undecodable d row left closed sent = left

  -- What holds of the row however a delivery ends.
  after_delivery-ends :
      (P : EmailDelivery → Type 0) (d : ClaimedDelivery) (row : EmailDelivery)
      → P row
      → ((code : ResultCode) → P (finalized s now d code row))
      → ((m : ℕ) → P (mark_sent now m row))
      → P (after_delivery w s now d row)
  after_delivery-ends P d row left closed sent = elim (Bool-cases (w.commits d.id)) [
    | inl done ↦ rw done (after_payload-ends P (w.payload d.id) d row left closed sent)
    | inr undone ↦ rw undone left
  ]

  due_waiting : (row : EmailDelivery) → is_due now row ≡ true → is_waiting row ≡ true
  due_waiting row h = ground arith

  claimed_row-IsWithin :
      (chosen : Bool) (row : EmailDelivery)
      → (chosen ≡ true → is_due now row ≡ true)
      → IsWithin s.max_attempts row
      → IsWithin s.max_attempts (claimed_row w s now chosen row)
  claimed_row-IsWithin true row due h =
      let held = leased (now + s.lease_seconds) row in
      let left = h.1 (due_waiting row (due refl)) in
      after_delivery-ends (IsWithin s.max_attempts) (claim_of row) held (omega arith, λ c. left)
        (λ code. finalized-IsWithin (claim_of row) code held refl left)
        (λ m. (omega arith, λ c. ground arith))
  claimed_row-IsWithin false row due h = h

  -- The rows that a poll claims from, seen from one row before it.
  free_rows : Outbox → List EmailDelivery
  free_rows box = (reclaim_expired_leases s.max_attempts now box).0.rows

  free_rows-IsDistinct :
      (box : Outbox) → IsDistinct (ids box.rows) → IsDistinct (ids (free_rows box))
  unfolding free_rows reclaim_expired_leases
  free_rows-IsDistinct box h =
      rw (ids-update (has_expired now) (reclaimed s.max_attempts now) box.rows (λ row. refl)) h

  find-free_rows :
      (k : ℕ) (box : Outbox) {row : EmailDelivery}
      → find k box.rows ≡ some row
      → find k (free_rows box) ≡ some (free_row w s now row)
  unfolding free_rows reclaim_expired_leases
  find-free_rows k box e =
      find-update (has_expired now) (reclaimed s.max_attempts now) k box.rows (λ row. refl)
      ∙ ap (updated (has_expired now) (reclaimed s.max_attempts now)) e

  claims_due :
      (k : ℕ) (box : Outbox) (row : EmailDelivery)
      → IsDistinct (ids box.rows)
      → find k box.rows ≡ some row
      → contains k (claims w s now box) ≡ true
      → is_due now (free_row w s now row) ≡ true
  unfolding free_rows
  claims_due k box row h e c =
      sym (ap (passes (is_due now)) (find-free_rows k box e))
      ∙ selected_due k s.batch_size now (free_rows box) (free_rows-IsDistinct box h) c

  -- The row with an id after a poll, from the row before it.
  pub poll_once-found :
      (k : ℕ) (box : Outbox) {row : EmailDelivery}
      → IsDistinct (ids box.rows)
      → find k box.rows ≡ some row
      → find k (poll_once w s now box).0.rows
        ≡ some (claimed_row w s now (contains k (claims w s now box)) (free_row w s now row))
  poll_once-found k box h e =
      poll_once-row w s now k box h
      ∙ ap
          (map_row
            (λ row. claimed_row w s now (contains k (claims w s now box)) (free_row w s now row)))
          e

  -- A poll leaves every delivery within its attempts, one left while it waits, if the delivery was
  -- so before and no two share an id, whatever the mail provider, Redis and the database answer.
  pub poll_once-IsWithin :
      (k : ℕ) (box : Outbox) (row : EmailDelivery)
      → IsDistinct (ids box.rows)
      → find k box.rows ≡ some row
      → IsWithin s.max_attempts row
      → (row' : EmailDelivery) × (find k (poll_once w s now box).0.rows ≡ some row')
        × IsWithin s.max_attempts row'
  poll_once-IsWithin k box row h e v = (
    claimed_row w s now (contains k (claims w s now box)) (free_row w s now row),
    poll_once-found k box h e,
    claimed_row-IsWithin (contains k (claims w s now box)) (free_row w s now row)
        (claims_due k box row h e) (free_row-IsWithin row v),
  )

  -- A delivery that was sent, has failed or was cancelled is left as it is by every poll of rows with different ids.
  pub poll_once-ended :
      (k : ℕ) (box : Outbox) (row : EmailDelivery)
      → IsDistinct (ids box.rows)
      → find k box.rows ≡ some row
      → is_waiting row ≡ false
      → find k (poll_once w s now box).0.rows ≡ some row
  poll_once-ended k box row h e ended =
      let held : has_expired now row ≡ false = ground arith in
      let free : free_row w s now row ≡ row = rw held refl in
      elim (Bool-cases (contains k (claims w s now box))) [
        | inl hit ↦
            let waiting =
              due_waiting row (sym (ap (is_due now) free) ∙ claims_due k box row h e hit) in
            ground arith
        | inr miss ↦ poll_once-found k box h e ∙ rw (miss, held) refl
      ]

  free_row-held : (row : EmailDelivery) → has_expired now (free_row w s now row) ≡ false
  free_row-held row = elim (Bool-cases (has_expired now row)) [
    | inl out ↦ elim (Bool-cases (leb s.max_attempts (row.attempt_count + 1))) [
      | inl last ↦ rw (out, last) refl
      | inr more ↦ rw (out, more) refl
    ]
    | inr held ↦ rw (held, held) refl
  ]

  finalized-held :
      (d : ClaimedDelivery) (code : ResultCode) (row : EmailDelivery)
      → has_expired now (finalized s now d code row) ≡ false
  finalized-held d code row =
      elim (Bool-cases (leb s.max_attempts (d.attempt_count + 1) || is_unretryable code)) [
        | inl last ↦ rw last refl
        | inr more ↦ rw more refl
      ]

  claimed_row-held :
      (chosen : Bool) (row : EmailDelivery)
      → has_expired now row ≡ false
      → has_expired now (claimed_row w s now chosen row) ≡ false
  claimed_row-held true row h =
      after_delivery-ends (λ r. has_expired now r ≡ false) (claim_of row)
        (leased (now + s.lease_seconds) row) (ground arith)
        (λ code. finalized-held (claim_of row) code (leased (now + s.lease_seconds) row))
        (λ m. refl)
  claimed_row-held false row h = h

  -- After a poll of rows with different ids no delivery in `sending` has an expired lease.
  pub poll_once-held :
      (k : ℕ) (box : Outbox) (row : EmailDelivery)
      → IsDistinct (ids box.rows)
      → find k box.rows ≡ some row
      → (row' : EmailDelivery) × (find k (poll_once w s now box).0.rows ≡ some row')
        × (has_expired now row' ≡ false)
  poll_once-held k box row h e = (
    claimed_row w s now (contains k (claims w s now box)) (free_row w s now row),
    poll_once-found k box h e,
    claimed_row-held (contains k (claims w s now box)) (free_row w s now row) (free_row-held row),
  )
