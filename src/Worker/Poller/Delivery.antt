-- ===== src/Worker/Poller/Delivery.antt =====
-- `deliver_one` and `poll_once` of services/worker/src/nebula_worker/poller.py.
use vpn.Prelude.{
  ℕ, ◌+◌, ◌*◌, ◌^◌, min, Bool, true, false, ◌||◌, some, List, [], ◌∷◌, ◌++◌, length, leb, ◌==◌,
  if◌then◌else◌,
}
use vpn.Worker.Poller.{
  TemplateCode, account_request_review, user_activation, password_reset, request_rejected,
  EmailState, ResultCode, EmailDelivery, DeliveryOutcome, Outbox, ClaimedDelivery, Settings, update,
  reclaim_expired_leases, claim_batch,
}

-- How the mail adapter's `send` ends: with a message id, with `EmailSendError`, or with another
-- exception.
pub data SendResult : Type 0 where
  accepted : ℕ → SendResult
  send_error raised : SendResult

-- What `read_email_payload` of services/worker/src/nebula_worker/outbox.py comes to: a payload, `None`,
-- or the exception of `raw.decode`, which is outside of its `try`.
pub data Payload : Type 0 where
  staged unavailable undecodable : Payload

-- What the worker meets while it delivers, by the delivery: what Redis has as its payload, what the mail provider answers, and whether the transaction commits.
pub record World : Type 0 where
  pub payload : ℕ → Payload
  pub send : ℕ → SendResult
  pub commits : ℕ → Bool

-- The `SET` clauses of `_MARK_SENT_SQL`, `_RESCHEDULE_SQL` and `_MARK_FAILED_SQL`.
abbrev pub mark_sent : ℕ → ℕ → EmailDelivery → EmailDelivery
mark_sent now message_id row = record row {
  state = EmailState.sent;
  sent_at = some now;
  provider_message_id = some message_id;
  attempt_count = row.attempt_count + 1;
  result_code = some ResultCode.delivered;
}

abbrev pub reschedule : ℕ → ResultCode → EmailDelivery → EmailDelivery
reschedule available_at code row = record row {
  state = EmailState.pending;
  available_at = available_at;
  attempt_count = row.attempt_count + 1;
  result_code = some code;
}

abbrev pub mark_failed : ResultCode → EmailDelivery → EmailDelivery
mark_failed code row = record row {
  state = EmailState.failed;
  attempt_count = row.attempt_count + 1;
  result_code = some code;
}

-- `result_code in _UNRETRYABLE_RESULT_CODES`
abbrev pub is_unretryable : ResultCode → Bool
is_unretryable ResultCode.payload_unavailable = true
is_unretryable ResultCode.unknown_template = true
is_unretryable ResultCode.lease_expired = false
is_unretryable ResultCode.delivered = false
is_unretryable ResultCode.send_failed = false

abbrev pub backoff_seconds : ℕ → ℕ
backoff_seconds attempt_count = min 3600 (30 * 2 ^ attempt_count)

-- What `_finalize` writes to the row.
abbrev pub finalized : Settings → ℕ → ClaimedDelivery → ResultCode → EmailDelivery → EmailDelivery
finalized s now d code row =
    if leb s.max_attempts (d.attempt_count + 1) || is_unretryable code
    then mark_failed code row
    else reschedule (now + backoff_seconds d.attempt_count) code row

-- One transaction: the `UPDATE ... WHERE id = :id` with its event, or nothing.
abbrev pub transact :
    Bool → ℕ → (EmailDelivery → EmailDelivery) → DeliveryOutcome → ResultCode → Outbox → Outbox
transact commits k f outcome code box =
    if commits
    then record {
      rows = update (λ row. row.id == k) f box.rows;
      events = box.events ++ record { delivery_id = k; outcome = outcome; reason_code = code } ∷ [];
    }
    else box

-- Whether `render` of services/worker/src/nebula_worker/templates.py knows the template.
abbrev pub is_known : TemplateCode → Bool
is_known account_request_review = true
is_known user_activation = true
is_known password_reset = true
is_known request_rejected = true
is_known (TemplateCode.other n) = false

module _ (w : World) (s : Settings) (now : ℕ) where
  -- `_finalize`
  unfoldable pub finalize : ClaimedDelivery → DeliveryOutcome → ResultCode → Outbox → Outbox
  finalize d outcome code = transact (w.commits d.id) d.id (finalized s now d code) outcome code

  -- The end of `deliver_one`, by what the adapter answered.
  unfoldable pub settle_sent : ClaimedDelivery → SendResult → Outbox → Outbox
  unfolding finalize
  settle_sent d (accepted message_id) box =
      transact (w.commits d.id) d.id (mark_sent now message_id) DeliveryOutcome.succeeded
        ResultCode.delivered box
  settle_sent d send_error box = finalize d DeliveryOutcome.denied ResultCode.send_failed box
  settle_sent d raised box = box

  unfoldable pub deliver_payload : Payload → ClaimedDelivery → Outbox → Outbox
  unfolding settle_sent
  deliver_payload staged d box =
      if is_known d.template_code
      then settle_sent d (w.send d.id) box
      else finalize d DeliveryOutcome.failed ResultCode.unknown_template box
  deliver_payload unavailable d box =
      finalize d DeliveryOutcome.failed ResultCode.payload_unavailable box
  deliver_payload undecodable d box = box

  -- `deliver_one`, with the `except Exception` of `poll_once` around it.
  unfoldable pub deliver_one : ClaimedDelivery → Outbox → Outbox
  unfolding deliver_payload
  deliver_one d box = deliver_payload (w.payload d.id) d box

  -- `for delivery in claimed`
  unfoldable pub deliver_all : List ClaimedDelivery → Outbox → Outbox
  deliver_all [] box = box
  deliver_all (d ∷ ds) box = deliver_all ds (deliver_one d box)

  -- `poll_once`
  unfoldable pub poll_once : Outbox → Outbox × ℕ
  poll_once box =
      let (free, _) = reclaim_expired_leases s.max_attempts now box in
      let (held, claimed) = claim_batch s now free in (deliver_all claimed held, length claimed)
