-- ===== src/Worker/Poller.antt =====
-- The poller of services/worker/src/nebula_worker/poller.py over the rows of `email_deliveries`. A
-- statement is one walk over the rows; times are seconds, and texts numbers.
pub mod Delivery
pub mod Rows
pub mod Ends
pub mod Claims
pub mod Polls
pub mod Attempts
pub mod Progress
use vpn.Prelude.{
  ℕ, suc, ◌+◌, ◌*◌, ◌^◌, min, Bool, true, false, not, ◌&&◌, ◌||◌, Option, none, some, List, [], ◌∷◌,
  ◌++◌, map, length, take, keep, contains, ltb, leb, ◌==◌, if◌then◌else◌,
}

pub data TemplateCode : Type 0 where
  account_request_review user_activation password_reset request_rejected : TemplateCode
  other : ℕ → TemplateCode

pub data EmailState : Type 0 where
  pending sending sent failed cancelled : EmailState

pub data ResultCode : Type 0 where
  lease_expired delivered payload_unavailable unknown_template send_failed : ResultCode

pub record EmailDelivery : Type 0 where
  pub id : ℕ
  pub template_code : TemplateCode
  pub recipient_address : ℕ
  pub state : EmailState
  pub attempt_count : ℕ
  pub available_at : ℕ
  pub leased_until : Option ℕ
  pub sent_at : Option ℕ
  pub provider_message_id : Option ℕ
  pub result_code : Option ResultCode

pub data DeliveryOutcome : Type 0 where
  succeeded failed denied : DeliveryOutcome

-- `_AUDIT_SQL`; the reason of a delivery that was sent is `sent`, here `delivered`.
pub record DeliveryEvent : Type 0 where
  pub delivery_id : ℕ
  pub outcome : DeliveryOutcome
  pub reason_code : ResultCode

pub record Outbox : Type 0 where
  pub rows : List EmailDelivery
  pub events : List DeliveryEvent

pub record ClaimedDelivery : Type 0 where
  pub id : ℕ
  pub template_code : TemplateCode
  pub recipient_address : ℕ
  pub attempt_count : ℕ

pub record Settings : Type 0 where
  pub lease_seconds : ℕ
  pub batch_size : ℕ
  pub max_attempts : ℕ

abbrev pub is_pending : EmailState → Bool
is_pending EmailState.pending = true
is_pending EmailState.sending = false
is_pending EmailState.sent = false
is_pending EmailState.failed = false
is_pending EmailState.cancelled = false

abbrev pub is_sending : EmailState → Bool
is_sending EmailState.sending = true
is_sending EmailState.pending = false
is_sending EmailState.sent = false
is_sending EmailState.failed = false
is_sending EmailState.cancelled = false

abbrev pub before_now : ℕ → Option ℕ → Bool
before_now now none = false
before_now now (some at) = ltb at now

-- The `WHERE` and the `SET` of `_RECLAIM_EXPIRED_LEASES_SQL`.
abbrev pub has_expired : ℕ → EmailDelivery → Bool
has_expired now row = is_sending row.state && before_now now row.leased_until

abbrev pub reclaimed : ℕ → ℕ → EmailDelivery → EmailDelivery
reclaimed max_attempts now row = record row {
  state =
      if leb max_attempts (row.attempt_count + 1) then EmailState.failed else EmailState.pending;
  attempt_count = row.attempt_count + 1;
  result_code = some ResultCode.lease_expired;
  available_at = now;
  leased_until = none;
}

abbrev pub reclaim_event : ℕ → EmailDelivery → DeliveryEvent
reclaim_event max_attempts row = record {
  delivery_id = row.id;
  outcome =
      if leb max_attempts (row.attempt_count + 1)
      then DeliveryOutcome.failed
      else DeliveryOutcome.denied;
  reason_code = ResultCode.lease_expired;
}

-- An `UPDATE`: the rows that pass the test are replaced.
abbrev pub update :
    (EmailDelivery → Bool)
    → (EmailDelivery → EmailDelivery)
    → List EmailDelivery
    → List EmailDelivery
update p f [] = []
update p f (row ∷ rows) = (if p row then f row else row) ∷ update p f rows

-- `reclaim_expired_leases`
unfoldable pub reclaim_expired_leases : ℕ → ℕ → Outbox → Outbox × ℕ
reclaim_expired_leases max_attempts now box =
    let expired = keep (has_expired now) box.rows in
    (
      record {
        rows = update (has_expired now) (reclaimed max_attempts now) box.rows;
        events = box.events ++ map (reclaim_event max_attempts) expired;
      },
      length expired,
    )

-- `WHERE state = 'pending' AND available_at <= :now`
abbrev pub is_due : ℕ → EmailDelivery → Bool
is_due now row = is_pending row.state && leb row.available_at now

-- `ORDER BY available_at`
unfoldable pub insert : EmailDelivery → List EmailDelivery → List EmailDelivery
insert row [] = row ∷ []
insert row (r ∷ rows) =
    if leb row.available_at r.available_at then row ∷ r ∷ rows else r ∷ insert row rows

unfoldable pub by_available_at : List EmailDelivery → List EmailDelivery
by_available_at [] = []
by_available_at (row ∷ rows) = insert row (by_available_at rows)

abbrev pub ids : List EmailDelivery → List ℕ
ids [] = []
ids (row ∷ rows) = row.id ∷ ids rows

-- The ids that the inner `SELECT` of `_CLAIM_SQL` gives.
unfoldable pub selected : ℕ → ℕ → List EmailDelivery → List ℕ
selected batch_size now rows = ids (take batch_size (by_available_at (keep (is_due now) rows)))

abbrev pub leased : ℕ → EmailDelivery → EmailDelivery
leased until row = record row { state = EmailState.sending; leased_until = some until }

abbrev pub claim_of : EmailDelivery → ClaimedDelivery
claim_of row = record {
  id = row.id;
  template_code = row.template_code;
  recipient_address = row.recipient_address;
  attempt_count = row.attempt_count;
}

-- `claim_batch`
unfoldable pub claim_batch : Settings → ℕ → Outbox → Outbox × List ClaimedDelivery
claim_batch s now box =
    let chosen = λ (row : EmailDelivery). contains row.id (selected s.batch_size now box.rows) in
    (
      record box { rows = update chosen (leased (now + s.lease_seconds)) box.rows },
      map claim_of (keep chosen box.rows),
    )
