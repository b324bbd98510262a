-- ===== src/Worker/Tests.antt =====
-- A small queue for services/worker/src/nebula_worker/poller.py, and the theorems about it.
use vpn.Prelude.{
  ℕ, ◌+◌, ◌≡◌, refl, true, false, Option, none, some, [], ◌∷◌, contains, arith, ◌==◌, if◌then◌else◌,
}
use vpn.Worker.Poller.{
  TemplateCode, EmailState, EmailDelivery, Outbox, Settings, ids, has_expired,
  reclaim_expired_leases, insert, by_available_at, selected, claim_batch,
}
use vpn.Worker.Poller.Delivery.{World, SendResult, staged, accepted, send_error, poll_once}
use vpn.Worker.Poller.Rows.{find, claim_ids, IsDistinct}
use vpn.Worker.Poller.Ends.{map_row}
use vpn.Worker.Poller.Claims.{claim_batch-disjoint}
use vpn.Worker.Poller.Polls.{free_row, claimed_row, claims, poll_once-row}
use vpn.Worker.Poller.Attempts.{IsWithin, poll_once-IsWithin, poll_once-held}
use vpn.Worker.Poller.Progress.{IsTried, poll_once-progress}

abbrev row : ℕ → EmailState → ℕ → Option ℕ → EmailDelivery
row id state attempt_count leased_until = record {
  id = id;
  template_code = TemplateCode.user_activation;
  recipient_address = 70 + id;
  state = state;
  attempt_count = attempt_count;
  available_at = 90 + id;
  leased_until = leased_until;
  sent_at = none;
  provider_message_id = none;
  result_code = none;
}

-- Two due, one whose lease has expired, one that was sent, and one that is not due yet.
abbrev box : Outbox
box = record {
  rows =
      row 3 EmailState.pending 0 none
      ∷ row 1 EmailState.pending 1 none
      ∷ row 2 EmailState.sending 2 (some 95)
      ∷ row 4 EmailState.sent 1 (some 80)
      ∷ row 20 EmailState.pending 0 none
      ∷ [];
  events = [];
}

abbrev settings : Settings
settings = record { lease_seconds = 60; batch_size = 2; max_attempts = 3 }

-- The provider takes delivery 1 and refuses every other.
abbrev send : ℕ → SendResult
send k = if k == 1 then accepted 500 else send_error

abbrev world : World
world = record { payload = λ k. staged; send = send; commits = λ k. true }

distinct : IsDistinct (ids box.rows)
distinct = (refl, (refl, (refl, (refl, (refl, tt)))))

claims_two : claims world settings 100 box ≡ 1 ∷ 3 ∷ []
unfolding reclaim_expired_leases selected by_available_at insert
claims_two = refl

poll_once-row_example :
    find 1 (poll_once world settings 100 box).0.rows
    ≡ map_row
        (λ r.
          claimed_row world settings 100
            (contains 1 (claims world settings 100 box))
            (free_row world settings 100 r))
        (find 1 box.rows)
poll_once-row_example = poll_once-row world settings 100 1 box distinct

poll_once-IsWithin_example :
    (row' : EmailDelivery) × (find 2 (poll_once world settings 100 box).0.rows ≡ some row')
    × IsWithin 3 row'
poll_once-IsWithin_example =
    poll_once-IsWithin world settings 100 2 box (row 2 EmailState.sending 2 (some 95)) distinct refl
      (omega arith, λ c. omega arith)

poll_once-held_example :
    (row' : EmailDelivery) × (find 2 (poll_once world settings 100 box).0.rows ≡ some row')
    × (has_expired 100 row' ≡ false)
poll_once-held_example =
    poll_once-held world settings 100 2 box (row 2 EmailState.sending 2 (some 95)) distinct refl

claims_three : contains 3 (claims world settings 100 box) ≡ true
unfolding reclaim_expired_leases selected by_available_at insert
claims_three = refl

poll_once-progress_example :
    (row' : EmailDelivery) × (find 3 (poll_once world settings 100 box).0.rows ≡ some row')
    × IsTried 100 0 row'
poll_once-progress_example =
    poll_once-progress world settings 100 3 box (row 3 EmailState.pending 0 none) distinct refl
      claims_three refl refl refl

claimed_one : contains 1 (claim_ids (claim_batch settings 100 box).1) ≡ true
unfolding claim_batch selected by_available_at insert
claimed_one = refl

claim_batch-disjoint_example :
    contains 1 (claim_ids (claim_batch settings 130 (claim_batch settings 100 box).0).1) ≡ false
claim_batch-disjoint_example =
    claim_batch-disjoint 1 settings settings 100 130 box distinct claimed_one
