-- ===== src/Worker/Poller/Polls.antt =====
-- What one `poll_once` of services/worker/src/nebula_worker/poller.py does to a row.
use vpn.Prelude.{
  ℕ, ◌+◌, ◌≡◌, ◌∙◌, ap, refl, Bool, Option, none, some, List, map, keep, contains, inl, inr,
  Bool-cases, arith, if◌then◌else◌,
}
use vpn.Worker.Poller.{
  EmailDelivery, Outbox, Settings, ids, update, claim_of, reclaim_expired_leases, claim_batch,
  has_expired, reclaimed, selected, leased,
}
use vpn.Worker.Poller.Delivery.{World, poll_once}
use vpn.Worker.Poller.Rows.{
  find, ids-update, find-update, updated, find_claim-keep, keep-IsDistinct, claim_if, IsDistinct,
  find_id,
}
use vpn.Worker.Poller.Ends.{after_delivery, map_row, delivered_row, find-deliver_all}

module _ (w : World) (s : Settings) (now : ℕ) where
  abbrev pub free_row : EmailDelivery → EmailDelivery
  free_row row = if has_expired now row then reclaimed s.max_attempts now row else row

  abbrev pub claimed_row : Bool → EmailDelivery → EmailDelivery
  claimed_row chosen row =
      if chosen
      then after_delivery w s now (claim_of row) (leased (now + s.lease_seconds) row)
      else row

  -- The ids that this poll claims.
  abbrev pub claims : Outbox → List ℕ
  claims box = selected s.batch_size now (reclaim_expired_leases s.max_attempts now box).0.rows

  free_row_id : (row : EmailDelivery) → (free_row row).id ≡ row.id
  free_row_id row = ground arith

  claim_row :
      (k : ℕ) (sel : List ℕ) (row : EmailDelivery)
      → row.id ≡ k
      → map_row
          (delivered_row w s now k (claim_if (λ r. contains r.id sel) (some row)))
          (updated (λ r. contains r.id sel) (leased (now + s.lease_seconds)) (some row))
        ≡ some (claimed_row (contains k sel) row)
  claim_row k sel row h =
      let same : contains row.id sel ≡ contains k sel = ap (λ j. contains j sel) h in
      elim (Bool-cases (contains k sel)) [
        | inl hit ↦ let hit' = same ∙ hit in rw (hit', hit) refl
        | inr miss ↦ let miss' = same ∙ miss in rw (miss', miss) refl
      ]

  claim_found :
      (k : ℕ) (sel : List ℕ) (o : Option EmailDelivery)
      → ((row : EmailDelivery) → o ≡ some row → row.id ≡ k)
      → map_row
          (delivered_row w s now k (claim_if (λ r. contains r.id sel) o))
          (updated (λ r. contains r.id sel) (leased (now + s.lease_seconds)) o)
        ≡ map_row (claimed_row (contains k sel)) o
  claim_found k sel none h = refl
  claim_found k sel (some row) h = claim_row k sel row (h row refl)

  free_found :
      (o : Option EmailDelivery)
      → updated (has_expired now) (reclaimed s.max_attempts now) o ≡ map_row free_row o
  free_found none = refl
  free_found (some row) = refl

  map_row_twice :
      (f g : EmailDelivery → EmailDelivery) (o : Option EmailDelivery)
      → map_row f (map_row g o) ≡ map_row (λ row. f (g row)) o
  map_row_twice f g none = refl
  map_row_twice f g (some row) = refl

  -- Each row after a poll, where no two share an id: an expired lease is given back, then the row is claimed if it is among
  -- the rows that this poll selects, and delivered.
  pub poll_once-row :
      (k : ℕ) (box : Outbox)
      → IsDistinct (ids box.rows)
      → find k (poll_once w s now box).0.rows
        ≡ map_row (λ row. claimed_row (contains k (claims box)) (free_row row)) (find k box.rows)
  unfolding poll_once reclaim_expired_leases claim_batch
  poll_once-row k box h =
      let sel = claims box in
      let free = update (has_expired now) (reclaimed s.max_attempts now) box.rows in
      let chosen : EmailDelivery → Bool = λ row. contains row.id sel in
      let held = update chosen (leased (now + s.lease_seconds)) free in
      let claimed = map claim_of (keep chosen free) in
      let distinct : IsDistinct (ids free) =
        rw (ids-update (has_expired now) (reclaimed s.max_attempts now) box.rows (λ row. refl)) h in
      find-deliver_all w s now claimed k
        (claim_batch s now (reclaim_expired_leases s.max_attempts now box).0).0
        (keep-IsDistinct chosen free distinct)
      ∙ ap (λ c. map_row (delivered_row w s now k c) (find k held))
          (find_claim-keep chosen k free distinct)
      ∙ ap (map_row (delivered_row w s now k (claim_if chosen (find k free))))
          (find-update chosen (leased (now + s.lease_seconds)) k free (λ row. refl))
      ∙ claim_found k sel (find k free) (λ row e. find_id k free e)
      ∙ ap (map_row (claimed_row (contains k sel))) (
          find-update (has_expired now) (reclaimed s.max_attempts now) k box.rows (λ row. refl)
          ∙ free_found (find k box.rows))
      ∙ map_row_twice (claimed_row (contains k sel)) free_row (find k box.rows)
