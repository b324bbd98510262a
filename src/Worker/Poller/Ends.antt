-- ===== src/Worker/Poller/Ends.antt =====
-- What the deliveries of services/worker/src/nebula_worker/poller.py leave of one row.
use mathlib.Core.Path.{subst}
use vpn.Prelude.{
  ℕ, ◌≡◌, ◌∙◌, ap, sym, refl, Bool, true, false, Option, none, some, List, [], ◌∷◌, contains, inl,
  inr, Bool-cases, Option-cases, arith, ◌==◌, if◌then◌else◌,
}
use vpn.Worker.Poller.{
  ResultCode, EmailDelivery, DeliveryOutcome, Outbox, ClaimedDelivery, Settings, update,
}
use vpn.Worker.Poller.Delivery.{
  World, Payload, staged, unavailable, undecodable, deliver_payload, SendResult, accepted,
  send_error, raised, mark_sent, finalized, transact, is_known, finalize, settle_sent, deliver_one,
  deliver_all,
}
use vpn.Worker.Poller.Rows.{find, find-update, find_id, find_claim, claim_ids, IsDistinct}

-- What the end of `deliver_one` makes of the claimed row.
abbrev pub after_send : Settings → ℕ → ClaimedDelivery → SendResult → EmailDelivery → EmailDelivery
after_send s now d (accepted message_id) row = mark_sent now message_id row
after_send s now d send_error row = finalized s now d ResultCode.send_failed row
after_send s now d raised row = row

abbrev pub after_payload :
    World → Settings → ℕ → Payload → ClaimedDelivery → EmailDelivery → EmailDelivery
after_payload w s now staged d row =
    if is_known d.template_code
    then after_send s now d (w.send d.id) row
    else finalized s now d ResultCode.unknown_template row
after_payload w s now unavailable d row = finalized s now d ResultCode.payload_unavailable row
after_payload w s now undecodable d row = row

abbrev pub after_delivery : World → Settings → ℕ → ClaimedDelivery → EmailDelivery → EmailDelivery
after_delivery w s now d row =
    if w.commits d.id then after_payload w s now (w.payload d.id) d row else row

abbrev pub map_row : (EmailDelivery → EmailDelivery) → Option EmailDelivery → Option EmailDelivery
map_row f none = none
map_row f (some row) = some (f row)

finalized_id :
    (s : Settings) (now : ℕ) (d : ClaimedDelivery) (code : ResultCode) (row : EmailDelivery)
    → (finalized s now d code row).id ≡ row.id
finalized_id s now d code row = ground arith

at_row :
    (f : EmailDelivery → EmailDelivery) (j k : ℕ) (row : EmailDelivery)
    → row.id ≡ k
    → (if row.id == j then f row else row) ≡ (if j == k then f row else row)
at_row f j k row h = elim (Bool-cases (j == k)) [
  | inl same ↦ let same' : (row.id == j) ≡ true = ground arith in rw (same, same') refl
  | inr other ↦ let other' : (row.id == j) ≡ false = ground arith in rw (other, other') refl
]

-- An `UPDATE ... WHERE id = j`.
find-where :
    (f : EmailDelivery → EmailDelivery) (j k : ℕ) (rows : List EmailDelivery)
    → ((row : EmailDelivery) → (f row).id ≡ row.id)
    → find k (update (λ row. row.id == j) f rows)
      ≡ map_row (λ row. if j == k then f row else row) (find k rows)
find-where f j k rows h =
    find-update (λ row. row.id == j) f k rows h ∙ elim (Option-cases (find k rows)) [
      | inl e ↦ rw e refl
      | inr (row, e) ↦ rw e (ap some (at_row f j k row (find_id k rows e)))
    ]

pub map_row_same :
    (f : EmailDelivery → EmailDelivery) (o : Option EmailDelivery)
    → ((row : EmailDelivery) → f row ≡ row)
    → map_row f o ≡ o
map_row_same f none h = refl
map_row_same f (some row) h = ap some (h row)

find-transact :
    (commits : Bool) (f : EmailDelivery → EmailDelivery) (outcome : DeliveryOutcome)
    (code : ResultCode) (j k : ℕ) (box : Outbox)
    → ((row : EmailDelivery) → (f row).id ≡ row.id)
    → find k (transact commits j f outcome code box).rows
      ≡ map_row (λ row. if j == k then (if commits then f row else row) else row) (find k box.rows)
find-transact true f outcome code j k box h = find-where f j k box.rows h
find-transact false f outcome code j k box h =
    sym (map_row_same (λ row. if j == k then row else row) (find k box.rows) (λ row. ground arith))

module _ (w : World) (s : Settings) (now : ℕ) where
  find-settle_sent :
      (d : ClaimedDelivery) (r : SendResult) (k : ℕ) (box : Outbox)
      → find k (settle_sent w s now d r box).rows
        ≡ map_row
            (λ row.
              if d.id == k then (if w.commits d.id then after_send s now d r row else row) else row)
            (find k box.rows)
  unfolding settle_sent finalize
  find-settle_sent d (accepted m) k box =
      find-transact (w.commits d.id) (mark_sent now m) DeliveryOutcome.succeeded
        ResultCode.delivered d.id k box (λ row. refl)
  find-settle_sent d send_error k box =
      find-transact (w.commits d.id) (finalized s now d ResultCode.send_failed)
        DeliveryOutcome.denied ResultCode.send_failed d.id k box
        (finalized_id s now d ResultCode.send_failed)
  find-settle_sent d raised k box = sym (
      map_row_same (λ row. if d.id == k then (if w.commits d.id then row else row) else row)
        (find k box.rows) (λ row. ground arith))

  find-deliver_payload :
      (p : Payload) (d : ClaimedDelivery) (k : ℕ) (box : Outbox)
      → find k (deliver_payload w s now p d box).rows
        ≡ map_row
            (λ row.
              if d.id == k
              then (if w.commits d.id then after_payload w s now p d row else row)
              else row)
            (find k box.rows)
  unfolding deliver_payload finalize
  find-deliver_payload staged d k box = elim (Bool-cases (is_known d.template_code)) [
    | inl known ↦ rw known (find-settle_sent d (w.send d.id) k box)
    | inr unknown ↦ rw unknown (
        find-transact (w.commits d.id) (finalized s now d ResultCode.unknown_template)
          DeliveryOutcome.failed ResultCode.unknown_template d.id k box
          (finalized_id s now d ResultCode.unknown_template))
  ]
  find-deliver_payload unavailable d k box =
      find-transact (w.commits d.id) (finalized s now d ResultCode.payload_unavailable)
        DeliveryOutcome.failed ResultCode.payload_unavailable d.id k box
        (finalized_id s now d ResultCode.payload_unavailable)
  find-deliver_payload undecodable d k box = sym (
      map_row_same (λ row. if d.id == k then (if w.commits d.id then row else row) else row)
        (find k box.rows) (λ row. ground arith))

  pub find-deliver_one :
      (d : ClaimedDelivery) (k : ℕ) (box : Outbox)
      → find k (deliver_one w s now d box).rows
        ≡ map_row (λ row. if d.id == k then after_delivery w s now d row else row) (find k box.rows)
  unfolding deliver_one
  find-deliver_one d k box = find-deliver_payload (w.payload d.id) d k box

  -- The claim with the id, if there is one, is what is done to the row.
  abbrev pub delivered_row : ℕ → Option ClaimedDelivery → EmailDelivery → EmailDelivery
  delivered_row k none row = row
  delivered_row k (some d) row = after_delivery w s now d row

  find_claim-none :
      (k : ℕ) (ds : List ClaimedDelivery)
      → contains k (claim_ids ds) ≡ false
      → find_claim k ds ≡ none
  find_claim-none k [] h = refl
  find_claim-none k (d ∷ ds) h = ground (arith, find_claim-none k ds)

  delivered_twice :
      (d : ClaimedDelivery) (ds : List ClaimedDelivery) (k : ℕ) (o : Option EmailDelivery)
      → contains d.id (claim_ids ds) ≡ false
      → map_row
          (delivered_row k (find_claim k ds))
          (map_row (λ row. if d.id == k then after_delivery w s now d row else row) o)
        ≡ map_row (delivered_row k (find_claim k (d ∷ ds))) o
  delivered_twice d ds k none h = refl
  delivered_twice d ds k (some row) h = elim (Bool-cases (d.id == k)) [
    | inl same ↦
        let e : d.id ≡ k = ground arith in
        let absent = find_claim-none k ds (subst (λ j. contains j (claim_ids ds) ≡ false) e h) in
        rw (same, absent) refl
    | inr other ↦ rw other refl
  ]

  pub find-deliver_all :
      (ds : List ClaimedDelivery) (k : ℕ) (box : Outbox)
      → IsDistinct (claim_ids ds)
      → find k (deliver_all w s now ds box).rows
        ≡ map_row (delivered_row k (find_claim k ds)) (find k box.rows)
  unfolding deliver_all
  find-deliver_all [] k box h = sym (map_row_same (λ row. row) (find k box.rows) (λ row. refl))
  find-deliver_all (d ∷ ds) k box h =
      find-deliver_all ds k (deliver_one w s now d box) h.1
      ∙ ap (map_row (delivered_row k (find_claim k ds))) (find-deliver_one d k box)
      ∙ delivered_twice d ds k (find k box.rows) h.0
