-- ===== src/Auth/Lockout/Threshold.antt =====
-- When the lockout of services/api/src/nebula_api/auth/redis_state.py begins, and when it ends.
use vpn.Prelude.{
  ℕ, suc, ◌+◌, ◌-◌, ◌*◌, ◌<◌, ◌≡◌, ◌∙◌, ap, refl, Bool, true, false, ◌&&◌, none, some, List, [],
  ◌∷◌, All, length, inl, inr, Bool-cases, Option-cases, arith, leb, ltb, ◌==◌, ==_refl,
  if◌then◌else◌,
}
use vpn.Auth.Redis.{Redis, aged, Reply, replied, answered, pexpire-write, written}
use vpn.Auth.Lockout.{
  Failures, LockoutState, ceil_seconds, until_of, failures_of, set_failures, fail,
  record_admin_failure,
}

abbrev pub total : List ℕ → ℕ
total [] = 0
total (pause ∷ pauses) = pause + total pauses

-- `not 2 <= threshold <= 100 or not 1 <= lock_seconds <= 86_400`, denied.
abbrev pub is_policy : ℕ → ℕ → Bool
is_policy threshold lock_seconds =
    leb 2 threshold && leb threshold 100 && leb 1 lock_seconds && leb lock_seconds 86400

ceil_whole : (n : ℕ) → ceil_seconds (n * 1000) ≡ n
ceil_whole n = omega arith

module _ (r : Redis Failures) where
  open r use {Store, get, pass}

  pub set_failures_lem :
      (j key lock_ms : ℕ) (h : Failures) (s : Store)
      → 0 < lock_ms
      → get j (set_failures r key lock_ms h s)
        ≡ (if key == j then some (h, some lock_ms) else get j s)
  unfolding set_failures
  set_failures_lem j key lock_ms h s pos = elim (Option-cases (get key s)) [
    | inl e ↦ pexpire-write r lock_ms j key (λ old. h) s pos (ap (written r (λ old. h)) e)
    | inr ((old, left), e) ↦
        pexpire-write r lock_ms j key (λ old. h) s pos (ap (written r (λ old. h)) e)
  ]

  -- A failure that does not find a lock.
  fail_lem :
      (key now_ms threshold lock_ms n : ℕ) (s : Store)
      → 0 < lock_ms
      → until_of (get key s) ≡ 0
      → failures_of (get key s) ≡ n
      → n < threshold
      → ((fail r key now_ms threshold lock_ms s).0 ≡ record {
        locked = n + 1 == threshold;
        remaining_ms = if n + 1 == threshold then lock_ms else 0;
      })
        × (get key (fail r key now_ms threshold lock_ms s).1
            ≡ some (
              record {
                failures = n + 1;
                locked_until_ms = if n + 1 == threshold then now_ms + lock_ms else 0;
              },
              some lock_ms,
            ))
  unfolding fail
  fail_lem key now_ms threshold lock_ms n s pos u f lt =
      let free : ltb now_ms 0 ≡ false = ground arith in
      elim (Bool-cases (leb threshold (n + 1))) [
        | inl last ↦
            let e : threshold ≡ n + 1 = ground arith in
            let same : (n + 1 == threshold) ≡ true = ground arith in
            rw (u, free, f, last, same, e)
              (
                refl,
                set_failures_lem key key lock_ms
                      (record { failures = n + 1; locked_until_ms = now_ms + lock_ms }) s pos
                    ∙ rw (==_refl key) refl,
              )
        | inr more ↦
            let other : (n + 1 == threshold) ≡ false = ground arith in
            rw (u, free, f, more, other)
              (
                refl,
                set_failures_lem key key lock_ms (record { failures = n + 1; locked_until_ms = 0 })
                      s pos
                    ∙ rw (==_refl key) refl,
              )
      ]

  -- Failures one after another, each after a pause: the last one's reply, its time, and the store.
  unfoldable pub failing : ℕ → ℕ → ℕ → ℕ → ℕ → List ℕ → Store → Reply LockoutState × Store
  failing key threshold lock_seconds now_ms pause [] s =
      record_admin_failure r answered key (now_ms + pause) threshold lock_seconds (pass pause s)
  failing key threshold lock_seconds now_ms pause (next ∷ pauses) s =
      failing key threshold lock_seconds (now_ms + pause) next pauses
        (record_admin_failure r answered key (now_ms + pause) threshold lock_seconds
          (pass pause s)).1

  one_failure :
      (key now_ms threshold lock_seconds n : ℕ) (s : Store)
      → is_policy threshold lock_seconds ≡ true
      → until_of (get key s) ≡ 0
      → failures_of (get key s) ≡ n
      → n < threshold
      → ((record_admin_failure r answered key now_ms threshold lock_seconds s).0
          ≡ replied (record {
            locked = n + 1 == threshold;
            retry_after_seconds = if n + 1 == threshold then lock_seconds else 0;
          }))
        × (get key (record_admin_failure r answered key now_ms threshold lock_seconds s).1
            ≡ some (
              record {
                failures = n + 1;
                locked_until_ms = if n + 1 == threshold then now_ms + lock_seconds * 1000 else 0;
              },
              some (lock_seconds * 1000),
            ))
  unfolding record_admin_failure
  one_failure key now_ms threshold lock_seconds n s ok u f lt =
      let pos : 0 < lock_seconds * 1000 = ground arith in
      let (reply, entry) = fail_lem key now_ms threshold (lock_seconds * 1000) n s pos u f lt in
      let whole = ceil_whole lock_seconds in
      elim (Bool-cases (n + 1 == threshold)) [
        | inl last ↦ rw (ok, reply, last, whole) (refl, entry ∙ rw last refl)
        | inr more ↦ rw (ok, reply, more) (refl, entry ∙ rw more refl)
      ]

  failing_from :
      (key threshold lock_seconds now_ms pause n : ℕ) (pauses : List ℕ) (s : Store)
      → is_policy threshold lock_seconds ≡ true
      → until_of (get key (pass pause s)) ≡ 0
      → failures_of (get key (pass pause s)) ≡ n
      → n + length pauses < threshold
      → All (λ p. p < lock_seconds * 1000) pauses
      → let (reply, s') = failing key threshold lock_seconds now_ms pause pauses s in
        (reply
          ≡ replied (record {
            locked = n + suc (length pauses) == threshold;
            retry_after_seconds = if n + suc (length pauses) == threshold then lock_seconds else 0;
          }))
        × (get key s'
            ≡ some (
              record {
                failures = n + suc (length pauses);
                locked_until_ms =
                    if n + suc (length pauses) == threshold
                    then now_ms + (pause + total pauses) + lock_seconds * 1000
                    else 0;
              },
              some (lock_seconds * 1000),
            ))
  unfolding failing
  failing_from key threshold lock_seconds now_ms pause n [] s ok u f lt small =
      let time : now_ms + (pause + 0) ≡ now_ms + pause = omega arith in
      rw time (
        one_failure key (now_ms + pause) threshold lock_seconds n (pass pause s) ok u f
          (omega arith))
  failing_from key threshold lock_seconds now_ms pause n (next ∷ pauses) s ok u f lt small =
      let s' =
        (record_admin_failure r answered key (now_ms + pause) threshold lock_seconds
          (pass pause s)).1 in
      let open_still : (n + 1 == threshold) ≡ false = ground arith in
      let entry =
        (one_failure key (now_ms + pause) threshold lock_seconds n (pass pause s) ok u f
          (omega arith)).1 in
      let entry' : get key s'
          ≡ some (record { failures = n + 1; locked_until_ms = 0 }, some (lock_seconds * 1000)) =
        entry ∙ rw open_still refl in
      let in_time : ltb next (lock_seconds * 1000) ≡ true = ground arith in
      let waited : get key (pass next s')
          ≡ some (
            record { failures = n + 1; locked_until_ms = 0 },
            some (lock_seconds * 1000 - next),
          ) =
        r.get-pass key next s' ∙ ap (aged next) entry' ∙ rw in_time refl in
      let count : n + 1 + suc (length pauses) ≡ n + suc (suc (length pauses)) = omega arith in
      let time : now_ms + pause + (next + total pauses) ≡ now_ms + (pause + (next + total pauses)) =
        omega arith in
      rw (← count, ← time)
        (failing_from key threshold lock_seconds (now_ms + pause) next (n + 1) pauses s' ok
          (ap until_of waited) (ap failures_of waited) (omega arith) small.1)

  -- Failures of an account that has none yet, with pauses shorter than a lock between them: the last
  -- one locks it exactly when it is the threshold's, for the whole lock time from then on; before
  -- that none does, and each is counted.
  pub failing-threshold :
      (key threshold lock_seconds now_ms first : ℕ) (pauses : List ℕ) (s : Store)
      → is_policy threshold lock_seconds ≡ true
      → get key s ≡ none
      → length pauses < threshold
      → All (λ p. p < lock_seconds * 1000) pauses
      → let (reply, s') = failing key threshold lock_seconds now_ms first pauses s in
        (reply
          ≡ replied (record {
            locked = suc (length pauses) == threshold;
            retry_after_seconds = if suc (length pauses) == threshold then lock_seconds else 0;
          }))
        × (get key s'
            ≡ some (
              record {
                failures = suc (length pauses);
                locked_until_ms =
                    if suc (length pauses) == threshold
                    then now_ms + (first + total pauses) + lock_seconds * 1000
                    else 0;
              },
              some (lock_seconds * 1000),
            ))
  failing-threshold key threshold lock_seconds now_ms first pauses s ok e lt small =
      let unused : get key (pass first s) ≡ none = r.get-pass key first s ∙ ap (aged first) e in
      let count : 0 + suc (length pauses) ≡ suc (length pauses) = omega arith in
      rw (← count) (
        failing_from key threshold lock_seconds now_ms first 0 pauses s ok (ap until_of unused)
          (ap failures_of unused) (omega arith) small)
