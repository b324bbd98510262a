-- ===== src/Auth/Lockout/Holding.antt =====
-- A lock of services/api/src/nebula_api/auth/redis_state.py, while it lasts and afterwards.
use vpn.Prelude.{
  leb, ◌==◌, ==_refl, if◌then◌else◌, Option, inl, inr, Bool-cases, ℕ, ◌+◌, ◌-◌, ◌*◌, ◌≤◌, ◌<◌, ◌≡◌,
  ◌∙◌, ap, refl, true, false, none, some, arith, ltb,
}
use vpn.Auth.Redis.{Redis, aged, replied, answered}
use vpn.Auth.Lockout.{
  Failures, LockoutState, ceil_seconds, until_of, lockout_ms, fail, lockout_status,
  record_admin_failure,
}
use vpn.Auth.Lockout.Threshold.{is_policy, set_failures_lem}

module _ (r : Redis Failures) where
  open r use {Store, get, del, pass}

  lockout_ms_held :
      (key now_ms until_ms : ℕ) (s : Store)
      → until_of (get key s) ≡ until_ms
      → now_ms < until_ms
      → lockout_ms r key now_ms s ≡ (until_ms - now_ms, s)
  unfolding lockout_ms
  lockout_ms_held key now_ms until_ms s u lt =
      let held : ltb now_ms until_ms ≡ true = ground arith in rw (u, held) refl

  fail_held :
      (key now_ms until_ms threshold lock_ms : ℕ) (s : Store)
      → until_of (get key s) ≡ until_ms
      → now_ms < until_ms
      → fail r key now_ms threshold lock_ms s
        ≡ (record { locked = true; remaining_ms = until_ms - now_ms }, s)
  unfolding fail
  fail_held key now_ms until_ms threshold lock_ms s u lt =
      let held : ltb now_ms until_ms ≡ true = ground arith in rw (u, held) refl

  -- While a lock lasts the status is locked with the seconds that remain, and another failure
  -- reports the same and changes nothing: it does not make the lock longer.
  pub locked-holds :
      (key threshold lock_seconds at elapsed failures : ℕ) (s : Store)
      → is_policy threshold lock_seconds ≡ true
      → get key s
        ≡ some (
          record { failures = failures; locked_until_ms = at + lock_seconds * 1000 },
          some (lock_seconds * 1000),
        )
      → elapsed < lock_seconds * 1000
      → let s' = pass elapsed s in
        let state : LockoutState = record {
          locked = true;
          retry_after_seconds = ceil_seconds (lock_seconds * 1000 - elapsed);
        } in
        (lockout_status r answered key (at + elapsed) s' ≡ (replied state, s'))
        × (record_admin_failure r answered key (at + elapsed) threshold lock_seconds s'
            ≡ (replied state, s'))
  unfolding lockout_status record_admin_failure
  locked-holds key threshold lock_seconds at elapsed failures s ok e lt =
      let s' = pass elapsed s in
      let until_ms = at + lock_seconds * 1000 in
      let in_time : ltb elapsed (lock_seconds * 1000) ≡ true = ground arith in
      let found : get key s'
          ≡ some (
            record { failures = failures; locked_until_ms = until_ms },
            some (lock_seconds * 1000 - elapsed),
          ) =
        r.get-pass key elapsed s ∙ ap (aged elapsed) e ∙ rw in_time refl in
      let status =
        lockout_ms_held key (at + elapsed) until_ms s' (ap until_of found) (omega arith) in
      let again =
        fail_held key (at + elapsed) until_ms threshold (lock_seconds * 1000) s' (ap until_of found)
          (omega arith) in
      let remaining : until_ms - (at + elapsed) ≡ lock_seconds * 1000 - elapsed = omega arith in
      let some_left : ltb 0 (lock_seconds * 1000 - elapsed) ≡ true = ground arith in
      (rw (status, remaining, some_left) refl, rw (ok, again, remaining) refl)

  -- Once a lock's time has passed, whatever time to live the key still has, the status is not locked
  -- and removes the key and no other, so that the next failure is the account's first: it does not
  -- lock, and the key has one failure and the whole lock time to live. The other keys are unchanged.
  pub locked-ends :
      (key j threshold lock_seconds now_ms later_ms : ℕ) (h : Failures) (ttl : Option ℕ) (s : Store)
      → is_policy threshold lock_seconds ≡ true
      → get key s ≡ some (h, ttl)
      → 0 < h.locked_until_ms
      → h.locked_until_ms ≤ now_ms
      → let (status, s') = lockout_status r answered key now_ms s in
        let (reply, s2) = record_admin_failure r answered key later_ms threshold lock_seconds s' in
        let unlocked : LockoutState = record { locked = false; retry_after_seconds = 0 } in
        (status ≡ replied unlocked)
        × (get j s' ≡ (if key == j then none else get j s))
        × (reply ≡ replied unlocked)
        × (get j s2 ≡ (
            if key == j
            then some (record { failures = 1; locked_until_ms = 0 }, some (lock_seconds * 1000))
            else get j s))
  unfolding lockout_status lockout_ms record_admin_failure fail
  locked-ends key j threshold lock_seconds now_ms later_ms h ttl s ok e pos le =
      let over : ltb now_ms h.locked_until_ms ≡ false = ground arith in
      let was : ltb 0 h.locked_until_ms ≡ true = ground arith in
      let gone : get key (del key s) ≡ none = r.get-del key key s ∙ rw (==_refl key) refl in
      let fresh : ltb later_ms 0 ≡ false = ground arith in
      let below : leb threshold 1 ≡ false = ground arith in
      let long : 0 < lock_seconds * 1000 = ground arith in
      let first : Failures = record { failures = 1; locked_until_ms = 0 } in
      rw (e, over, was, gone, ok, fresh, below)
        (
          refl,
          r.get-del j key s,
          refl,
          set_failures_lem r j key (lock_seconds * 1000) first (del key s) long
              ∙ elim (Bool-cases (key == j)) [
                | inl hit ↦ rw hit refl
                | inr miss ↦ rw miss (r.get-del j key s ∙ rw miss refl)
              ],
        )
