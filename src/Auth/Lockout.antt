-- ===== src/Auth/Lockout.antt =====
-- The lockout of an administrator's account: `lockout_status`, `record_admin_failure` and
-- `clear_admin_failures` of services/api/src/nebula_api/auth/redis_state.py, with their scripts. The
-- key is the one that is derived for the account; times are milliseconds.
pub mod Threshold
pub mod Holding
use vpn.Prelude.{
  ℕ, ◌+◌, ◌-◌, ◌*◌, Bool, true, false, ◌&&◌, Option, none, some, ltb, leb, ◌==◌, if◌then◌else◌,
}
use Prim.Native.Nat.{◌/◌}
use vpn.Auth.Redis.{
  Redis, Entry, Reply, replied, invalid, unavailable, Call, called, write, pexpire,
}

-- The hash under an account's key. Both fields are always written together.
pub record Failures : Type 0 where
  pub failures : ℕ
  pub locked_until_ms : ℕ

pub record LockoutState : Type 0 where
  pub locked : Bool
  pub retry_after_seconds : ℕ

-- `_ceil_seconds`
abbrev pub ceil_seconds : ℕ → ℕ
ceil_seconds milliseconds = (milliseconds + 999) / 1000

-- `tonumber(redis.call('HGET', KEYS[1], ...) or '0')`
abbrev pub until_of : Option (Entry Failures) → ℕ
until_of none = 0
until_of (some (h, ttl)) = h.locked_until_ms

abbrev pub failures_of : Option (Entry Failures) → ℕ
failures_of none = 0
failures_of (some (h, ttl)) = h.failures

-- The outcome of `_LOCKOUT_FAILURE_LUA`.
pub record Failed : Type 0 where
  pub locked : Bool
  pub remaining_ms : ℕ

abbrev pub state_of : Reply Failed → Reply LockoutState
state_of (replied f) =
    replied (record { locked = f.locked; retry_after_seconds = ceil_seconds f.remaining_ms })
state_of invalid = invalid
state_of unavailable = unavailable

abbrev pub status_of : Reply ℕ → Reply LockoutState
status_of (replied ms) =
    replied (record { locked = ltb 0 ms; retry_after_seconds = ceil_seconds ms })
status_of invalid = invalid
status_of unavailable = unavailable

module _ (r : Redis Failures) where
  open r use {Store, get, del}

  -- `_LOCKOUT_STATUS_LUA`
  unfoldable pub lockout_ms : ℕ → ℕ → Store → ℕ × Store
  lockout_ms key now_ms s =
      let until_ms = until_of (get key s) in
      if ltb now_ms until_ms
      then (until_ms - now_ms, s)
      else (0, if ltb 0 until_ms then del key s else s)

  -- `HSET` of both fields, then `PEXPIRE`.
  unfoldable pub set_failures : ℕ → ℕ → Failures → Store → Store
  set_failures key lock_ms h s = pexpire r key lock_ms (write r key (λ old. h) s)

  -- `_LOCKOUT_FAILURE_LUA`
  unfoldable pub fail : ℕ → ℕ → ℕ → ℕ → Store → Failed × Store
  fail key now_ms threshold lock_ms s =
      let until_ms = until_of (get key s) in
      let failures = failures_of (get key s) + 1 in
      if ltb now_ms until_ms
      then (record { locked = true; remaining_ms = until_ms - now_ms }, s)
      else (if leb threshold failures
          then (
            record { locked = true; remaining_ms = lock_ms },
            set_failures key lock_ms
                (record { failures = threshold; locked_until_ms = now_ms + lock_ms }) s,
          )
          else (
            record { locked = false; remaining_ms = 0 },
            set_failures key lock_ms (record { failures = failures; locked_until_ms = 0 }) s,
          ))

  -- `lockout_status`
  unfoldable pub lockout_status : Call → ℕ → ℕ → Store → Reply LockoutState × Store
  unfolding lockout_ms
  lockout_status call key now_ms s =
      let (reply, s') = called call (lockout_ms key now_ms s) s in (status_of reply, s')

  -- `record_admin_failure`
  unfoldable pub record_admin_failure : Call → ℕ → ℕ → ℕ → ℕ → Store → Reply LockoutState × Store
  unfolding fail
  record_admin_failure call key now_ms threshold lock_seconds s =
      if leb 2 threshold && leb threshold 100 && leb 1 lock_seconds && leb lock_seconds 86400
      then (let (reply, s') = called call (fail key now_ms threshold (lock_seconds * 1000) s) s in
          (state_of reply, s'))
      else (invalid, s)

  -- `clear_admin_failures`
  unfoldable pub clear_admin_failures : Call → ℕ → Store → Reply Unit × Store
  clear_admin_failures call key s = called call (tt, del key s) s
