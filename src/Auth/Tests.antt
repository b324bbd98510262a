-- ===== src/Auth/Tests.antt =====
-- A Redis with a few keys for services/api/src/nebula_api/auth/redis_state.py, and the
-- theorems at them.
use vpn.Prelude.{
  ℕ, ◌≤◌, ◌≡◌, refl, inl, inr, Bool-cases, true, false, Option, none, some, List, [], ◌∷◌, arith,
  ◌==◌, if◌then◌else◌,
}
use vpn.Auth.Redis.{Entry, replied, answered, lost}
use vpn.Auth.Redis.Keyed.{keyed, no_keys}
use vpn.Auth.RateLimit.Windows.{attempts, rate_limit-window}
use vpn.Auth.Lockout.{Failures, LockoutState, lockout_status, record_admin_failure}
use vpn.Auth.Lockout.Threshold.{failing, failing-threshold}
use vpn.Auth.Lockout.Holding.{locked-holds, locked-ends}
use vpn.Auth.Challenges.{Challenge, login, step_up, issue_preauth, consume_preauth, peek_preauth}
use vpn.Auth.Challenges.Once.{consume_preauth-issue_preauth, consume_preauth-again}
use vpn.Auth.Sessions.{Session, totp, session_record}
use vpn.Auth.Sessions.Methods.{get_admin_session, rotate_admin_session, validate_and_rotate_csrf}
use vpn.Auth.Sessions.Runs.{Op, passes, gets, rotates, step, run, AllEnd}
use vpn.Auth.Sessions.Ends.{sessions-end}
use vpn.Auth.Sessions.Idle.{get_admin_session-idle}
use vpn.Auth.Sessions.Rotation.{rotate_admin_session-moves, validate_and_rotate_csrf-once}

-- One key of a store.
abbrev one_key : {V : Type 0} → ℕ → V → ℕ → ℕ → Option (Entry V)
one_key k v left j = if k == j then some (v, some left) else none

-- Three attempts a minute are let through, and a fourth is not.
rate_limit-window_example :
    let (n, s') = attempts (keyed ℕ) 3 60 7 (500 ∷ 1000 ∷ 2000 ∷ 30000 ∷ []) no_keys in
    (n ≡ 3) × ((keyed ℕ).get 7 ((keyed ℕ).pass 60000 s') ≡ none)
rate_limit-window_example =
    rate_limit-window (keyed ℕ) 3 60 7 500 (1000 ∷ 2000 ∷ 30000 ∷ []) no_keys refl refl
      (omega arith)

failing-threshold_example :
    let (reply, s') = failing (keyed Failures) 7 3 60 1000 10 (20 ∷ 30 ∷ []) no_keys in
    (reply ≡ replied (record { locked = true; retry_after_seconds = 60 }))
    × ((keyed Failures).get 7 s'
        ≡ some (record { failures = 3; locked_until_ms = 61060 }, some 60000))
failing-threshold_example =
    failing-threshold (keyed Failures) 7 3 60 1000 10 (20 ∷ 30 ∷ []) no_keys refl refl (omega arith)
      (omega arith, (omega arith, tt))

abbrev lock : Failures
lock = record { failures = 3; locked_until_ms = 61000 }

locked-holds_example :
    let s' = (keyed Failures).pass 500 (one_key 7 lock 60000) in
    let state : LockoutState = record { locked = true; retry_after_seconds = 60 } in
    (lockout_status (keyed Failures) answered 7 1500 s' ≡ (replied state, s'))
    × (record_admin_failure (keyed Failures) answered 7 1500 3 60 s' ≡ (replied state, s'))
locked-holds_example =
    locked-holds (keyed Failures) 7 3 60 1000 500 3 (one_key 7 lock 60000) refl refl (omega arith)

-- The key outlives its lock here, by a clock that is behind.
locked-ends_example :
    let s = one_key 7 lock 90000 in
    let (status, s') = lockout_status (keyed Failures) answered 7 61000 s in
    let (reply, s2) = record_admin_failure (keyed Failures) answered 7 61001 3 60 s' in
    let unlocked : LockoutState = record { locked = false; retry_after_seconds = 0 } in
    (status ≡ replied unlocked)
    × ((keyed Failures).get 7 s' ≡ none)
    × (reply ≡ replied unlocked)
    × ((keyed Failures).get 7 s2 ≡ some (record { failures = 1; locked_until_ms = 0 }, some 60000))
locked-ends_example =
    locked-ends (keyed Failures) 7 7 3 60 61000 61001 lock (some 90000) (one_key 7 lock 90000) refl
      refl (omega arith) (omega arith)

consume_preauth-issue_preauth_example :
    let s' =
      (keyed Challenge).pass 9000
        (issue_preauth (keyed Challenge) answered 4 1 login 8 100 10 no_keys).1 in
    (consume_preauth (keyed Challenge) answered (some 4) login 8 s').0 ≡ replied (some 1)
consume_preauth-issue_preauth_example =
    consume_preauth-issue_preauth (keyed Challenge) 4 1 8 8 100 10 9000 login login no_keys refl
      refl

abbrev challenge : Challenge
challenge = record { admin_id = 1; purpose = login; context_digest = 8; detail = 100 }

consume_preauth-again_example :
    let s' =
      (keyed Challenge).pass 5
        (consume_preauth
          (keyed Challenge)
          answered
          (some 4)
          login
          8
          (one_key 4 challenge 10000)).1 in
    (consume_preauth (keyed Challenge) answered (some 4) step_up 9 s' ≡ (replied none, s'))
    × (peek_preauth (keyed Challenge) answered (some 4) step_up 9 s' ≡ (replied none, s'))
unfolding consume_preauth
consume_preauth-again_example =
    consume_preauth-again (keyed Challenge) 4 8 9 1 5 login step_up (one_key 4 challenge 10000) refl

abbrev session : Session
session = record {
  admin_id = 1;
  session_id = 2;
  created_ms = 0;
  last_seen_ms = 0;
  absolute_expires_ms = 100000;
  mfa_method = totp;
  step_up_ms = none;
  csrf_digest = 55;
}

abbrev signed_in : ℕ → Option (Entry Session)
signed_in = one_key 9 session 60000

abbrev ops : List Op
ops =
    passes 30000
    ∷ gets answered (some 9) 60000
    ∷ rotates lost (some 9) 10 3 56 false 60000
    ∷ passes 50000
    ∷ gets answered (some 10) 60000
    ∷ passes 20000
    ∷ []

signed_in-AllEnd : AllEnd (keyed Session) 100000 signed_in
signed_in-AllEnd k = elim (Bool-cases (9 == k)) [
  | inl hit ↦ rw hit (omega arith)
  | inr miss ↦ rw miss tt
]

ops_last : 100000 ≤ (run (keyed Session) ops (0, signed_in)).0
unfolding run step
ops_last = omega arith

sessions-end_example :
    let (later_ms, s') = run (keyed Session) ops (0, signed_in) in
    (get_admin_session (keyed Session) answered (some 10) later_ms 60000 s').0 ≡ replied none
sessions-end_example =
    sessions-end (keyed Session) 100000 0 10 60000 ops signed_in refl signed_in-AllEnd ops_last

get_admin_session-idle_example :
    let s' =
      (keyed Session).pass 59999
        (get_admin_session (keyed Session) answered (some 9) 10000 60000 signed_in).1 in
    (get_admin_session (keyed Session) answered (some 9) 69999 60000 s').0
    ≡ replied (some (session_record (record session { last_seen_ms = 69999 })))
get_admin_session-idle_example =
    get_admin_session-idle (keyed Session) 9 10000 60000 59999 session (some 60000) signed_in refl
      refl (omega arith)

abbrev moved : Session
moved = record session {
  session_id = 3;
  created_ms = 10000;
  last_seen_ms = 10000;
  step_up_ms = some 10000;
  csrf_digest = 56;
}

rotate_admin_session-moves_example :
    let (reply, s') =
      rotate_admin_session (keyed Session) answered (some 9) 10 3 56 true 10000 60000 signed_in in
    (reply ≡ replied (some (session_record moved)))
    × ((get_admin_session (keyed Session) answered (some 9) 10000 60000 s').0 ≡ replied none)
    × ((keyed Session).get 10 s' ≡ some (moved, some 60000))
rotate_admin_session-moves_example =
    rotate_admin_session-moves (keyed Session) 9 10 10 3 56 10000 60000 true session (some 60000)
      signed_in refl refl refl (omega arith)

validate_and_rotate_csrf-once_example :
    let (reply, s') =
      validate_and_rotate_csrf
        (keyed Session)
        answered
        (some 9)
        (some 55)
        56
        10000
        60000
        signed_in in
    (reply ≡ replied (some 56))
    × (validate_and_rotate_csrf (keyed Session) answered (some 9) (some 55) 57 10000 60000 s'
        ≡ (replied none, s'))
    × ((validate_and_rotate_csrf (keyed Session) answered (some 9) (some 56) 57 10000 60000 s').0
        ≡ replied (some 57))
validate_and_rotate_csrf-once_example =
    validate_and_rotate_csrf-once (keyed Session) 9 55 56 57 10000 60000 session (some 60000)
      signed_in refl refl (omega arith) refl refl
