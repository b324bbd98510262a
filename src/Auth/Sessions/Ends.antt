-- ===== src/Auth/Sessions/Ends.antt =====
-- The absolute expiry of the administrators' sessions of
-- services/api/src/nebula_api/auth/redis_state.py, in runs of the methods.
use vpn.Prelude.{
  ℕ, ◌≤◌, ◌≡◌, refl, true, none, some, List, [], ◌∷◌, inl, inr, Option-cases, arith, leb,
}
use mathlib.Core.Path.{subst}
use vpn.Auth.Redis.{Redis, replied, answered}
use vpn.Auth.Sessions.{Session, get_session, rotate_csrf, rotate_session}
use vpn.Auth.Sessions.Methods.{
  is_duration, stepped, get_admin_session, validate_and_rotate_csrf, rotate_admin_session,
  revoke_admin_session,
}
use vpn.Auth.Sessions.Runs.{
  Op, passes, gets, rotates_csrf, rotates, revokes, step, run, Ends, AllEnd, pass-AllEnd,
  del-AllEnd, called-keeps, guarded-keeps, get_session-AllEnd, rotate_csrf-AllEnd,
  rotate_session-AllEnd,
}

module _ (r : Redis Session) where
  open r use {Store, get, del, pass}

  step-AllEnd :
      (last : ℕ) (op : Op) (now_ms : ℕ) (s : Store)
      → AllEnd r last s
      → AllEnd r last (step r op (now_ms, s)).1
  unfolding step get_admin_session validate_and_rotate_csrf rotate_admin_session
      revoke_admin_session
  step-AllEnd last (passes t) now_ms s h = pass-AllEnd r last t s h
  step-AllEnd last (gets call none idle_ms) now_ms s h = h
  step-AllEnd last (gets call (some key) idle_ms) now_ms s h =
      guarded-keeps r (AllEnd r last) call idle_ms (get_session r key now_ms idle_ms s) s h
        (get_session-AllEnd r last key now_ms idle_ms s h)
  step-AllEnd last (rotates_csrf call none current replacement idle_ms) now_ms s h = h
  step-AllEnd last (rotates_csrf call (some key) none replacement idle_ms) now_ms s h = h
  step-AllEnd last (rotates_csrf call (some key) (some current) replacement idle_ms) now_ms s h =
      guarded-keeps r (AllEnd r last) call idle_ms
        (rotate_csrf r key now_ms idle_ms current replacement s) s h
        (rotate_csrf-AllEnd r last key now_ms idle_ms current replacement s h)
  step-AllEnd last (rotates call none new_key session_id csrf stepped_up idle_ms) now_ms s h = h
  step-AllEnd last (rotates call (some key) new_key session_id csrf stepped_up idle_ms) now_ms s h =
      guarded-keeps r (AllEnd r last) call idle_ms
        (rotate_session r key new_key now_ms idle_ms session_id (stepped stepped_up now_ms) csrf s)
        s h
        (rotate_session-AllEnd r last key new_key now_ms idle_ms session_id csrf
          (stepped stepped_up now_ms) s h)
  step-AllEnd last (revokes call none) now_ms s h = h
  step-AllEnd last (revokes call (some key)) now_ms s h =
      called-keeps r (AllEnd r last) call (tt, del key s) s h (del-AllEnd r last key s h)

  run-AllEnd :
      (last : ℕ) (ops : List Op) (now_ms : ℕ) (s : Store)
      → AllEnd r last s
      → AllEnd r last (run r ops (now_ms, s)).1
  unfolding run
  run-AllEnd last [] now_ms s h = h
  run-AllEnd last (op ∷ ops) now_ms s h =
      run-AllEnd last ops (step r op (now_ms, s)).0 (step r op (now_ms, s)).1
        (step-AllEnd last op now_ms s h)

  ended :
      (last key now_ms idle_ms : ℕ) (s : Store)
      → is_duration idle_ms ≡ true
      → last ≤ now_ms
      → AllEnd r last s
      → (get_admin_session r answered (some key) now_ms idle_ms s).0 ≡ replied none
  unfolding get_admin_session get_session
  ended last key now_ms idle_ms s ok le h = elim (Option-cases (get key s)) [
    | inl e ↦ rw (ok, e) refl
    | inr ((x, ttl), e) ↦
        let b : x.absolute_expires_ms ≤ last = subst (Ends last) e (h key) in
        let over : leb x.absolute_expires_ms now_ms ≡ true = ground arith in rw (ok, e, over) refl
  ]

  -- When every session ends by `last`, no token is a session's from then on: not after any run of
  -- the methods other than the sign-in, however used and ended, with any times between them.
  pub sessions-end :
      (last now_ms key idle_ms : ℕ) (ops : List Op) (s : Store)
      → is_duration idle_ms ≡ true
      → AllEnd r last s
      → last ≤ (run r ops (now_ms, s)).0
      → let (later_ms, s') = run r ops (now_ms, s) in
        (get_admin_session r answered (some key) later_ms idle_ms s').0 ≡ replied none
  sessions-end last now_ms key idle_ms ops s ok h le =
      ended last key (run r ops (now_ms, s)).0 idle_ms (run r ops (now_ms, s)).1 ok le
        (run-AllEnd last ops now_ms s h)
