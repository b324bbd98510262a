-- ===== src/Auth/Sessions/Rotation.antt =====
-- The rotation of an administrator's session of services/api/src/nebula_api/auth/redis_state.py.
use vpn.Prelude.{
  if◌then◌else◌, ℕ, ◌-◌, ◌<◌, ◌≡◌, ◌∙◌, ap, sym, refl, min, Bool, true, false, Option, none, some,
  inl, inr, Bool-cases, arith, leb, ◌==◌, ==_refl,
}
use vpn.Auth.Redis.{Entry, Redis, replied, answered}
use vpn.Auth.Sessions.{
  Session, AdminSessionRecord, save, successor, rotate_session, rotate_csrf, new_csrf,
}
use vpn.Auth.Sessions.Methods.{
  is_duration, stepped, get_admin_session, rotate_admin_session, validate_and_rotate_csrf,
}
use vpn.Auth.Sessions.Runs.{get-save}
use vpn.Auth.Sessions.Idle.{get_admin_session-none}

module _ (r : Redis Session) where
  open r use {Store, get, del, pass}

  unused_apart :
      (key new_key : ℕ) (x : Session) (ttl : Option ℕ) (s : Store)
      → get key s ≡ some (x, ttl)
      → get new_key s ≡ none
      → (new_key == key) ≡ false
  unused_apart key new_key x ttl s e free = elim (Bool-cases (new_key == key)) [
    | inl same ↦
        let k : new_key ≡ key = ground arith in
        let gone : get key s ≡ none = ap (λ i. get i s) (sym k) ∙ free in
        let found : Option (Entry Session) = some (x, ttl) in
        let bad : found ≡ none = sym e ∙ gone in ground arith
    | inr apart ↦ apart
  ]

  -- A rotation of a live session to an unused key answers a record with the old session's
  -- administrator, method and absolute expiry, the new session id, both times now, and the step-up
  -- now where the caller stepped up. The old token is no session's any more, the new one is that
  -- session's, with the new CSRF digest and the idle time or what is left until the absolute expiry
  -- to live, and no other key's session is changed.
  pub rotate_admin_session-moves :
      (key new_key j session_id csrf now_ms idle_ms : ℕ) (stepped_up : Bool) (x : Session)
      (ttl : Option ℕ) (s : Store)
      → is_duration idle_ms ≡ true
      → get key s ≡ some (x, ttl)
      → get new_key s ≡ none
      → now_ms < x.absolute_expires_ms
      → let step_up = if stepped_up then some now_ms else none in
        let moved : Session = record {
          admin_id = x.admin_id;
          session_id = session_id;
          created_ms = now_ms;
          last_seen_ms = now_ms;
          absolute_expires_ms = x.absolute_expires_ms;
          mfa_method = x.mfa_method;
          step_up_ms = step_up;
          csrf_digest = csrf;
        } in
        let shown : AdminSessionRecord = record {
          admin_id = x.admin_id;
          session_id = session_id;
          mfa_method = x.mfa_method;
          created_at = now_ms;
          last_seen_at = now_ms;
          absolute_expires_at = x.absolute_expires_ms;
          step_up_at = step_up;
        } in
        let (reply, s') =
          rotate_admin_session r answered
            (some key)
            new_key
            session_id
            csrf
            stepped_up
            now_ms
            idle_ms
            s in
        (reply ≡ replied (some shown))
        × ((get_admin_session r answered (some key) now_ms idle_ms s').0 ≡ replied none)
        × (get j s' ≡ (
            if new_key == j
            then some (moved, some (min idle_ms (x.absolute_expires_ms - now_ms)))
            else (if key == j then none else get j s)))
  unfolding rotate_admin_session rotate_session
  rotate_admin_session-moves key new_key j session_id csrf now_ms idle_ms stepped_up x ttl s ok e
        free lt =
      let live : leb x.absolute_expires_ms now_ms ≡ false = ground arith in
      let h = successor r now_ms session_id (stepped stepped_up now_ms) csrf x in
      let left_ms = min idle_ms (x.absolute_expires_ms - now_ms) in
      let some_left : (left_ms == 0) ≡ false = ground arith in
      let s' = save r new_key h left_ms (del key s) in
      let other = unused_apart key new_key x ttl s e free in
      let gone : get key s' ≡ none =
        get-save r key new_key left_ms h (del key s)
        ∙ rw other (r.get-del key key s ∙ rw (==_refl key) refl) in
      rw (ok, e, free, live)
        (
          refl,
          get_admin_session-none r key now_ms idle_ms s' ok gone,
          get-save r j new_key left_ms h (del key s) ∙ rw (some_left, r.get-del j key s) refl,
        )

  -- An answered call with the CSRF token of a live session, where the replacement is another token,
  -- answers the replacement and makes it the session's CSRF token: used again at that time, the old
  -- one is refused, which changes nothing, and the replacement is accepted.
  pub validate_and_rotate_csrf-once :
      (key current replacement next now_ms idle_ms : ℕ) (x : Session) (ttl : Option ℕ) (s : Store)
      → is_duration idle_ms ≡ true
      → get key s ≡ some (x, ttl)
      → now_ms < x.absolute_expires_ms
      → x.csrf_digest ≡ current
      → (replacement == current) ≡ false
      → let (reply, s') =
          validate_and_rotate_csrf r answered
            (some key)
            (some current)
            replacement
            now_ms
            idle_ms
            s in
        (reply ≡ replied (some replacement))
        × (validate_and_rotate_csrf r answered (some key) (some current) next now_ms idle_ms s'
            ≡ (replied none, s'))
        × ((validate_and_rotate_csrf r answered
              (some key)
              (some replacement)
              next
              now_ms
              idle_ms
              s').0
            ≡ replied (some next))
  unfolding validate_and_rotate_csrf rotate_csrf
  validate_and_rotate_csrf-once key current replacement next now_ms idle_ms x ttl s ok e lt c
        apart =
      let live : leb x.absolute_expires_ms now_ms ≡ false = ground arith in
      let same : (x.csrf_digest == current) ≡ true = ground arith in
      let left_ms = min idle_ms (x.absolute_expires_ms - now_ms) in
      let some_left : (left_ms == 0) ≡ false = ground arith in
      let h = new_csrf r now_ms replacement x in
      let s' = save r key h left_ms s in
      let found : get key s' ≡ some (h, some left_ms) =
        get-save r key key left_ms h s ∙ rw (==_refl key, some_left) refl in
      rw (ok, e, live, same)
        (refl, rw (found, live, apart) refl, rw (found, live, ==_refl replacement) refl)
