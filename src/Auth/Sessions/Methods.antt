-- ===== src/Auth/Sessions/Methods.antt =====
-- The methods of `RedisAuthState` (services/api/src/nebula_api/auth/redis_state.py) that issue,
-- find, rotate and end a session. New tokens come in as the values of their digests.
use vpn.Prelude.{ℕ, ◌+◌, ◌*◌, min, Bool, true, false, ◌&&◌, Option, none, some, leb, if◌then◌else◌}
use Prim.Native.Nat.{max, ◌/◌}
use vpn.Auth.Redis.{Redis, Reply, replied, invalid, unavailable, Call, called}
use vpn.Auth.Sessions.{
  SessionMethod, Session, AdminSessionRecord, session_record, set_once, get_session, rotate_csrf,
  rotate_session,
}

abbrev pub found_record : Option Session → Option AdminSessionRecord
found_record none = none
found_record (some h) = some (session_record h)

abbrev pub found_reply : Reply (Option Session) → Reply (Option AdminSessionRecord)
found_reply (replied h) = replied (found_record h)
found_reply invalid = invalid
found_reply unavailable = unavailable

-- `_duration_ms`
abbrev pub is_duration : ℕ → Bool
is_duration ms = leb 1000 ms && leb ms 86400000

abbrev pub stepped : Bool → ℕ → Option ℕ
stepped stepped_up now_ms = if stepped_up then some now_ms else none

abbrev pub replaced : ℕ → Reply Bool → Reply (Option ℕ)
replaced replacement (replied true) = replied (some replacement)
replaced replacement (replied false) = replied none
replaced replacement invalid = invalid
replaced replacement unavailable = unavailable

-- `created != 1` in `_set_hash_once`
abbrev pub issued_reply : AdminSessionRecord → Reply Bool → Reply AdminSessionRecord
issued_reply a (replied true) = replied a
issued_reply a (replied false) = unavailable
issued_reply a invalid = invalid
issued_reply a unavailable = unavailable

-- The hash of a new session.
abbrev pub new_session : ℕ → ℕ → SessionMethod → ℕ → ℕ → Bool → ℕ → Session
new_session admin_id session_id mfa_method now_ms absolute_ms stepped_up csrf = record {
  admin_id = admin_id;
  session_id = session_id;
  created_ms = now_ms;
  last_seen_ms = now_ms;
  absolute_expires_ms = now_ms + absolute_ms;
  mfa_method = mfa_method;
  step_up_ms = stepped stepped_up now_ms;
  csrf_digest = csrf;
}

module _ (r : Redis Session) where
  open r use {Store, del}

  -- A script's call with an idle time: one that is out of range raises inside the `try`.
  abbrev pub guarded : {A : Type 0} → Call → ℕ → A × Store → Store → Reply A × Store
  guarded call idle_ms ran s = if is_duration idle_ms then called call ran s else (unavailable, s)

  -- `issue_admin_session`
  unfoldable pub issue_admin_session :
      Call
      → ℕ
      → ℕ
      → ℕ
      → ℕ
      → SessionMethod
      → Bool
      → ℕ
      → ℕ
      → ℕ
      → Store
      → Reply AdminSessionRecord × Store
  issue_admin_session call key csrf session_id admin_id mfa_method stepped_up now_ms idle_ms
        absolute_ms s =
      let h = new_session admin_id session_id mfa_method now_ms absolute_ms stepped_up csrf in
      let ttl_seconds = max 1 (min idle_ms absolute_ms / 1000) in
      let (reply, s') = called call (set_once r key h (ttl_seconds * 1000) s) s in
      if is_duration idle_ms && is_duration absolute_ms && leb idle_ms absolute_ms
      then (issued_reply (session_record h) reply, s')
      else (invalid, s)

  -- `get_admin_session`
  unfoldable pub get_admin_session :
      Call → Option ℕ → ℕ → ℕ → Store → Reply (Option AdminSessionRecord) × Store
  get_admin_session call none now_ms idle_ms s = (replied none, s)
  get_admin_session call (some key) now_ms idle_ms s =
      let (reply, s') = guarded call idle_ms (get_session r key now_ms idle_ms s) s in
      (found_reply reply, s')

  -- `validate_and_rotate_csrf`
  abbrev pub csrf_with : Call → ℕ → Option ℕ → ℕ → ℕ → ℕ → Store → Reply (Option ℕ) × Store
  csrf_with call key none replacement now_ms idle_ms s = (replied none, s)
  csrf_with call key (some current) replacement now_ms idle_ms s =
      let (reply, s') =
        guarded call idle_ms (rotate_csrf r key now_ms idle_ms current replacement s) s in
      (replaced replacement reply, s')

  unfoldable pub validate_and_rotate_csrf :
      Call → Option ℕ → Option ℕ → ℕ → ℕ → ℕ → Store → Reply (Option ℕ) × Store
  validate_and_rotate_csrf call none current replacement now_ms idle_ms s = (replied none, s)
  validate_and_rotate_csrf call (some key) current replacement now_ms idle_ms s =
      csrf_with call key current replacement now_ms idle_ms s

  -- `rotate_admin_session`
  unfoldable pub rotate_admin_session :
      Call → Option ℕ → ℕ → ℕ → ℕ → Bool → ℕ → ℕ → Store → Reply (Option AdminSessionRecord) × Store
  rotate_admin_session call none new_key session_id csrf stepped_up now_ms idle_ms s =
      (replied none, s)
  rotate_admin_session call (some key) new_key session_id csrf stepped_up now_ms idle_ms s =
      let ran =
        rotate_session r key new_key now_ms idle_ms session_id (stepped stepped_up now_ms) csrf s in
      let (reply, s') = guarded call idle_ms ran s in (found_reply reply, s')

  -- `revoke_admin_session`
  unfoldable pub revoke_admin_session : Call → Option ℕ → Store → Reply Unit × Store
  revoke_admin_session call none s = (replied tt, s)
  revoke_admin_session call (some key) s = called call (tt, del key s) s
