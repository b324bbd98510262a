-- ===== src/Auth/Sessions.antt =====
-- The administrators' sessions of services/api/src/nebula_api/auth/redis_state.py, with their
-- scripts. A token is the value of its digest (auth/opaque_tokens.py), `none` for one that has
-- none; times are milliseconds, those of the clock that the methods read.
pub mod Methods
pub mod Runs
pub mod Ends
pub mod Idle
pub mod Rotation
use vpn.Prelude.{
  ℕ, ◌+◌, ◌-◌, ◌*◌, min, Bool, true, false, not, ◌&&◌, ◌||◌, Option, none, some, leb, ltb, ◌==◌,
  if◌then◌else◌, is_some,
}
use vpn.Auth.Redis.{
  Redis, Entry, Reply, replied, invalid, unavailable, Call, called, write, pexpire,
}

pub data SessionMethod : Type 0 where
  totp recovery passkey : SessionMethod

-- The hash under a session's key. An empty `step_up_ms` is `none`.
pub record Session : Type 0 where
  pub admin_id : ℕ
  pub session_id : ℕ
  pub created_ms : ℕ
  pub last_seen_ms : ℕ
  pub absolute_expires_ms : ℕ
  pub mfa_method : SessionMethod
  pub step_up_ms : Option ℕ
  pub csrf_digest : ℕ

pub record AdminSessionRecord : Type 0 where
  pub admin_id : ℕ
  pub session_id : ℕ
  pub mfa_method : SessionMethod
  pub created_at : ℕ
  pub last_seen_at : ℕ
  pub absolute_expires_at : ℕ
  pub step_up_at : Option ℕ

-- `_session_record`
abbrev pub session_record : Session → AdminSessionRecord
session_record h = record {
  admin_id = h.admin_id;
  session_id = h.session_id;
  mfa_method = h.mfa_method;
  created_at = h.created_ms;
  last_seen_at = h.last_seen_ms;
  absolute_expires_at = h.absolute_expires_ms;
  step_up_at = h.step_up_ms;
}

module _ (r : Redis Session) where
  open r use {Store, get, del}

  -- `HSET` of some fields, then `PEXPIRE`.
  unfoldable pub save : ℕ → Session → ℕ → Store → Store
  save key h ttl_ms s = pexpire r key ttl_ms (write r key (λ old. h) s)

  -- `_SET_HASH_WITH_TTL_LUA`
  unfoldable pub set_once : ℕ → Session → ℕ → Store → Bool × Store
  set_once key h ttl_ms s = if is_some (get key s) then (false, s) else (true, save key h ttl_ms s)

  abbrev pub seen : ℕ → Session → Session
  seen now_ms h = record h { last_seen_ms = now_ms }

  abbrev pub get_entry : ℕ → ℕ → ℕ → Option (Entry Session) → Store → Option Session × Store
  get_entry key now_ms idle_ms none s = (none, s)
  get_entry key now_ms idle_ms (some (h, ttl)) s =
      if leb h.absolute_expires_ms now_ms then (none, del key s) else (
        some (seen now_ms h),
        save key (seen now_ms h) (min idle_ms (h.absolute_expires_ms - now_ms)) s,
      )

  -- `_GET_SESSION_LUA`
  unfoldable pub get_session : ℕ → ℕ → ℕ → Store → Option Session × Store
  get_session key now_ms idle_ms s = get_entry key now_ms idle_ms (get key s) s

  abbrev pub new_csrf : ℕ → ℕ → Session → Session
  new_csrf now_ms replacement h = record h { csrf_digest = replacement; last_seen_ms = now_ms }

  abbrev pub csrf_entry : ℕ → ℕ → ℕ → ℕ → ℕ → Option (Entry Session) → Store → Bool × Store
  csrf_entry key now_ms idle_ms current replacement none s = (false, s)
  csrf_entry key now_ms idle_ms current replacement (some (h, ttl)) s =
      if leb h.absolute_expires_ms now_ms
      then (false, del key s)
      else (if h.csrf_digest == current
          then (
            true,
            save key (new_csrf now_ms replacement h) (min idle_ms (h.absolute_expires_ms - now_ms))
                s,
          )
          else (false, s))

  -- `_ROTATE_CSRF_LUA`
  unfoldable pub rotate_csrf : ℕ → ℕ → ℕ → ℕ → ℕ → Store → Bool × Store
  rotate_csrf key now_ms idle_ms current replacement s =
      csrf_entry key now_ms idle_ms current replacement (get key s) s

  -- The hash that a rotation writes.
  abbrev pub successor : ℕ → ℕ → Option ℕ → ℕ → Session → Session
  successor now_ms session_id step_up csrf h = record {
    admin_id = h.admin_id;
    session_id = session_id;
    created_ms = now_ms;
    last_seen_ms = now_ms;
    absolute_expires_ms = h.absolute_expires_ms;
    mfa_method = h.mfa_method;
    step_up_ms = step_up;
    csrf_digest = csrf;
  }

  abbrev pub rotate_entry :
      ℕ → ℕ → ℕ → ℕ → ℕ → Option ℕ → ℕ → Option (Entry Session) → Store → Option Session × Store
  rotate_entry key new_key now_ms idle_ms session_id step_up csrf none s = (none, s)
  rotate_entry key new_key now_ms idle_ms session_id step_up csrf (some (h, ttl)) s =
      if is_some (get new_key s)
      then (none, s)
      else (if leb h.absolute_expires_ms now_ms then (none, del key s) else (
        some (successor now_ms session_id step_up csrf h),
        save new_key (successor now_ms session_id step_up csrf h)
            (min idle_ms (h.absolute_expires_ms - now_ms)) (del key s),
      ))

  -- `_ROTATE_SESSION_LUA`
  unfoldable pub rotate_session : ℕ → ℕ → ℕ → ℕ → ℕ → Option ℕ → ℕ → Store → Option Session × Store
  rotate_session key new_key now_ms idle_ms session_id step_up csrf s =
      rotate_entry key new_key now_ms idle_ms session_id step_up csrf (get key s) s
