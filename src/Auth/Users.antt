-- ===== src/Auth/Users.antt =====
-- The users' sessions of services/api/src/nebula_api/auth: the rows of models/identity.py that
-- user_service.py and session_revocation.py read and write, and the tests of eligibility.
pub mod Revoke
pub mod Refresh
pub mod Passwords
pub mod Devices
pub mod Login
pub mod Limit
pub mod Rows
pub mod Runs
pub mod Changes
pub mod Ended
pub mod Reuse
pub mod Counts
pub mod OneActive
use vpn.Prelude.{
  ℕ, Bool, true, false, ◌&&◌, Option, none, some, List, [], ◌∷◌, ltb, ◌==◌, is_some, if◌then◌else◌,
}
use vpn.Db.{AccountState, LifecycleState, User, Device, Db}
use vpn.Auth.OpaqueTokens.{OpaqueTokenDigest}

pub data TokenState : Type 0 where
  active consumed revoked expired : TokenState

-- models/identity.py
pub record UserSession : Type 0 where
  pub id : ℕ
  pub user_id : ℕ
  pub device_id : ℕ
  pub state : LifecycleState
  pub expires_at : ℕ
  pub last_seen_at : Option ℕ
  pub revoked_at : Option ℕ

pub record RefreshToken : Type 0 where
  pub id : ℕ
  pub session_id : ℕ
  pub digest : OpaqueTokenDigest
  pub state : TokenState
  pub expires_at : ℕ
  pub consumed_at : Option ℕ
  pub replaced_by_id : Option ℕ
  pub revoked_at : Option ℕ

pub record PasswordResetToken : Type 0 where
  pub id : ℕ
  pub user_id : ℕ
  pub digest : OpaqueTokenDigest
  pub state : TokenState
  pub expires_at : ℕ
  pub consumed_at : Option ℕ
  pub revoked_at : Option ℕ

-- What `_add_audit` writes: the event's and the reason's codes.
pub data EventCode : Type 0 where
  user_authenticated refresh_rotated refresh_reuse_detected session_revoked auth_rate_limited
        password_reset_consumed password_changed :
      EventCode

pub data Reason : Type 0 where
  account_expired device_limit_reached invalid_token token_reused inactive_session
        invalid_credentials rate_limited changed_signed_in :
      Reason

pub record Event : Type 0 where
  pub actor_id : Option ℕ
  pub target_id : ℕ
  pub event_code : EventCode
  pub succeeded : Bool
  pub reason_code : Option Reason

-- The tables; `tables` are those that the rest of the service shares.
pub record AuthDb : Type 0 where
  pub tables : Db
  pub sessions : List UserSession
  pub tokens : List RefreshToken
  pub resets : List PasswordResetToken
  pub events : List Event

abbrev pub is_active : LifecycleState → Bool
is_active LifecycleState.active = true
is_active LifecycleState.revoked = false

abbrev pub is_active_token : TokenState → Bool
is_active_token TokenState.active = true
is_active_token TokenState.consumed = false
is_active_token TokenState.revoked = false
is_active_token TokenState.expired = false

abbrev pub same_digest : OpaqueTokenDigest → OpaqueTokenDigest → Bool
same_digest d e = (d.key_version == e.key_version) && (d.value == e.value)

-- `select(UserSession).where(UserSession.id == id)`
abbrev pub find_session : ℕ → List UserSession → Option UserSession
find_session k [] = none
find_session k (us ∷ sessions) = if us.id == k then some us else find_session k sessions

-- `select(RefreshToken).where(...)`
abbrev pub find_token : OpaqueTokenDigest → List RefreshToken → Option RefreshToken
find_token d [] = none
find_token d (t ∷ tokens) = if same_digest t.digest d then some t else find_token d tokens

abbrev pub find_reset : OpaqueTokenDigest → List PasswordResetToken → Option PasswordResetToken
find_reset d [] = none
find_reset d (t ∷ resets) = if same_digest t.digest d then some t else find_reset d resets

-- The write of one row, by its id.
abbrev pub at_session : ℕ → (UserSession → UserSession) → UserSession → UserSession
at_session k f us = if us.id == k then f us else us

abbrev pub at_token : ℕ → (RefreshToken → RefreshToken) → RefreshToken → RefreshToken
at_token k f t = if t.id == k then f t else t

abbrev pub is_active_user : AccountState → Bool
is_active_user AccountState.active = true
is_active_user AccountState.pending_activation = false
is_active_user AccountState.suspended = false
is_active_user AccountState.disabled = false

abbrev pub is_unexpired : Option ℕ → ℕ → Bool
is_unexpired none now = true
is_unexpired (some expires_at) now = ltb now expires_at

-- `_user_can_authenticate`
abbrev pub user_can_authenticate : User → ℕ → Bool
user_can_authenticate user now =
    is_active_user user.state && is_some user.password_hash && is_unexpired user.expires_at now

abbrev pub owns : User → Option Device → Bool
owns user none = false
owns user (some device) = (device.user_id == user.id) && is_active device.state

abbrev pub may_sign_in : Option User → Option Device → ℕ → Bool
may_sign_in none device now = false
may_sign_in (some user) device now = user_can_authenticate user now && owns user device

-- `_session_is_eligible`
abbrev pub session_is_eligible : UserSession → Option User → Option Device → ℕ → Bool
session_is_eligible us user device now =
    is_active us.state && ltb now us.expires_at && may_sign_in user device now

-- `_refresh_is_eligible`
abbrev pub refresh_is_eligible : RefreshToken → UserSession → Option User → Option Device → ℕ → Bool
refresh_is_eligible token us user device now =
    is_active_token token.state
    && ltb now token.expires_at
    && session_is_eligible us user device now
