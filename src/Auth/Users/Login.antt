-- ===== src/Auth/Users/Login.antt =====
-- `login` of services/api/src/nebula_api/auth/user_service.py. The user is the one that its lookup
-- finds, `password_valid` the verdict of the password's check, and `rehashed` the new hash where the
-- stored one is out of date.
use vpn.Prelude.{
  ℕ, ◌+◌, ◌*◌, Bool, not, ◌&&◌, Option, none, some, [], ◌∷◌, ◌++◌, is_some, if◌then◌else◌,
}
use vpn.Db.{LifecycleState, User}
use vpn.Auth.Redis.{Reply}
use vpn.Auth.OpaqueTokens.{OpaqueTokenDigest}
use vpn.Auth.Users.{
  UserSession, EventCode, Reason, AuthDb, is_active_user, is_unexpired, user_can_authenticate,
}
use vpn.Auth.Users.Revoke.{revoke_active_device_sessions}
use vpn.Auth.Users.Refresh.{
  Answer, accepted, rejected, failed, expired_account, no_device_left, UserTokenPair,
  new_refresh_token, add_audit, denied, succeeded_event,
}
use vpn.Auth.Users.Passwords.{limited_audit, set_password}
use vpn.Auth.Users.Devices.{Resolved, resolved, limit_reached, no_key, resolve_device}

-- The session of a sign-in, once the password is checked and the device found. Times are seconds. The
-- ids and the token's digest are fresh.
unfoldable pub open_session :
    ℕ → ℕ → ℕ → ℕ → OpaqueTokenDigest → ℕ → ℕ → AuthDb → UserTokenPair × AuthDb
open_session user_id device_id session_id token_id digest refresh_token_ttl_days now db =
    let ended = revoke_active_device_sessions device_id now db in
    let family_expires_at = now + refresh_token_ttl_days * 86400 in
    let user_session : UserSession = record {
      id = session_id;
      user_id = user_id;
      device_id = device_id;
      state = LifecycleState.active;
      expires_at = family_expires_at;
      last_seen_at = some now;
      revoked_at = none;
    } in
    let token = new_refresh_token token_id session_id digest family_expires_at in
    (
      record { user_id = user_id; session_id = session_id; refresh_token = token },
      add_audit (succeeded_event user_id session_id EventCode.user_authenticated) (record ended {
        sessions = ended.sessions ++ (user_session ∷ []);
        tokens = ended.tokens ++ (token ∷ []);
      }),
    )

-- `_only_expired`
abbrev pub only_expired : User → ℕ → Bool
only_expired user now =
    is_active_user user.state
    && is_some user.password_hash
    && not (is_unexpired user.expires_at now)

abbrev pub rehash : Option ℕ → User → AuthDb → AuthDb
rehash none user db = db
rehash (some new_hash) user db = set_password new_hash user db

-- The ids and values that a sign-in makes: of a device, a session and a token, and the token's digest.
pub record Fresh : Type 0 where
  pub device_id : ℕ
  pub session_id : ℕ
  pub token_id : ℕ
  pub digest : OpaqueTokenDigest

module _ (hmac : ℕ → ℕ → ℕ) (token_peppers : ℕ → Option ℕ)
    (token_key_version refresh_token_ttl_days : ℕ) where
  -- The end of `login`, by the device; `before` is what a `KeyError` rolls back to.
  abbrev pub with_device :
      User → Fresh → ℕ → AuthDb → Resolved × AuthDb → Answer UserTokenPair × AuthDb
  with_device user fresh now before (limit_reached, db) = (no_device_left, db)
  with_device user fresh now before (no_key, db) = (failed, before)
  with_device user fresh now before (resolved device_id, db) =
      let (pair, db') =
        open_session user.id device_id fresh.session_id fresh.token_id fresh.digest
          refresh_token_ttl_days now db in
      (accepted pair, db')

  abbrev pub refuse_login : ℕ → AuthDb → Answer UserTokenPair × AuthDb
  refuse_login request_id db = (
    rejected,
    add_audit (denied none request_id EventCode.user_authenticated Reason.invalid_credentials) db,
  )

  abbrev pub checked_user :
      User
      → Bool
      → Option ℕ
      → Option ℕ
      → Option ℕ
      → Fresh
      → ℕ
      → ℕ
      → AuthDb
      → Answer UserTokenPair × AuthDb
  checked_user user password_valid rehashed device_id hardware_id fresh request_id now db =
      if password_valid && only_expired user now
      then (
        expired_account,
        add_audit
            (denied (some user.id) user.id EventCode.user_authenticated Reason.account_expired) db,
      )
      else (if password_valid && user_can_authenticate user now
          then with_device user fresh now db (
              resolve_device hmac token_peppers token_key_version user device_id fresh.device_id
                hardware_id (rehash rehashed user db))
          else refuse_login request_id db)

  abbrev pub login_user :
      Option User
      → Bool
      → Option ℕ
      → Option ℕ
      → Option ℕ
      → Fresh
      → ℕ
      → ℕ
      → AuthDb
      → Answer UserTokenPair × AuthDb
  login_user none password_valid rehashed device_id hardware_id fresh request_id now db =
      refuse_login request_id db
  login_user (some user) password_valid rehashed device_id hardware_id fresh request_id now db =
      checked_user user password_valid rehashed device_id hardware_id fresh request_id now db

  -- `login`, with the replies of its two rate limits.
  unfoldable pub login :
      Reply Bool
      → Reply Bool
      → Option User
      → Bool
      → Option ℕ
      → Option ℕ
      → Option ℕ
      → Fresh
      → ℕ
      → ℕ
      → AuthDb
      → Answer UserTokenPair × AuthDb
  login by_account by_network user password_valid rehashed device_id hardware_id fresh request_id
        now db =
      limited_audit by_account request_id
        (limited_audit by_network request_id
          (login_user user password_valid rehashed device_id hardware_id fresh request_id now db)
          db)
        db
