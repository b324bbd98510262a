-- ===== src/Auth/Users/Refresh.antt =====
-- `refresh`, `logout` and `_load_principal` of services/api/src/nebula_api/auth/user_service.py. Digests
-- stand for the tokens, `none` for a text without one, and come with the fresh ids as arguments.
use vpn.Prelude.{
  ℕ, Bool, true, false, ◌&&◌, Option, none, some, [], ◌∷◌, ◌++◌, map, min, ◌==◌, if◌then◌else◌,
}
use vpn.Db.{User, find_user, find_device}
use vpn.Access.Revocation.{revoke_device_credentials}
use vpn.Auth.Redis.{Reply, replied, invalid, unavailable}
use vpn.Auth.OpaqueTokens.{OpaqueTokenDigest}
use vpn.Auth.Users.{
  TokenState, UserSession, RefreshToken, EventCode, Reason, Event, AuthDb, find_session, find_token,
  at_session, at_token, session_is_eligible, refresh_is_eligible,
}
use vpn.Auth.Users.Revoke.{revoke_session}

-- How a call ends: accepted, `AuthenticationRejected` or one of its three subclasses, or with the error
-- that the rate limiter's call raised.
pub data Answer (A : Type 0) : Type 0 where
  accepted : A → Answer A
  rejected rate_limited failed expired_account no_device_left : Answer A

-- `_require_rate_limit_without_session` before the rest of a call, by the reply of `rate_limit`.
abbrev pub limited : {A S : Type 0} → Reply Bool → Answer A × S → S → Answer A × S
limited (replied true) after before = after
limited (replied false) after before = (rate_limited, before)
limited invalid after before = (failed, before)
limited unavailable after before = (failed, before)

-- The claims of the access token, and the row of the refresh token.
pub record UserTokenPair : Type 0 where
  pub user_id : ℕ
  pub session_id : ℕ
  pub refresh_token : RefreshToken

-- `_add_audit`, then `session.commit()`.
abbrev pub add_audit : Event → AuthDb → AuthDb
add_audit event db = record db { events = event ∷ db.events }

abbrev pub denied : Option ℕ → ℕ → EventCode → Reason → Event
denied actor_id target_id event_code reason = record {
  actor_id = actor_id;
  target_id = target_id;
  event_code = event_code;
  succeeded = false;
  reason_code = some reason;
}

abbrev pub succeeded_event : ℕ → ℕ → EventCode → Event
succeeded_event actor_id target_id event_code = record {
  actor_id = some actor_id;
  target_id = target_id;
  event_code = event_code;
  succeeded = true;
  reason_code = none;
}

-- `_new_refresh_token`
abbrev pub new_refresh_token : ℕ → ℕ → OpaqueTokenDigest → ℕ → RefreshToken
new_refresh_token id session_id digest expires_at = record {
  id = id;
  session_id = session_id;
  digest = digest;
  state = TokenState.active;
  expires_at = expires_at;
  consumed_at = none;
  replaced_by_id = none;
  revoked_at = none;
}

abbrev pub consumed_token : ℕ → ℕ → RefreshToken → RefreshToken
consumed_token now successor_id t = record t {
  state = TokenState.consumed;
  consumed_at = some now;
  replaced_by_id = some successor_id;
}

abbrev pub is_consumed : TokenState → Bool
is_consumed TokenState.active = false
is_consumed TokenState.consumed = true
is_consumed TokenState.revoked = false
is_consumed TokenState.expired = false

-- The rotation, once the token is eligible.
abbrev pub rotate_token :
    RefreshToken
    → UserSession
    → User
    → ℕ
    → ℕ
    → OpaqueTokenDigest
    → AuthDb
    → Answer UserTokenPair × AuthDb
rotate_token token us user now successor_id digest db =
    let successor =
      new_refresh_token successor_id us.id digest (min token.expires_at us.expires_at) in
    (
      accepted (record { user_id = user.id; session_id = us.id; refresh_token = successor }),
      add_audit (succeeded_event user.id token.id EventCode.refresh_rotated) (record db {
        tokens =
            map (at_token token.id (consumed_token now successor_id)) db.tokens ++ (successor ∷ []);
        sessions =
            map (at_session us.id (λ row. record row { last_seen_at = some now })) db.sessions;
      }),
    )

abbrev pub rotate_user :
    RefreshToken
    → UserSession
    → Option User
    → ℕ
    → ℕ
    → OpaqueTokenDigest
    → AuthDb
    → Answer UserTokenPair × AuthDb
rotate_user token us none now successor_id digest db = (rejected, db)
rotate_user token us (some user) now successor_id digest db =
    rotate_token token us user now successor_id digest db

-- The revocation of the whole session, with its reason.
abbrev pub end_session :
    {A : Type 0} → UserSession → EventCode → Reason → ℕ → AuthDb → Answer A × AuthDb
end_session us event_code reason now db = (
  rejected,
  add_audit (denied (some us.user_id) us.id event_code reason) (revoke_session us now db),
)

abbrev pub refresh_session :
    RefreshToken
    → Option UserSession
    → ℕ
    → ℕ
    → OpaqueTokenDigest
    → AuthDb
    → Answer UserTokenPair × AuthDb
refresh_session token none now successor_id digest db = (rejected, db)
refresh_session token (some us) now successor_id digest db =
    let user = find_user us.user_id db.tables.users in
    let device = find_device us.device_id db.tables.devices in
    if is_consumed token.state
    then end_session us EventCode.refresh_reuse_detected Reason.token_reused now db
    else (if refresh_is_eligible token us user device now
        then rotate_user token us user now successor_id digest db
        else end_session us EventCode.refresh_rotated Reason.inactive_session now db)

abbrev pub refresh_found :
    Option RefreshToken → ℕ → ℕ → ℕ → OpaqueTokenDigest → AuthDb → Answer UserTokenPair × AuthDb
refresh_found none now request_id successor_id digest db =
    (rejected, add_audit (denied none request_id EventCode.refresh_rotated Reason.invalid_token) db)
refresh_found (some token) now request_id successor_id digest db =
    refresh_session token (find_session token.session_id db.sessions) now successor_id digest db

abbrev pub refresh_digest :
    Option OpaqueTokenDigest
    → ℕ
    → ℕ
    → ℕ
    → OpaqueTokenDigest
    → AuthDb
    → Answer UserTokenPair × AuthDb
refresh_digest none now request_id successor_id digest db =
    (rejected, add_audit (denied none request_id EventCode.refresh_rotated Reason.invalid_token) db)
refresh_digest (some d) now request_id successor_id digest db =
    refresh_found (find_token d db.tokens) now request_id successor_id digest db

-- `refresh`
unfoldable pub refresh :
    Reply Bool
    → Option OpaqueTokenDigest
    → ℕ
    → ℕ
    → ℕ
    → OpaqueTokenDigest
    → AuthDb
    → Answer UserTokenPair × AuthDb
refresh limit d now request_id successor_id digest db =
    limited limit (refresh_digest d now request_id successor_id digest db) db

abbrev pub logout_session : Option UserSession → ℕ → AuthDb → AuthDb
logout_session none now db = db
logout_session (some us) now db =
    let revoked = revoke_session us now db in
    add_audit (succeeded_event us.user_id us.id EventCode.session_revoked)
      (record revoked { tables = (revoke_device_credentials us.device_id now revoked.tables).0 })

abbrev pub logout_token : Option RefreshToken → ℕ → AuthDb → AuthDb
logout_token none now db = db
logout_token (some token) now db = logout_session (find_session token.session_id db.sessions) now db

-- `logout`
unfoldable pub logout : Option OpaqueTokenDigest → ℕ → AuthDb → AuthDb
logout none now db = db
logout (some d) now db = logout_token (find_token d db.tokens) now db

pub record AuthenticatedUser : Type 0 where
  pub user_id : ℕ
  pub session_id : ℕ
  pub device_id : ℕ

abbrev pub principal_of : ℕ → ℕ → Option UserSession → ℕ → AuthDb → Answer AuthenticatedUser
principal_of user_id session_id none now db = rejected
principal_of user_id session_id (some us) now db =
    let user = find_user user_id db.tables.users in
    let device = find_device us.device_id db.tables.devices in
    if (us.user_id == user_id) && session_is_eligible us user device now
    then accepted (record { user_id = user_id; session_id = session_id; device_id = us.device_id })
    else rejected

-- `_load_principal`, for the claims of an access token.
unfoldable pub load_principal : ℕ → ℕ → ℕ → AuthDb → Answer AuthenticatedUser
load_principal user_id session_id now db =
    principal_of user_id session_id (find_session session_id db.sessions) now db
