-- ===== src/Auth/Users/Passwords.antt =====
-- `confirm_password_reset` and `change_password` of
-- services/api/src/nebula_api/auth/user_service.py. A password is the number of its hash, and the
-- verdict of its check comes in.
use vpn.Prelude.{ℕ, Bool, true, false, ◌&&◌, not, Option, none, some, map, leb, ◌==◌, if◌then◌else◌}
use vpn.Db.{User, find_user, put_user}
use vpn.Auth.Redis.{Reply, replied, invalid, unavailable}
use vpn.Auth.OpaqueTokens.{OpaqueTokenDigest}
use vpn.Auth.Users.{
  TokenState, PasswordResetToken, EventCode, Reason, AuthDb, is_active, is_active_token, find_reset,
  user_can_authenticate,
}
use vpn.Auth.Users.Revoke.{
  revoke_all_user_sessions, revoke_session_in, revoke_token_of, selected_ids,
}
use vpn.Auth.Users.Refresh.{
  Answer, accepted, rejected, rate_limited, failed, limited, add_audit, denied, succeeded_event,
  AuthenticatedUser,
}

-- `update(PasswordResetToken)` for the active ones of a user.
abbrev pub revoke_reset_of : ℕ → ℕ → PasswordResetToken → PasswordResetToken
revoke_reset_of now user_id t =
    if (t.user_id == user_id) && is_active_token t.state
    then record t { state = TokenState.revoked; revoked_at = some now }
    else t

-- The reset token that is used is consumed, the user's other active ones are revoked.
abbrev pub spend_reset : ℕ → ℕ → ℕ → PasswordResetToken → PasswordResetToken
spend_reset now reset_id user_id t =
    if t.id == reset_id
    then record t { state = TokenState.consumed; consumed_at = some now }
    else revoke_reset_of now user_id t

abbrev pub set_password : ℕ → User → AuthDb → AuthDb
set_password new_hash user db = record db {
  tables = record db.tables {
    users = put_user (record user { password_hash = some new_hash }) db.tables.users;
  };
}

abbrev pub reset_user : PasswordResetToken → Option User → ℕ → ℕ → AuthDb → Answer Unit × AuthDb
reset_user reset none new_hash now db = (rejected, db)
reset_user reset (some user) new_hash now db =
    if user_can_authenticate user now
    then (let spent = record (set_password new_hash user db) {
      resets = map (spend_reset now reset.id user.id) db.resets;
    } in
        (
          accepted tt,
          add_audit (succeeded_event user.id user.id EventCode.password_changed) (
              add_audit (succeeded_event user.id reset.id EventCode.password_reset_consumed)
                (revoke_all_user_sessions user.id now spent)),
        ))
    else (rejected, db)

abbrev pub reset_found : Option PasswordResetToken → ℕ → ℕ → AuthDb → Answer Unit × AuthDb
reset_found none new_hash now db = (rejected, db)
reset_found (some reset) new_hash now db =
    if is_active_token reset.state && not (leb reset.expires_at now)
    then reset_user reset (find_user reset.user_id db.tables.users) new_hash now db
    else (rejected, db)

abbrev pub reset_digest : Option OpaqueTokenDigest → ℕ → ℕ → AuthDb → Answer Unit × AuthDb
reset_digest none new_hash now db = (rejected, db)
reset_digest (some d) new_hash now db = reset_found (find_reset d db.resets) new_hash now db

-- `confirm_password_reset`, with the replies of its two rate limits.
unfoldable pub confirm_password_reset :
    Reply Bool → Reply Bool → Option OpaqueTokenDigest → ℕ → ℕ → AuthDb → Answer Unit × AuthDb
confirm_password_reset by_token by_network d new_hash now db =
    limited by_token (limited by_network (reset_digest d new_hash now db) db) db

-- `_require_rate_limit` before the rest of a call.
abbrev pub limited_audit :
    {A : Type 0} → Reply Bool → ℕ → Answer A × AuthDb → AuthDb → Answer A × AuthDb
limited_audit (replied true) request_id after db = after
limited_audit (replied false) request_id after db = (
  rate_limited,
  add_audit (denied none request_id EventCode.auth_rate_limited Reason.rate_limited) db,
)
limited_audit invalid request_id after db = (failed, db)
limited_audit unavailable request_id after db = (failed, db)

-- The update of the other sessions and of their tokens.
abbrev pub revoke_others : ℕ → AuthenticatedUser → ℕ → AuthDb → AuthDb
revoke_others user_id principal now db =
    let others =
      selected_ids
        (λ us. (us.user_id == user_id) && not (us.id == principal.session_id) && is_active us.state)
        db.sessions in
    record db {
      sessions = map (revoke_session_in now others) db.sessions;
      tokens = map (revoke_token_of now others) db.tokens;
    }

abbrev pub change_user :
    AuthenticatedUser → Option User → Bool → ℕ → ℕ → AuthDb → Answer Unit × AuthDb
change_user principal none valid new_hash now db = (
  rejected,
  add_audit
      (denied (some principal.user_id) principal.user_id EventCode.user_authenticated
        Reason.invalid_credentials)
      db,
)
change_user principal (some user) valid new_hash now db =
    if valid && user_can_authenticate user now
    then (let changed = record (set_password new_hash user db) {
      resets = map (revoke_reset_of now user.id) db.resets;
    } in
        let event = record (succeeded_event user.id user.id EventCode.password_changed) {
          reason_code = some Reason.changed_signed_in;
        } in
        (accepted tt, add_audit event (revoke_others user.id principal now changed)))
    else (
      rejected,
      add_audit
          (denied (some principal.user_id) principal.user_id EventCode.user_authenticated
            Reason.invalid_credentials)
          db,
    )

-- `change_password`, with `_confirm_password`; `valid` is the verdict of the password's check.
unfoldable pub change_password :
    Reply Bool → AuthenticatedUser → Bool → ℕ → ℕ → ℕ → AuthDb → Answer Unit × AuthDb
change_password limit principal valid new_hash request_id now db =
    limited_audit limit request_id
      (change_user principal (find_user principal.user_id db.tables.users) valid new_hash now db) db
