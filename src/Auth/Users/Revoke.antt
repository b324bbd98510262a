-- ===== src/Auth/Users/Revoke.antt =====
-- services/api/src/nebula_api/auth/session_revocation.py
use vpn.Prelude.{ℕ, Bool, ◌&&◌, some, List, [], ◌∷◌, map, contains, ◌==◌, if◌then◌else◌}
use vpn.Db.{LifecycleState}
use vpn.Auth.Users.{
  TokenState, UserSession, RefreshToken, AuthDb, is_active, is_active_token, at_session,
}

abbrev pub revoked_session : ℕ → UserSession → UserSession
revoked_session now us = record us { state = LifecycleState.revoked; revoked_at = some now }

abbrev pub revoked_token : ℕ → RefreshToken → RefreshToken
revoked_token now t = record t { state = TokenState.revoked; revoked_at = some now }

-- `update(RefreshToken)` for the active tokens of some sessions.
abbrev pub revoke_token_of : ℕ → List ℕ → RefreshToken → RefreshToken
revoke_token_of now session_ids t =
    if contains t.session_id session_ids && is_active_token t.state then revoked_token now t else t

-- The ids of the sessions that a query selects.
abbrev pub selected_ids : (UserSession → Bool) → List UserSession → List ℕ
selected_ids selected [] = []
selected_ids selected (us ∷ sessions) =
    if selected us then us.id ∷ selected_ids selected sessions else selected_ids selected sessions

-- `update(UserSession)` for the sessions with some ids, whatever their state.
abbrev pub revoke_session_in : ℕ → List ℕ → UserSession → UserSession
revoke_session_in now session_ids us =
    if contains us.id session_ids then revoked_session now us else us

-- The same for those of them that are active.
abbrev pub revoke_active_in : ℕ → List ℕ → UserSession → UserSession
revoke_active_in now session_ids us =
    if contains us.id session_ids && is_active us.state then revoked_session now us else us

-- `if session_ids:` around the two updates, which change nothing where there is no id.
unfoldable pub revoke_active_device_sessions : ℕ → ℕ → AuthDb → AuthDb
revoke_active_device_sessions device_id now db =
    let ids = selected_ids (λ us. (us.device_id == device_id) && is_active us.state) db.sessions in
    record db {
      sessions = map (revoke_session_in now ids) db.sessions;
      tokens = map (revoke_token_of now ids) db.tokens;
    }

unfoldable pub revoke_session : UserSession → ℕ → AuthDb → AuthDb
revoke_session us now db = record db {
  sessions =
      if is_active us.state
      then map (at_session us.id (revoked_session now)) db.sessions
      else db.sessions;
  tokens = map (revoke_token_of now (us.id ∷ [])) db.tokens;
}

unfoldable pub revoke_all_user_sessions : ℕ → ℕ → AuthDb → AuthDb
revoke_all_user_sessions user_id now db =
    let ids = selected_ids (λ us. us.user_id == user_id) db.sessions in
    record db {
      sessions = map (revoke_active_in now ids) db.sessions;
      tokens = map (revoke_token_of now ids) db.tokens;
    }
