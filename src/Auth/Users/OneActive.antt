-- ===== src/Auth/Users/OneActive.antt =====
-- The partial unique indexes of services/api/src/nebula_api/models/identity.py,
-- `uq_refresh_tokens_active_session_id` and `uq_user_sessions_active_device_id`, under the operations
-- of auth/user_service.py.
use vpn.Prelude.{
  ℕ, ◌+◌, ◌≤◌, ◌≡◌, ◌*◌, refl, true, ◌&&◌, none, some, List, [], ◌∷◌, map, inl, inr, Bool-cases,
  arith, ◌==◌,
}
use vpn.Db.{LifecycleState}
use vpn.Auth.OpaqueTokens.{OpaqueTokenDigest}
use vpn.Auth.Users.{
  UserSession, RefreshToken, AuthDb, is_active, is_active_token, find_session, find_token,
  at_session,
}
use vpn.Auth.Users.Revoke.{
  revoke_session_in, revoke_active_in, revoke_token_of, revoked_session, selected_ids,
  revoke_active_device_sessions,
}
use vpn.Auth.Users.Refresh.{new_refresh_token}
use vpn.Auth.Users.Login.{open_session}
use vpn.Auth.Users.Rows.{
  not_there, find_session-none, KeepsSession, revoked-Keeps, seen-Keeps, revoke_session_in-Keeps,
  revoke_active_in-Keeps, has_ended,
}
use vpn.Auth.Users.Runs.{Op, opens, refreshes, logs_out, resets_password, changes_password, step}
use vpn.Auth.Users.Changes.{
  Tables, Kept, rotated_tokens, refresh-keeps, logout-keeps, confirm_password_reset-keeps,
  change_password-keeps,
}
use vpn.Auth.Users.Reuse.{find_session_id}
use vpn.Auth.Users.Counts.{
  revoke_session_in-NoNew, revoke_active_in-NoNew, revoked_session-NoNew, seen-NoNew, active_of,
  live_on, active_of-append, live_on-append, active_of-revoked, NoNew, live_on-map,
  active_of-rotated_tokens, live_on-revoked,
}

-- At most one active token in a session, none where there is no session, and at most one active session
-- on a device.
abbrev pub OneActive : Tables
OneActive sessions tokens =
    ((sid : ℕ) → active_of sid tokens ≤ 1)
    × ((sid : ℕ) → find_session sid sessions ≡ none → active_of sid tokens ≡ 0)
    × ((device_id : ℕ) → live_on device_id sessions ≤ 1)

OneActive-tokens :
    (now : ℕ) (ids : List ℕ) (sessions : List UserSession) (tokens : List RefreshToken)
    → OneActive sessions tokens
    → OneActive sessions (map (revoke_token_of now ids) tokens)
OneActive-tokens now ids sessions tokens (one, none_there, live) = (
  λ sid. omega (arith, one sid, active_of-revoked sid now ids tokens),
  λ sid h. omega (arith, none_there sid h, active_of-revoked sid now ids tokens),
  live,
)

OneActive-sessions :
    (f : UserSession → UserSession)
    → KeepsSession has_ended f
    → NoNew f
    → (sessions : List UserSession) (tokens : List RefreshToken) → OneActive sessions tokens
    → OneActive (map f sessions) tokens
OneActive-sessions f keeps new sessions tokens (one, none_there, live) = (
  one,
  λ sid h. none_there sid (not_there f keeps sid sessions h),
  λ device_id. omega (arith, live device_id, live_on-map f new device_id sessions),
)

OneActive-Kept : Kept OneActive
OneActive-Kept = record {
  revokes = λ now ids sessions tokens h.
      OneActive-sessions (revoke_session_in now ids) (revoke_session_in-Keeps now ids)
        (revoke_session_in-NoNew now ids) sessions _ (OneActive-tokens now ids sessions tokens h);
  revokes_active = λ now ids sessions tokens h.
      OneActive-sessions (revoke_active_in now ids) (revoke_active_in-Keeps now ids)
        (revoke_active_in-NoNew now ids) sessions _ (OneActive-tokens now ids sessions tokens h);
  revokes_one = λ now k ids sessions tokens h.
      OneActive-sessions (at_session k (revoked_session now)) (revoked-Keeps k now)
        (revoked_session-NoNew k now) sessions _ (OneActive-tokens now ids sessions tokens h);
  revokes_tokens = OneActive-tokens;
  rotates = λ d digest now successor_id t us sessions tokens found there live h.
      OneActive-sessions (at_session us.id (λ row. record row { last_seen_at = some now }))
        (seen-Keeps us.id now) (seen-NoNew us.id now) sessions _
        (rotated d digest now successor_id t us sessions tokens found there live h);
}
  where
    rotated :
        (d digest : OpaqueTokenDigest) (now successor_id : ℕ) (t : RefreshToken) (us : UserSession)
        (sessions : List UserSession) (tokens : List RefreshToken)
        → find_token d tokens ≡ some t
        → find_session t.session_id sessions ≡ some us
        → is_active_token t.state ≡ true
        → OneActive sessions tokens
        → OneActive sessions (rotated_tokens t us now successor_id digest tokens)
    rotated d digest now successor_id t us sessions tokens found there live
          (one, none_there, on_device) =
        let mine : us.id ≡ t.session_id = find_session_id t.session_id sessions there in
        let fewer = λ (sid : ℕ).
          active_of-rotated_tokens sid now successor_id d digest t us tokens found mine live in
        (
          λ sid. omega (arith, one sid, fewer sid),
          λ sid h. omega (arith, none_there sid h, fewer sid),
          on_device,
        )

open_session-OneActive :
    (user_id device_id session_id token_id : ℕ) (digest : OpaqueTokenDigest) (days now : ℕ)
    (db : AuthDb)
    → find_session session_id db.sessions ≡ none
    → OneActive db.sessions db.tokens
    → let db' = (open_session user_id device_id session_id token_id digest days now db).1 in
      OneActive db'.sessions db'.tokens
unfolding open_session revoke_active_device_sessions
open_session-OneActive user_id device_id session_id token_id digest days now db fresh
      (one, none_there, live) =
    let ids = selected_ids (λ us. (us.device_id == device_id) && is_active us.state) db.sessions in
    let expires_at = now + days * 86400 in
    let us : UserSession = record {
      id = session_id;
      user_id = user_id;
      device_id = device_id;
      state = LifecycleState.active;
      expires_at = expires_at;
      last_seen_at = some now;
      revoked_at = none;
    } in
    let token = new_refresh_token token_id session_id digest expires_at in
    let tokens = map (revoke_token_of now ids) db.tokens in
    let sessions = map (revoke_session_in now ids) db.sessions in
    let nobody = live_on-revoked device_id now ids db.sessions (λ k h. h) in
    let token_count = λ (sid : ℕ). active_of-append sid tokens (token ∷ []) in
    let fewer = λ (sid : ℕ). active_of-revoked sid now ids db.tokens in
    (
      λ sid. elim (Bool-cases (session_id == sid)) [
        | inl hit ↦
            let alone : active_of sid (token ∷ []) ≡ 1 = rw hit refl in
            let same : session_id ≡ sid = ground arith in
            let before : active_of sid db.tokens ≡ 0 = rw (← same) (none_there session_id fresh) in
            omega (arith, token_count sid, fewer sid, alone, before)
        | inr miss ↦
            let alone : active_of sid (token ∷ []) ≡ 0 = rw miss refl in
            omega (arith, token_count sid, fewer sid, alone, one sid)
      ],
      λ sid h.
          let (gone, other) = find_session-none sid sessions us h in
          let alone : active_of sid (token ∷ []) ≡ 0 = rw other refl in
          let before = none_there sid (
            not_there (revoke_session_in now ids) (revoke_session_in-Keeps now ids) sid db.sessions
              gone) in
          omega (arith, token_count sid, fewer sid, alone, before),
      λ device. elim (Bool-cases (device_id == device)) [
        | inl hit ↦
            let alone : live_on device (us ∷ []) ≡ 1 = rw hit refl in
            let same : device_id ≡ device = ground arith in
            let before : live_on device sessions ≡ 0 = rw (← same) nobody in
            omega (arith, live_on-append device sessions (us ∷ []), alone, before)
        | inr miss ↦
            let alone : live_on device (us ∷ []) ≡ 0 = rw miss refl in
            omega (
              arith,
              live_on-append device sessions (us ∷ []),
              alone,
              live device,
              live_on-map (revoke_session_in now ids) (revoke_session_in-NoNew now ids) device
                  db.sessions,
            )
      ],
    )

-- The id of a new session is not one that is there.
abbrev pub IsFresh : Op → AuthDb → Type 0
IsFresh (opens user_id device_id session_id token_id digest days now) db =
    find_session session_id db.sessions ≡ none
IsFresh (refreshes limit d now request_id successor_id digest) db = Unit
IsFresh (logs_out d now) db = Unit
IsFresh (resets_password by_token by_network d new_hash now) db = Unit
IsFresh (changes_password limit principal valid new_hash request_id now) db = Unit

-- The states that operations reach from tables without sessions.
pub data Reaches : AuthDb → Type 0 where
  starts : (db : AuthDb) → db.sessions ≡ [] → db.tokens ≡ [] → Reaches db
  steps : (op : Op) (db : AuthDb) → Reaches db → IsFresh op db → Reaches (step op db)

step-OneActive :
    (op : Op) (db : AuthDb)
    → IsFresh op db
    → OneActive db.sessions db.tokens
    → OneActive (step op db).sessions (step op db).tokens
unfolding step
step-OneActive (opens user_id device_id session_id token_id digest days now) db fresh h =
    open_session-OneActive user_id device_id session_id token_id digest days now db fresh h
step-OneActive (refreshes limit d now request_id successor_id digest) db fresh h =
    refresh-keeps OneActive-Kept limit d now request_id successor_id digest db h
step-OneActive (logs_out d now) db fresh h = logout-keeps OneActive-Kept d now db h
step-OneActive (resets_password by_token by_network d new_hash now) db fresh h =
    confirm_password_reset-keeps OneActive-Kept by_token by_network d new_hash now db h
step-OneActive (changes_password limit principal valid new_hash request_id now) db fresh h =
    change_password-keeps OneActive-Kept limit principal valid new_hash request_id now db h

-- In every state that the operations reach, in any order and with any arguments, a session has at most
-- one active refresh token and a device at most one active session, as the two unique indexes
-- require, when the ids of new sessions are fresh.
pub Reaches-OneActive : (db : AuthDb) → Reaches db → OneActive db.sessions db.tokens
Reaches-OneActive _ (starts db no_sessions no_tokens) =
    rw (no_sessions, no_tokens) (λ sid. omega arith, λ sid h. refl, λ device_id. omega arith)
Reaches-OneActive _ (steps op before reached fresh) =
    step-OneActive op before fresh (Reaches-OneActive before reached)
