-- ===== src/Auth/Users/Ended.antt =====
-- The end of a session of services/api/src/nebula_api/auth/user_service.py, in runs of the operations.
use vpn.Prelude.{
  ℕ, ◌≡◌, refl, true, false, ◌&&◌, Option, none, some, List, [], ◌∷◌, map, inl, inr, Bool-cases,
  arith, ◌==◌,
}
use vpn.Db.{find_user, find_device}
use vpn.Auth.Redis.{replied}
use vpn.Auth.OpaqueTokens.{OpaqueTokenDigest}
use vpn.Auth.Users.{
  UserSession, RefreshToken, AuthDb, is_active, find_session, find_token, at_session, at_token,
  refresh_is_eligible,
}
use vpn.Auth.Users.Revoke.{
  revoke_session_in, revoke_active_in, revoke_token_of, revoked_session, selected_ids,
  revoke_active_device_sessions,
}
use vpn.Auth.Users.Refresh.{
  rejected, refresh, refresh_session, is_consumed, consumed_token, load_principal,
}
use vpn.Auth.Users.Login.{open_session}
use vpn.Auth.Users.Rows.{
  holds, KeepsSession, find_session-map, find_session-append, find_token-map, find_token-append,
  has_ended, used_in, revoked-Keeps, seen-Keeps, revoke_session_in-Keeps, revoke_active_in-Keeps,
  revoke_token_of-Keeps, consumed-Keeps,
}
use vpn.Auth.Users.Runs.{
  Op, opens, refreshes, logs_out, resets_password, changes_password, step, run,
}
use vpn.Auth.Users.Changes.{
  Tables, Kept, refresh-keeps, logout-keeps, confirm_password_reset-keeps, change_password-keeps,
}

-- A session that is found before is found afterwards, ended if it was; a token that was used up stays
-- so, in the same session.
abbrev SessionAdvances : ℕ → List UserSession → List UserSession → Type 0
SessionAdvances sid before after =
    (holds has_ended (find_session sid before) ≡ true
      → holds has_ended (find_session sid after) ≡ true)
    × (holds (λ us. true) (find_session sid before) ≡ true
        → holds (λ us. true) (find_session sid after) ≡ true)

abbrev pub Advances : AuthDb → Tables
Advances before sessions tokens =
    ((sid : ℕ) → SessionAdvances sid before.sessions sessions)
    × ((sid : ℕ) (d : OpaqueTokenDigest)
        → holds (used_in sid) (find_token d before.tokens) ≡ true
        → holds (used_in sid) (find_token d tokens) ≡ true)

pub same : (db : AuthDb) → Advances db db.sessions db.tokens
same db = (λ sid. (λ h. h, λ h. h), λ sid d h. h)

SessionAdvances-map :
    (f : UserSession → UserSession)
    → KeepsSession has_ended f
    → (sid : ℕ) (before sessions : List UserSession) → SessionAdvances sid before sessions
    → SessionAdvances sid before (map f sessions)
SessionAdvances-map f keeps sid before sessions (ends, stays) = (
  λ h. find_session-map has_ended f keeps sid sessions (ends h),
  λ h. find_session-map (λ us. true) f (λ us. ((keeps us).0, λ h. refl)) sid sessions (stays h),
)

used_in-map :
    (now : ℕ) (ids : List ℕ) (sid : ℕ) (d : OpaqueTokenDigest) (tokens : List RefreshToken)
    → holds (used_in sid) (find_token d tokens) ≡ true
    → holds (used_in sid) (find_token d (map (revoke_token_of now ids) tokens)) ≡ true
used_in-map now ids sid d tokens h =
    find_token-map (used_in sid) (revoke_token_of now ids) (revoke_token_of-Keeps sid now ids) d
      tokens h

pub Advances-Kept : (before : AuthDb) → Kept (Advances before)
Advances-Kept before = record {
  revokes = λ now ids sessions tokens (s, t). (
    λ sid.
        SessionAdvances-map (revoke_session_in now ids) (revoke_session_in-Keeps now ids) sid
          before.sessions sessions (s sid),
    λ sid d h. used_in-map now ids sid d tokens (t sid d h),
  );
  revokes_active = λ now ids sessions tokens (s, t). (
    λ sid.
        SessionAdvances-map (revoke_active_in now ids) (revoke_active_in-Keeps now ids) sid
          before.sessions sessions (s sid),
    λ sid d h. used_in-map now ids sid d tokens (t sid d h),
  );
  revokes_one = λ now k ids sessions tokens (s, t). (
    λ sid.
        SessionAdvances-map (at_session k (revoked_session now)) (revoked-Keeps k now) sid
          before.sessions sessions (s sid),
    λ sid d h. used_in-map now ids sid d tokens (t sid d h),
  );
  revokes_tokens = λ now ids sessions tokens (s, t).
      (s, λ sid d h. used_in-map now ids sid d tokens (t sid d h));
  rotates = λ d0 digest now successor_id t0 us sessions tokens found there live (s, t). (
    λ sid.
        SessionAdvances-map (at_session us.id (λ row. record row { last_seen_at = some now }))
          (seen-Keeps us.id now) sid before.sessions sessions (s sid),
    λ sid d h.
        find_token-append (used_in sid) d
          (map (at_token t0.id (consumed_token now successor_id)) tokens) _
          (find_token-map (used_in sid) (at_token t0.id (consumed_token now successor_id))
            (consumed-Keeps sid t0.id now successor_id) d tokens (t sid d h)),
  );
}

open_session-Advances :
    (user_id device_id session_id token_id : ℕ) (digest : OpaqueTokenDigest) (days now : ℕ)
    (db : AuthDb)
    → let db' = (open_session user_id device_id session_id token_id digest days now db).1 in
      Advances db db'.sessions db'.tokens
unfolding open_session revoke_active_device_sessions
open_session-Advances user_id device_id session_id token_id digest days now db =
    let ids = selected_ids (λ us. (us.device_id == device_id) && is_active us.state) db.sessions in
    let kept = Advances-Kept db in
    let (s, t) = kept.revokes now ids db.sessions db.tokens (same db) in
    (
      λ sid. (
        λ h.
            find_session-append has_ended sid (map (revoke_session_in now ids) db.sessions) _
              ((s sid).0 h),
        λ h.
            find_session-append (λ us. true) sid (map (revoke_session_in now ids) db.sessions) _
              ((s sid).1 h),
      ),
      λ sid d h.
          find_token-append (used_in sid) d (map (revoke_token_of now ids) db.tokens) _ (t sid d h),
    )

step-Advances : (op : Op) (db : AuthDb) → Advances db (step op db).sessions (step op db).tokens
unfolding step
step-Advances (opens user_id device_id session_id token_id digest days now) db =
    open_session-Advances user_id device_id session_id token_id digest days now db
step-Advances (refreshes limit d now request_id successor_id digest) db =
    refresh-keeps (Advances-Kept db) limit d now request_id successor_id digest db (same db)
step-Advances (logs_out d now) db = logout-keeps (Advances-Kept db) d now db (same db)
step-Advances (resets_password by_token by_network d new_hash now) db =
    confirm_password_reset-keeps (Advances-Kept db) by_token by_network d new_hash now db (same db)
step-Advances (changes_password limit principal valid new_hash request_id now) db =
    change_password-keeps (Advances-Kept db) limit principal valid new_hash request_id now db
      (same db)

pub run-Advances :
    (ops : List Op) (db : AuthDb) → Advances db (run ops db).sessions (run ops db).tokens
unfolding run
run-Advances [] db = same db
run-Advances (op ∷ ops) db =
    let (sessions, tokens) = step-Advances op db in
    let (later_sessions, later_tokens) = run-Advances ops (step op db) in
    (
      λ sid. (
        λ h. (later_sessions sid).0 ((sessions sid).0 h),
        λ h. (later_sessions sid).1 ((sessions sid).1 h),
      ),
      λ sid d h. later_tokens sid d (tokens sid d h),
    )

found_ended :
    (o : Option UserSession)
    → holds has_ended o ≡ true
    → (us : UserSession) × (o ≡ some us) × (is_active us.state ≡ false)
found_ended none h = ground arith
found_ended (some us) h = (us, refl, ground arith)

refused :
    (token : RefreshToken) (now successor_id : ℕ) (digest : OpaqueTokenDigest) (db : AuthDb)
    → holds has_ended (find_session token.session_id db.sessions) ≡ true
    → (refresh_session token
        (find_session token.session_id db.sessions)
        now
        successor_id
        digest
        db).0
      ≡ rejected
refused token now successor_id digest db h =
    let (us, found, over) = found_ended (find_session token.session_id db.sessions) h in
    elim (Bool-cases (is_consumed token.state)) [
      | inl used ↦ rw (found, used) refl
      | inr unused ↦
          let ineligible : refresh_is_eligible token us (find_user us.user_id db.tables.users)
                (find_device us.device_id db.tables.devices) now
              ≡ false =
            ground arith in
          rw (found, unused, ineligible) refl
    ]

-- Once a session is over it is of no use again, whatever is done in between: each of its refresh
-- tokens that the rate limit lets through is rejected, and so is every access token that names it.
pub run-ended :
    (sid user_id now request_id successor_id : ℕ) (d digest : OpaqueTokenDigest)
    (token : RefreshToken) (ops : List Op) (db : AuthDb)
    → holds has_ended (find_session sid db.sessions) ≡ true
    → find_token d (run ops db).tokens ≡ some token
    → token.session_id ≡ sid
    → let db' = run ops db in
      ((refresh (replied true) (some d) now request_id successor_id digest db').0 ≡ rejected)
      × (load_principal user_id sid now db' ≡ rejected)
unfolding refresh load_principal
run-ended sid user_id now request_id successor_id d digest token ops db h there belongs =
    let db' = run ops db in
    let over = ((run-Advances ops db).0 sid).0 h in
    let (us, found, inactive) = found_ended (find_session sid db'.sessions) over in
    (
      rw there (refused token now successor_id digest db' (rw belongs over)),
      elim (Bool-cases (us.user_id == user_id)) [
        | inl owner ↦ rw (found, owner, inactive) refl
        | inr other ↦ rw (found, other) refl
      ],
    )
