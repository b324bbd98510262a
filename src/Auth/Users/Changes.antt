-- ===== src/Auth/Users/Changes.antt =====
-- What the operations of services/api/src/nebula_api/auth/user_service.py do to the tables of sessions
-- and of refresh tokens: an interface of a few changes, and every operation by them.
use vpn.Prelude.{
  ℕ, ◌≡◌, refl, Bool, true, false, ◌&&◌, not, Option, none, some, List, [], ◌∷◌, ◌++◌, map, min,
  inl, inr, Bool-cases, Option-cases, arith, ◌==◌, leb,
}
use vpn.Db.{User, find_user, find_device}
use vpn.Auth.Redis.{Reply, replied, invalid, unavailable}
use vpn.Auth.OpaqueTokens.{OpaqueTokenDigest}
use vpn.Auth.Users.{
  UserSession, RefreshToken, PasswordResetToken, AuthDb, is_active, is_active_token, find_session,
  find_token, find_reset, at_session, at_token, user_can_authenticate, refresh_is_eligible,
}
use vpn.Auth.Users.Revoke.{
  revoke_session, revoke_session_in, revoke_active_in, revoke_token_of, revoked_session,
  selected_ids, revoke_all_user_sessions,
}
use vpn.Auth.Users.Refresh.{
  refresh, refresh_session, logout, is_consumed, consumed_token, new_refresh_token,
  AuthenticatedUser,
}
use vpn.Auth.Users.Passwords.{confirm_password_reset, reset_found, change_password, change_user}

abbrev pub Tables : Type 1
Tables = List UserSession → List RefreshToken → Type 0

-- The sessions and the tokens of a successful rotation.
abbrev pub seen_sessions : ℕ → ℕ → List UserSession → List UserSession
seen_sessions k now sessions =
    map (at_session k (λ row. record row { last_seen_at = some now })) sessions

abbrev pub rotated_tokens :
    RefreshToken → UserSession → ℕ → ℕ → OpaqueTokenDigest → List RefreshToken → List RefreshToken
rotated_tokens t us now successor_id digest tokens =
    map (at_token t.id (consumed_token now successor_id)) tokens
    ++ (new_refresh_token successor_id us.id digest (min t.expires_at us.expires_at) ∷ [])

-- A predicate of the two tables that the changes keep.
pub record Kept (P : Tables) : Type 0 where
  pub revokes :
      (now : ℕ) (ids : List ℕ) (sessions : List UserSession) (tokens : List RefreshToken)
      → P sessions tokens
      → P (map (revoke_session_in now ids) sessions) (map (revoke_token_of now ids) tokens)
  pub revokes_active :
      (now : ℕ) (ids : List ℕ) (sessions : List UserSession) (tokens : List RefreshToken)
      → P sessions tokens
      → P (map (revoke_active_in now ids) sessions) (map (revoke_token_of now ids) tokens)
  pub revokes_one :
      (now k : ℕ) (ids : List ℕ) (sessions : List UserSession) (tokens : List RefreshToken)
      → P sessions tokens
      → P (map (at_session k (revoked_session now)) sessions) (map (revoke_token_of now ids) tokens)
  pub revokes_tokens :
      (now : ℕ) (ids : List ℕ) (sessions : List UserSession) (tokens : List RefreshToken)
      → P sessions tokens
      → P sessions (map (revoke_token_of now ids) tokens)
  pub rotates :
      (d digest : OpaqueTokenDigest) (now successor_id : ℕ) (t : RefreshToken) (us : UserSession)
      (sessions : List UserSession) (tokens : List RefreshToken)
      → find_token d tokens ≡ some t
      → find_session t.session_id sessions ≡ some us
      → is_active_token t.state ≡ true
      → P sessions tokens
      → P (seen_sessions us.id now sessions) (rotated_tokens t us now successor_id digest tokens)

module _ {P : Tables} (kept : Kept P) where
  open kept use {revokes, revokes_active, revokes_one, revokes_tokens, rotates}

  abbrev Holds : AuthDb → Type 0
  Holds db = P db.sessions db.tokens

  revoke_session-keeps :
      (us : UserSession) (now : ℕ) (db : AuthDb) → Holds db → Holds (revoke_session us now db)
  unfolding revoke_session
  revoke_session-keeps us now db h = elim (Bool-cases (is_active us.state)) [
    | inl live ↦ rw live (revokes_one now us.id (us.id ∷ []) db.sessions db.tokens h)
    | inr ended ↦ rw ended (revokes_tokens now (us.id ∷ []) db.sessions db.tokens h)
  ]

  refresh_session-keeps :
      (d digest : OpaqueTokenDigest) (token : RefreshToken) (us : Option UserSession)
      (now successor_id : ℕ) (db : AuthDb)
      → find_token d db.tokens ≡ some token
      → find_session token.session_id db.sessions ≡ us
      → Holds db
      → Holds (refresh_session token us now successor_id digest db).1
  refresh_session-keeps d digest token none now successor_id db found there h = h
  refresh_session-keeps d digest token (some us) now successor_id db found there h =
      let user = find_user us.user_id db.tables.users in
      let device = find_device us.device_id db.tables.devices in
      elim (Bool-cases (is_consumed token.state)) [
        | inl used ↦ rw used (revoke_session-keeps us now db h)
        | inr unused ↦ elim (Bool-cases (refresh_is_eligible token us user device now)) [
          | inr ineligible ↦ rw (unused, ineligible) (revoke_session-keeps us now db h)
          | inl eligible ↦ elim (Option-cases user) [
            | inl missing ↦ rw (unused, eligible, missing) h
            | inr (u, known) ↦
                let live : is_active_token token.state ≡ true = ground arith in
                rw (unused, eligible, known)
                  (rotates d digest now successor_id token us db.sessions db.tokens found there live
                    h)
          ]
        ]
      ]

  pub refresh-keeps :
      (limit : Reply Bool) (d : Option OpaqueTokenDigest) (now request_id successor_id : ℕ)
      (digest : OpaqueTokenDigest) (db : AuthDb)
      → Holds db
      → Holds (refresh limit d now request_id successor_id digest db).1
  unfolding refresh
  refresh-keeps (replied false) d now request_id successor_id digest db h = h
  refresh-keeps invalid d now request_id successor_id digest db h = h
  refresh-keeps unavailable d now request_id successor_id digest db h = h
  refresh-keeps (replied true) none now request_id successor_id digest db h = h
  refresh-keeps (replied true) (some d) now request_id successor_id digest db h =
      elim (Option-cases (find_token d db.tokens)) [
        | inl missing ↦ rw missing h
        | inr (token, found) ↦ rw found (
            refresh_session-keeps d digest token (find_session token.session_id db.sessions) now
              successor_id db found refl h)
      ]

  pub logout-keeps :
      (d : Option OpaqueTokenDigest) (now : ℕ) (db : AuthDb) → Holds db → Holds (logout d now db)
  unfolding logout
  logout-keeps none now db h = h
  logout-keeps (some d) now db h = elim (Option-cases (find_token d db.tokens)) [
    | inl missing ↦ rw missing h
    | inr (token, found) ↦ elim (Option-cases (find_session token.session_id db.sessions)) [
      | inl gone ↦ rw (found, gone) h
      | inr (us, there) ↦ rw (found, there) (revoke_session-keeps us now db h)
    ]
  ]

  reset_found-keeps :
      (reset : Option PasswordResetToken) (new_hash now : ℕ) (db : AuthDb)
      → Holds db
      → Holds (reset_found reset new_hash now db).1
  unfolding revoke_all_user_sessions
  reset_found-keeps none new_hash now db h = h
  reset_found-keeps (some reset) new_hash now db h =
      elim (Bool-cases (is_active_token reset.state && not (leb reset.expires_at now))) [
        | inr unfit ↦ rw unfit h
        | inl fit ↦ elim (Option-cases (find_user reset.user_id db.tables.users)) [
          | inl missing ↦ rw (fit, missing) h
          | inr (user, found) ↦ elim (Bool-cases (user_can_authenticate user now)) [
            | inr barred ↦ rw (fit, found, barred) h
            | inl allowed ↦
                let ids = selected_ids (λ us. us.user_id == user.id) db.sessions in
                rw (fit, found, allowed) (revokes_active now ids db.sessions db.tokens h)
          ]
        ]
      ]

  pub confirm_password_reset-keeps :
      (by_token by_network : Reply Bool) (d : Option OpaqueTokenDigest) (new_hash now : ℕ)
      (db : AuthDb)
      → Holds db
      → Holds (confirm_password_reset by_token by_network d new_hash now db).1
  unfolding confirm_password_reset
  confirm_password_reset-keeps (replied false) by_network d new_hash now db h = h
  confirm_password_reset-keeps invalid by_network d new_hash now db h = h
  confirm_password_reset-keeps unavailable by_network d new_hash now db h = h
  confirm_password_reset-keeps (replied true) (replied false) d new_hash now db h = h
  confirm_password_reset-keeps (replied true) invalid d new_hash now db h = h
  confirm_password_reset-keeps (replied true) unavailable d new_hash now db h = h
  confirm_password_reset-keeps (replied true) (replied true) none new_hash now db h = h
  confirm_password_reset-keeps (replied true) (replied true) (some d) new_hash now db h =
      reset_found-keeps (find_reset d db.resets) new_hash now db h

  change_user-keeps :
      (principal : AuthenticatedUser) (user : Option User) (valid : Bool) (new_hash now : ℕ)
      (db : AuthDb)
      → Holds db
      → Holds (change_user principal user valid new_hash now db).1
  change_user-keeps principal none valid new_hash now db h = h
  change_user-keeps principal (some user) valid new_hash now db h =
      let others =
        selected_ids
          (λ us.
            (us.user_id == user.id) && not (us.id == principal.session_id) && is_active us.state)
          db.sessions in
      elim (Bool-cases (valid && user_can_authenticate user now)) [
        | inl confirmed ↦ rw confirmed (revokes now others db.sessions db.tokens h)
        | inr refused ↦ rw refused h
      ]

  pub change_password-keeps :
      (limit : Reply Bool) (principal : AuthenticatedUser) (valid : Bool)
      (new_hash request_id now : ℕ) (db : AuthDb)
      → Holds db
      → Holds (change_password limit principal valid new_hash request_id now db).1
  unfolding change_password
  change_password-keeps (replied true) principal valid new_hash request_id now db h =
      change_user-keeps principal (find_user principal.user_id db.tables.users) valid new_hash now
        db h
  change_password-keeps (replied false) principal valid new_hash request_id now db h = h
  change_password-keeps invalid principal valid new_hash request_id now db h = h
  change_password-keeps unavailable principal valid new_hash request_id now db h = h
