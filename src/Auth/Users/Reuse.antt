-- ===== src/Auth/Users/Reuse.antt =====
-- The reuse of a refresh token that `refresh` (services/api/src/nebula_api/auth/user_service.py) has
-- used up.
use vpn.Prelude.{
  ℕ, ◌≡◌, ◌∙◌, ap, refl, true, false, some, List, [], ◌∷◌, ◌++◌, map, min, inl, inr, Bool-cases,
  Option-cases, arith, ◌==◌, ==_refl,
}
use vpn.Db.{find_user, find_device}
use vpn.Auth.Redis.{replied}
use vpn.Auth.OpaqueTokens.{OpaqueTokenDigest}
use vpn.Auth.Users.{
  UserSession, RefreshToken, AuthDb, is_active, same_digest, find_session, find_token, at_session,
  at_token, refresh_is_eligible,
}
use vpn.Auth.Users.Revoke.{revoke_session, revoked_session}
use vpn.Auth.Users.Refresh.{
  Answer, accepted, rejected, rate_limited, failed, expired_account, no_device_left,
  new_refresh_token, UserTokenPair, refresh, is_consumed, consumed_token,
}
use vpn.Auth.Users.Rows.{
  holds, has_ended, used_in, KeepsSession, find_session-map, find_token-append, seen-Keeps,
  consumed-Keeps,
}
use vpn.Auth.Users.Runs.{Op, run}
use vpn.Auth.Users.Ended.{run-Advances}

pub find_session_id :
    (k : ℕ) (sessions : List UserSession) {us : UserSession}
    → find_session k sessions ≡ some us
    → us.id ≡ k
find_session_id k [] h = ground arith
find_session_id k (v ∷ sessions) {us} h = ground (arith, find_session_id k sessions {us = us})

-- The row that is found, once the row with its id is consumed.
find_token-consumed :
    (k now successor_id : ℕ) (d : OpaqueTokenDigest) (tokens : List RefreshToken) (t : RefreshToken)
    → find_token d tokens ≡ some t
    → t.id ≡ k
    → holds
        (used_in t.session_id)
        (find_token d (map (at_token k (consumed_token now successor_id)) tokens))
      ≡ true
find_token-consumed k now successor_id d [] t h own = ground arith
find_token-consumed k now successor_id d (v ∷ tokens) t h own =
    elim (Bool-cases (same_digest v.digest d)) [
      | inl hit ↦
          let h' : some v ≡ some t = rw hit at h in
          let e : v ≡ t = cc in
          let mine : (v.id == k) ≡ true = ap (λ i. i == k) (ap (λ x. x.id) e ∙ own) ∙ ==_refl k in
          let session : (v.session_id == t.session_id) ≡ true =
            ap (λ x. x.session_id == t.session_id) e ∙ ==_refl t.session_id in
          rw (mine, hit, session) refl
      | inr miss ↦
          let same : same_digest (at_token k (consumed_token now successor_id) v).digest d
              ≡ same_digest v.digest d =
            ap (λ e. same_digest e d) (consumed-Keeps 0 k now successor_id v).0 in
          rw (same ∙ miss) (find_token-consumed k now successor_id d tokens t (rw miss at h) own)
    ]

found_id :
    (k : ℕ) (sessions : List UserSession) (f : UserSession → UserSession) {us : UserSession}
    → KeepsSession has_ended f
    → find_session k sessions ≡ some us
    → holds (λ us. true) (find_session us.id (map f sessions)) ≡ true
found_id k sessions f {us} keeps h =
    let id : us.id ≡ k = find_session_id k sessions h in
    find_session-map (λ us. true) f (λ us. ((keeps us).0, λ h. refl)) us.id sessions
      (rw (id, h) refl)

end_found :
    (k now : ℕ) (sessions : List UserSession)
    → holds (λ us. true) (find_session k sessions) ≡ true
    → holds has_ended (find_session k (map (at_session k (revoked_session now)) sessions)) ≡ true
end_found k now [] h = h
end_found k now (us ∷ sessions) h = elim (Bool-cases (us.id == k)) [
  | inl hit ↦ rw (hit, hit) refl
  | inr miss ↦ rw (miss, miss) (end_found k now sessions (rw miss at h))
]

-- What is known of a session in which a token was used up.
abbrev IsUsed : ℕ → OpaqueTokenDigest → AuthDb → Type 0
IsUsed sid d db =
    (holds (used_in sid) (find_token d db.tokens) ≡ true)
    × (holds (λ us. true) (find_session sid db.sessions) ≡ true)

abbrev session_of : Answer UserTokenPair → ℕ
session_of (accepted pair) = pair.session_id
session_of rejected = 0
session_of rate_limited = 0
session_of failed = 0
session_of expired_account = 0
session_of no_device_left = 0

rotated :
    (d digest : OpaqueTokenDigest) (now successor_id : ℕ) (t : RefreshToken) (us : UserSession)
    (db : AuthDb)
    → find_token d db.tokens ≡ some t
    → find_session t.session_id db.sessions ≡ some us
    → (holds (used_in us.id) (
          find_token d (
            map (at_token t.id (consumed_token now successor_id)) db.tokens
            ++ (new_refresh_token successor_id us.id digest (min t.expires_at us.expires_at) ∷ [])))
        ≡ true)
      × (holds
            (λ us. true)
            (find_session us.id
              (map (at_session us.id (λ row. record row { last_seen_at = some now })) db.sessions))
          ≡ true)
rotated d digest now successor_id t us db found there =
    let id : us.id ≡ t.session_id = find_session_id t.session_id db.sessions there in
    (
      find_token-append (used_in us.id) d
          (map (at_token t.id (consumed_token now successor_id)) db.tokens) _
          (rw id (find_token-consumed t.id now successor_id d db.tokens t found refl)),
      found_id t.session_id db.sessions
          (at_session us.id (λ row. record row { last_seen_at = some now })) (seen-Keeps us.id now)
          there,
    )

refresh-IsUsed :
    (d digest : OpaqueTokenDigest) (now request_id successor_id : ℕ) (pair : UserTokenPair)
    (db : AuthDb)
    → (refresh (replied true) (some d) now request_id successor_id digest db).0 ≡ accepted pair
    → IsUsed pair.session_id d
        (refresh (replied true) (some d) now request_id successor_id digest db).1
unfolding refresh
refresh-IsUsed d digest now request_id successor_id pair db h =
    elim (Option-cases (find_token d db.tokens)) [
      | inl missing ↦ let bad : rejected ≡ accepted pair = rw missing at h in ground arith
      | inr (t, found) ↦ elim (Option-cases (find_session t.session_id db.sessions)) [
        | inl gone ↦ let bad : rejected ≡ accepted pair = rw (found, gone) at h in ground arith
        | inr (us, there) ↦ elim (Bool-cases (is_consumed t.state)) [
          | inl used ↦
              let bad : rejected ≡ accepted pair = rw (found, there, used) at h in ground arith
          | inr unused ↦
              let user = find_user us.user_id db.tables.users in
              let device = find_device us.device_id db.tables.devices in
              elim (Bool-cases (refresh_is_eligible t us user device now)) [
                | inr unfit ↦
                    let bad : rejected ≡ accepted pair = rw (found, there, unused, unfit) at h in
                    ground arith
                | inl fit ↦ elim (Option-cases user) [
                  | inl nobody ↦
                      let bad : rejected ≡ accepted pair =
                        rw (found, there, unused, fit, nobody) at h in
                      ground arith
                  | inr (u, known) ↦
                      let sid : us.id ≡ pair.session_id =
                        ap session_of (rw (found, there, unused, fit, known) at h) in
                      rw (found, there, unused, fit, known, ← sid)
                        (rotated d digest now successor_id t us db found there)
                ]
              ]
        ]
      ]
    ]

reused :
    (sid now request_id successor_id : ℕ) (d digest : OpaqueTokenDigest) (db : AuthDb)
    → IsUsed sid d db
    → let (reply, db') = refresh (replied true) (some d) now request_id successor_id digest db in
      (reply ≡ rejected) × (holds has_ended (find_session sid db'.sessions) ≡ true)
unfolding refresh revoke_session
reused sid now request_id successor_id d digest db (used, there) =
    elim (Option-cases (find_token d db.tokens)) [
      | inl missing ↦ let bad : false ≡ true = rw missing at used in ground arith
      | inr (t, found) ↦
          let used' : used_in sid t ≡ true = rw found at used in
          let consumed : is_consumed t.state ≡ true = ground arith in
          let same : t.session_id ≡ sid = ground arith in
          elim (Option-cases (find_session sid db.sessions)) [
            | inl gone ↦ let bad : false ≡ true = rw gone at there in ground arith
            | inr (us, known) ↦
                let id : us.id ≡ sid = find_session_id sid db.sessions known in
                elim (Bool-cases (is_active us.state)) [
                  | inl live ↦
                      rw (found, same, known, consumed, live)
                        (refl, rw id (end_found sid now db.sessions there))
                  | inr over ↦ rw (found, same, known, consumed, over) (refl, rw (known, over) refl)
                ]
          ]
    ]

-- A refresh token that was accepted once is never accepted again, whatever is done in between: when the
-- rate limit lets it through it is rejected, and after that the session that it belongs to is over.
pub refresh-reuse :
    (d digest digest' : OpaqueTokenDigest)
    (now now' request_id request_id' successor_id successor_id' : ℕ) (pair : UserTokenPair)
    (ops : List Op) (db : AuthDb)
    → (refresh (replied true) (some d) now request_id successor_id digest db).0 ≡ accepted pair
    → let later =
        run ops (refresh (replied true) (some d) now request_id successor_id digest db).1 in
      let (reply, db') =
        refresh (replied true) (some d) now' request_id' successor_id' digest' later in
      (reply ≡ rejected) × (holds has_ended (find_session pair.session_id db'.sessions) ≡ true)
refresh-reuse d digest digest' now now' request_id request_id' successor_id successor_id' pair ops
      db h =
    let db1 = (refresh (replied true) (some d) now request_id successor_id digest db).1 in
    let (used, there) = refresh-IsUsed d digest now request_id successor_id pair db h in
    let (sessions, tokens) = run-Advances ops db1 in
    reused pair.session_id now' request_id' successor_id' d digest' (run ops db1)
      (tokens pair.session_id d used, (sessions pair.session_id).1 there)
