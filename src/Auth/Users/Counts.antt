-- ===== src/Auth/Users/Counts.antt =====
-- The rows of the partial unique indexes of models/identity.py, counted, when
-- services/api/src/nebula_api/auth/user_service.py writes the tables.
use vpn.Prelude.{
  ℕ, suc, ◌+◌, ◌≤◌, ◌≡◌, ◌∙◌, ap, refl, Bool, true, false, ◌&&◌, ◌||◌, some, List, [], ◌∷◌, ◌++◌,
  map, min, inl, inr, Bool-cases, arith, contains, ◌==◌, ==_refl, if◌then◌else◌,
}
use vpn.Auth.OpaqueTokens.{OpaqueTokenDigest}
use vpn.Auth.Users.{
  at_session, UserSession, RefreshToken, is_active, is_active_token, same_digest, find_token,
  at_token,
}
use vpn.Auth.Users.Revoke.{
  revoked_session, revoke_session_in, revoke_active_in, revoke_token_of, selected_ids,
}
use vpn.Auth.Users.Refresh.{consumed_token, new_refresh_token}
use vpn.Auth.Users.Changes.{rotated_tokens}

-- The rows of the two indexes with a key.
abbrev pub active_of : ℕ → List RefreshToken → ℕ
active_of sid [] = 0
active_of sid (t ∷ tokens) =
    let rest = active_of sid tokens in
    if (t.session_id == sid) && is_active_token t.state then suc rest else rest

abbrev pub live_on : ℕ → List UserSession → ℕ
live_on device_id [] = 0
live_on device_id (us ∷ sessions) =
    let rest = live_on device_id sessions in
    if (us.device_id == device_id) && is_active us.state then suc rest else rest

pub active_of-append :
    (sid : ℕ) (tokens more : List RefreshToken)
    → active_of sid (tokens ++ more) ≡ active_of sid tokens + active_of sid more
active_of-append sid [] more = omega arith
active_of-append sid (t ∷ tokens) more = ground (arith, active_of-append sid tokens more)

pub live_on-append :
    (device_id : ℕ) (sessions more : List UserSession)
    → live_on device_id (sessions ++ more) ≡ live_on device_id sessions + live_on device_id more
live_on-append device_id [] more = omega arith
live_on-append device_id (us ∷ sessions) more =
    ground (arith, live_on-append device_id sessions more)

pub active_of-revoked :
    (sid now : ℕ) (ids : List ℕ) (tokens : List RefreshToken)
    → active_of sid (map (revoke_token_of now ids) tokens) ≤ active_of sid tokens
active_of-revoked sid now ids [] = omega arith
active_of-revoked sid now ids (t ∷ tokens) = ground (arith, active_of-revoked sid now ids tokens)

pub active_of-consumed :
    (sid k now successor_id : ℕ) (tokens : List RefreshToken)
    → active_of sid (map (at_token k (consumed_token now successor_id)) tokens)
      ≤ active_of sid tokens
active_of-consumed sid k now successor_id [] = omega arith
active_of-consumed sid k now successor_id (t ∷ tokens) =
    ground (arith, active_of-consumed sid k now successor_id tokens)

-- The active token that is found is one less once it is consumed.
pub active_of-rotated :
    (sid now successor_id : ℕ) (d : OpaqueTokenDigest) (tokens : List RefreshToken)
    (t : RefreshToken)
    → find_token d tokens ≡ some t
    → t.session_id ≡ sid
    → is_active_token t.state ≡ true
    → suc (active_of sid (map (at_token t.id (consumed_token now successor_id)) tokens))
      ≤ active_of sid tokens
active_of-rotated sid now successor_id d [] t found mine live = ground arith
active_of-rotated sid now successor_id d (v ∷ tokens) t found mine live =
    elim (Bool-cases (same_digest v.digest d)) [
      | inl hit ↦
          let found' : some v ≡ some t = rw hit at found in
          let e : v ≡ t = cc in
          let id : (v.id == t.id) ≡ true = ap (λ x. x.id == t.id) e ∙ ==_refl t.id in
          let session : v.session_id ≡ sid = ap (λ x. x.session_id) e ∙ mine in
          let state : is_active_token v.state ≡ true = ap (λ x. is_active_token x.state) e ∙ live in
          ground (arith, active_of-consumed sid t.id now successor_id tokens)
      | inr miss ↦
          let found' : find_token d tokens ≡ some t = rw miss at found in
          ground (arith, active_of-rotated sid now successor_id d tokens t found' mine live)
    ]

-- A write that leaves the id and the device, and activates nothing.
abbrev pub NoNew : (UserSession → UserSession) → Type 0
NoNew f =
    (us : UserSession)
    → ((f us).device_id ≡ us.device_id)
      × (is_active (f us).state ≡ true → is_active us.state ≡ true)

pub live_on-map :
    (f : UserSession → UserSession)
    → NoNew f
    → (device_id : ℕ) (sessions : List UserSession)
    → live_on device_id (map f sessions) ≤ live_on device_id sessions
live_on-map f new device_id [] = omega arith
live_on-map f new device_id (us ∷ sessions) =
    let device : (f us).device_id ≡ us.device_id = (new us).0 in
    elim (Bool-cases (is_active (f us).state)) [
      | inl live ↦
          let was : is_active us.state ≡ true = (new us).1 live in
          ground (arith, live_on-map f new device_id sessions)
      | inr over ↦ ground (arith, live_on-map f new device_id sessions)
    ]

pub active_of-rotated_tokens :
    (sid now successor_id : ℕ) (d digest : OpaqueTokenDigest) (t : RefreshToken) (us : UserSession)
    (tokens : List RefreshToken)
    → find_token d tokens ≡ some t
    → us.id ≡ t.session_id
    → is_active_token t.state ≡ true
    → active_of sid (rotated_tokens t us now successor_id digest tokens) ≤ active_of sid tokens
active_of-rotated_tokens sid now successor_id d digest t us tokens found mine live =
    let consumed = map (at_token t.id (consumed_token now successor_id)) tokens in
    let successor = new_refresh_token successor_id us.id digest (min t.expires_at us.expires_at) in
    let split = active_of-append sid consumed (successor ∷ []) in
    elim (Bool-cases (us.id == sid)) [
      | inl hit ↦
          let session : t.session_id ≡ sid = ground arith in
          let fewer = active_of-rotated sid now successor_id d tokens t found session live in
          let alone : active_of sid (successor ∷ []) ≡ 1 = rw hit refl in
          omega (arith, split, fewer, alone)
      | inr miss ↦
          let alone : active_of sid (successor ∷ []) ≡ 0 = rw miss refl in
          omega (arith, split, alone, active_of-consumed sid t.id now successor_id tokens)
    ]

-- No session of a device is active once all that were are revoked.
pub live_on-revoked :
    (device_id now : ℕ) (ids : List ℕ) (sessions : List UserSession)
    → ((k : ℕ)
        → contains k
            (selected_ids (λ us. (us.device_id == device_id) && is_active us.state) sessions)
          ≡ true
        → contains k ids ≡ true)
    → live_on device_id (map (revoke_session_in now ids) sessions) ≡ 0
live_on-revoked device_id now ids [] all = refl
live_on-revoked device_id now ids (us ∷ sessions) all =
    elim (Bool-cases ((us.device_id == device_id) && is_active us.state)) [
      | inl chosen ↦
          let among : contains us.id ids ≡ true = all us.id (rw (chosen, ==_refl us.id) refl) in
          let rest =
            live_on-revoked device_id now ids sessions
              (λ k h. all k (rw (chosen, h) (or_true (us.id == k)))) in
          ground (arith, rest)
      | inr other ↦
          let rest =
            live_on-revoked device_id now ids sessions (λ k h. all k (rw (other, h) refl)) in
          ground (arith, rest)
    ]
  where
    or_true : (b : Bool) → (b || true) ≡ true
    or_true true = refl
    or_true false = refl

pub revoke_session_in-NoNew : (now : ℕ) (ids : List ℕ) → NoNew (revoke_session_in now ids)
revoke_session_in-NoNew now ids us = elim (Bool-cases (contains us.id ids)) [
  | inl hit ↦ rw hit (refl, λ h. ground arith)
  | inr miss ↦ rw miss (refl, λ h. h)
]

pub revoke_active_in-NoNew : (now : ℕ) (ids : List ℕ) → NoNew (revoke_active_in now ids)
revoke_active_in-NoNew now ids us = elim (Bool-cases (contains us.id ids && is_active us.state)) [
  | inl hit ↦ rw hit (refl, λ h. ground arith)
  | inr miss ↦ rw miss (refl, λ h. h)
]

pub revoked_session-NoNew : (k now : ℕ) → NoNew (at_session k (revoked_session now))
revoked_session-NoNew k now us = elim (Bool-cases (us.id == k)) [
  | inl hit ↦ rw hit (refl, λ h. ground arith)
  | inr miss ↦ rw miss (refl, λ h. h)
]

pub seen-NoNew : (k now : ℕ) → NoNew (at_session k (λ row. record row { last_seen_at = some now }))
seen-NoNew k now us = elim (Bool-cases (us.id == k)) [
  | inl hit ↦ rw hit (refl, λ h. h)
  | inr miss ↦ rw miss (refl, λ h. h)
]
