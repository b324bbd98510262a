-- ===== src/Auth/Users/Rows.antt =====
-- Lookups in the tables of services/api/src/nebula_api/auth/user_service.py when rows are written.
use vpn.Prelude.{
  ℕ, ◌≡◌, refl, ap, ◌∙◌, Bool, true, false, ◌&&◌, not, Option, none, some, List, [], ◌∷◌, ◌++◌, map,
  inl, inr, Bool-cases, arith, contains, ◌==◌,
}
use vpn.Auth.OpaqueTokens.{OpaqueTokenDigest}
use vpn.Auth.Users.{
  UserSession, RefreshToken, is_active, is_active_token, same_digest, find_session, find_token,
  at_session, at_token,
}
use vpn.Auth.Users.Revoke.{revoked_session, revoke_token_of, revoke_session_in, revoke_active_in}
use vpn.Auth.Users.Refresh.{consumed_token, is_consumed}

-- Whether something was found, and passes a test.
abbrev pub holds : {A : Type 0} → (A → Bool) → Option A → Bool
holds p none = false
holds p (some x) = p x

-- A write of a session's row that keeps its id and a test.
abbrev pub KeepsSession : (UserSession → Bool) → (UserSession → UserSession) → Type 0
KeepsSession p f = (us : UserSession) → ((f us).id ≡ us.id) × (p us ≡ true → p (f us) ≡ true)

abbrev pub KeepsToken : (RefreshToken → Bool) → (RefreshToken → RefreshToken) → Type 0
KeepsToken p f = (t : RefreshToken) → ((f t).digest ≡ t.digest) × (p t ≡ true → p (f t) ≡ true)

pub find_session-map :
    (p : UserSession → Bool) (f : UserSession → UserSession)
    → KeepsSession p f
    → (k : ℕ) (sessions : List UserSession) → holds p (find_session k sessions) ≡ true
    → holds p (find_session k (map f sessions)) ≡ true
find_session-map p f keeps k [] h = h
find_session-map p f keeps k (us ∷ sessions) h =
    let same : ((f us).id == k) ≡ (us.id == k) = ap (λ i. i == k) (keeps us).0 in
    elim (Bool-cases (us.id == k)) [
      | inl hit ↦ rw (same ∙ hit) ((keeps us).1 (rw hit at h))
      | inr miss ↦ rw (same ∙ miss) (find_session-map p f keeps k sessions (rw miss at h))
    ]

pub find_session-append :
    (p : UserSession → Bool) (k : ℕ) (sessions more : List UserSession)
    → holds p (find_session k sessions) ≡ true
    → holds p (find_session k (sessions ++ more)) ≡ true
find_session-append p k [] more h = ground arith
find_session-append p k (us ∷ sessions) more h = elim (Bool-cases (us.id == k)) [
  | inl hit ↦ rw hit (rw hit at h)
  | inr miss ↦ rw miss (find_session-append p k sessions more (rw miss at h))
]

pub find_token-map :
    (p : RefreshToken → Bool) (f : RefreshToken → RefreshToken)
    → KeepsToken p f
    → (d : OpaqueTokenDigest) (tokens : List RefreshToken) → holds p (find_token d tokens) ≡ true
    → holds p (find_token d (map f tokens)) ≡ true
find_token-map p f keeps d [] h = h
find_token-map p f keeps d (t ∷ tokens) h =
    let same : same_digest (f t).digest d ≡ same_digest t.digest d =
      ap (λ e. same_digest e d) (keeps t).0 in
    elim (Bool-cases (same_digest t.digest d)) [
      | inl hit ↦ rw (same ∙ hit) ((keeps t).1 (rw hit at h))
      | inr miss ↦ rw (same ∙ miss) (find_token-map p f keeps d tokens (rw miss at h))
    ]

pub find_token-append :
    (p : RefreshToken → Bool) (d : OpaqueTokenDigest) (tokens more : List RefreshToken)
    → holds p (find_token d tokens) ≡ true
    → holds p (find_token d (tokens ++ more)) ≡ true
find_token-append p d [] more h = ground arith
find_token-append p d (t ∷ tokens) more h = elim (Bool-cases (same_digest t.digest d)) [
  | inl hit ↦ rw hit (rw hit at h)
  | inr miss ↦ rw miss (find_token-append p d tokens more (rw miss at h))
]

-- Whether a session is over.
abbrev pub has_ended : UserSession → Bool
has_ended us = not (is_active us.state)

-- Whether a token was used up in a session.
abbrev pub used_in : ℕ → RefreshToken → Bool
used_in sid t = is_consumed t.state && (t.session_id == sid)

pub revoked-Keeps : (k now : ℕ) → KeepsSession has_ended (at_session k (revoked_session now))
revoked-Keeps k now us = elim (Bool-cases (us.id == k)) [
  | inl hit ↦ rw hit (refl, λ h. refl)
  | inr miss ↦ rw miss (refl, λ h. h)
]

pub seen-Keeps :
    (k now : ℕ)
    → KeepsSession has_ended (at_session k (λ row. record row { last_seen_at = some now }))
seen-Keeps k now us = elim (Bool-cases (us.id == k)) [
  | inl hit ↦ rw hit (refl, λ h. h)
  | inr miss ↦ rw miss (refl, λ h. h)
]

pub revoke_session_in-Keeps :
    (now : ℕ) (ids : List ℕ) → KeepsSession has_ended (revoke_session_in now ids)
revoke_session_in-Keeps now ids us = elim (Bool-cases (contains us.id ids)) [
  | inl hit ↦ rw hit (refl, λ h. refl)
  | inr miss ↦ rw miss (refl, λ h. h)
]

pub revoke_active_in-Keeps :
    (now : ℕ) (ids : List ℕ) → KeepsSession has_ended (revoke_active_in now ids)
revoke_active_in-Keeps now ids us = elim (Bool-cases (contains us.id ids && is_active us.state)) [
  | inl hit ↦ rw hit (refl, λ h. refl)
  | inr miss ↦ rw miss (refl, λ h. h)
]

pub revoke_token_of-Keeps :
    (sid now : ℕ) (ids : List ℕ) → KeepsToken (used_in sid) (revoke_token_of now ids)
revoke_token_of-Keeps sid now ids t =
    elim (Bool-cases (contains t.session_id ids && is_active_token t.state)) [
      | inl hit ↦ rw hit (refl, λ h. ground arith)
      | inr miss ↦ rw miss (refl, λ h. h)
    ]

pub consumed-Keeps :
    (sid k now successor_id : ℕ)
    → KeepsToken (used_in sid) (at_token k (consumed_token now successor_id))
consumed-Keeps sid k now successor_id t = elim (Bool-cases (t.id == k)) [
  | inl hit ↦ rw hit (refl, λ h. ground arith)
  | inr miss ↦ rw miss (refl, λ h. h)
]

-- A session that is not there after a write was not there before.
pub not_there :
    (f : UserSession → UserSession)
    → KeepsSession has_ended f
    → (sid : ℕ) (sessions : List UserSession) → find_session sid (map f sessions) ≡ none
    → find_session sid sessions ≡ none
not_there f keeps sid [] h = refl
not_there f keeps sid (us ∷ sessions) h =
    let same : ((f us).id == sid) ≡ (us.id == sid) = ap (λ i. i == sid) (keeps us).0 in
    elim (Bool-cases (us.id == sid)) [
      | inl hit ↦ let bad : some (f us) ≡ none = rw (same ∙ hit) at h in ground arith
      | inr miss ↦ rw miss (not_there f keeps sid sessions (rw (same ∙ miss) at h))
    ]

pub find_session-none :
    (sid : ℕ) (sessions : List UserSession) (us : UserSession)
    → find_session sid (sessions ++ (us ∷ [])) ≡ none
    → (find_session sid sessions ≡ none) × ((us.id == sid) ≡ false)
find_session-none sid [] us h = elim (Bool-cases (us.id == sid)) [
  | inl hit ↦ let bad : some us ≡ none = rw hit at h in ground arith
  | inr miss ↦ (refl, miss)
]
find_session-none sid (v ∷ sessions) us h = elim (Bool-cases (v.id == sid)) [
  | inl hit ↦ let bad : some v ≡ none = rw hit at h in ground arith
  | inr miss ↦ rw miss (find_session-none sid sessions us (rw miss at h))
]
