-- ===== src/Auth/Challenges.antt =====
-- The one-time challenges of services/api/src/nebula_api/auth/redis_state.py: those before a second
-- factor (`issue_preauth`, `consume_preauth`, `peek_preauth`) and those of WebAuthn
-- (`put_webauthn_challenge`, `take_webauthn_challenge`). A token's key is the digest of
-- auth/opaque_tokens.py, and a context's digest the derived one; both are arguments.
pub mod Once
use vpn.Prelude.{
  ℕ, ◌*◌, Bool, true, false, not, ◌&&◌, Option, none, some, leb, ◌==◌, if◌then◌else◌, is_some,
}
use vpn.Auth.Redis.{
  Redis, Entry, Reply, replied, invalid, unavailable, Call, called, answered, write, pexpire,
}

pub data Purpose : Type 0 where
  login enroll step_up webauthn : Purpose

abbrev pub purpose_code : Purpose → ℕ
purpose_code login = 0
purpose_code enroll = 1
purpose_code step_up = 2
purpose_code webauthn = 3

-- `purpose not in {"login", "enroll", "step-up"}`, denied.
abbrev pub may_issue : Purpose → Bool
may_issue login = true
may_issue enroll = true
may_issue step_up = true
may_issue webauthn = false

-- The hash of a challenge. `detail` is the time of its issue, or the bytes of a WebAuthn challenge.
pub record Challenge : Type 0 where
  pub admin_id : ℕ
  pub purpose : Purpose
  pub context_digest : ℕ
  pub detail : ℕ

-- The two tests of `_CONSUME_PREAUTH_LUA` and of `_PEEK_PREAUTH_LUA`.
abbrev pub fits : Purpose → ℕ → Challenge → Bool
fits purpose context c =
    (purpose_code c.purpose == purpose_code purpose) && (c.context_digest == context)

abbrev pub admin_of : Option Challenge → Option ℕ
admin_of none = none
admin_of (some c) = some c.admin_id

abbrev pub detail_of : Option Challenge → Option ℕ
detail_of none = none
detail_of (some c) = some c.detail

abbrev pub map_reply : {A B : Type 0} → (A → B) → Reply A → Reply B
map_reply f (replied a) = replied (f a)
map_reply f invalid = invalid
map_reply f unavailable = unavailable

module _ (r : Redis Challenge) where
  open r use {Store, get, del}

  -- `_SET_HASH_WITH_TTL_LUA`
  unfoldable pub set_once : ℕ → Challenge → ℕ → Store → Bool × Store
  set_once key c ttl_ms s =
      if is_some (get key s)
      then (false, s)
      else (true, pexpire r key ttl_ms (write r key (λ old. c) s))

  -- `created != 1` in `_set_hash_once`
  abbrev pub created : Reply Bool → Reply Unit
  created (replied true) = replied tt
  created (replied false) = unavailable
  created invalid = invalid
  created unavailable = unavailable

  -- `_set_hash_once`
  unfoldable pub set_hash_once : Call → ℕ → Challenge → ℕ → Store → Reply Unit × Store
  unfolding set_once
  set_hash_once call key c ttl_seconds s =
      let (reply, s') = called call (set_once key c (ttl_seconds * 1000) s) s in (created reply, s')

  abbrev pub consume_entry :
      ℕ → Purpose → ℕ → Option (Entry Challenge) → Store → Option Challenge × Store
  consume_entry key purpose context none s = (none, s)
  consume_entry key purpose context (some (c, ttl)) s =
      if fits purpose context c then (some c, del key s) else (none, s)

  -- `_CONSUME_PREAUTH_LUA`
  unfoldable pub consume : ℕ → Purpose → ℕ → Store → Option Challenge × Store
  consume key purpose context s = consume_entry key purpose context (get key s) s

  abbrev pub peek_entry : Purpose → ℕ → Option (Entry Challenge) → Option ℕ
  peek_entry purpose context none = none
  peek_entry purpose context (some (c, ttl)) =
      if fits purpose context c then some c.admin_id else none

  -- `_PEEK_PREAUTH_LUA`
  unfoldable pub peek : ℕ → Purpose → ℕ → Store → Option ℕ × Store
  peek key purpose context s = (peek_entry purpose context (get key s), s)

  -- `issue_preauth`, with the digest of the fresh token.
  unfoldable pub issue_preauth : Call → ℕ → ℕ → Purpose → ℕ → ℕ → ℕ → Store → Reply Unit × Store
  unfolding set_hash_once
  issue_preauth call key admin_id purpose context now_ms ttl_seconds s =
      if may_issue purpose && leb 1 ttl_seconds && leb ttl_seconds 3600
      then set_hash_once call key
          (record {
            admin_id = admin_id;
            purpose = purpose;
            context_digest = context;
            detail = now_ms;
          })
          ttl_seconds s
      else (invalid, s)

  -- `consume_preauth`, by the digest of the token, `none` for a token without one.
  unfoldable pub consume_preauth : Call → Option ℕ → Purpose → ℕ → Store → Reply (Option ℕ) × Store
  unfolding consume
  consume_preauth call none purpose context s = (replied none, s)
  consume_preauth call (some key) purpose context s =
      let (reply, s') = called call (consume key purpose context s) s in
      (map_reply admin_of reply, s')

  -- `peek_preauth`
  unfoldable pub peek_preauth : Call → Option ℕ → Purpose → ℕ → Store → Reply (Option ℕ) × Store
  unfolding peek
  peek_preauth call none purpose context s = (replied none, s)
  peek_preauth call (some key) purpose context s = called call (peek key purpose context s) s

  abbrev pub put_after : Call → ℕ → Challenge → ℕ → Reply Unit × Store → Reply Unit × Store
  put_after call key c ttl_seconds (replied u, s) = set_hash_once call key c ttl_seconds s
  put_after call key c ttl_seconds (invalid, s) = (invalid, s)
  put_after call key c ttl_seconds (unavailable, s) = (unavailable, s)

  -- `put_webauthn_challenge`: the two calls, each with its own end.
  unfoldable pub put_webauthn_challenge : Call → Call → ℕ → ℕ → ℕ → ℕ → Store → Reply Unit × Store
  put_webauthn_challenge deletes sets key admin_id challenge ttl_seconds s =
      put_after sets key
        (record {
          admin_id = admin_id;
          purpose = webauthn;
          context_digest = admin_id;
          detail = challenge;
        })
        ttl_seconds (called deletes (tt, del key s) s)

  -- `take_webauthn_challenge`
  unfoldable pub take_webauthn_challenge : Call → ℕ → ℕ → Store → Reply (Option ℕ) × Store
  unfolding consume
  take_webauthn_challenge call key admin_id s =
      let (reply, s') = called call (consume key webauthn admin_id s) s in
      (map_reply detail_of reply, s')
