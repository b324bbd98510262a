-- ===== src/Auth/RateLimit.antt =====
-- `rate_limit` of services/api/src/nebula_api/auth/redis_state.py, with its script. A bucket is the
-- key that is derived for it; times are milliseconds.
pub mod Buckets
pub mod Windows
use vpn.Prelude.{
  ℕ, ◌+◌, ◌*◌, Bool, true, false, not, ◌&&◌, ◌||◌, Option, none, some, List, [], ◌∷◌, leb, ◌==◌,
  if◌then◌else◌, is_some,
}
use vpn.Auth.Redis.{
  Redis, Entry, Reply, replied, invalid, unavailable, Call, called, write, pexpire,
}

-- `INCR`
abbrev pub next_count : Option ℕ → ℕ
next_count none = 1
next_count (some count) = count + 1

-- `not buckets or not 1 <= limit <= 100_000 or not 1 <= window_seconds <= 86_400`
abbrev pub is_policy : List ℕ → ℕ → ℕ → Bool
is_policy [] limit window_seconds = false
is_policy (key ∷ keys) limit window_seconds =
    leb 1 limit && leb limit 100000 && leb 1 window_seconds && leb window_seconds 86400

module _ (r : Redis ℕ) where
  open r use {Store, get}

  -- The end of one turn of the script's loop, by the entry that `INCR` left: `PEXPIRE` for a count
  -- of one or a key without a time to live.
  abbrev pub renewed : ℕ → ℕ → Option (Entry ℕ) → Store → ℕ × Store
  renewed window key none s = (0, s)
  renewed window key (some (count, ttl)) s =
      (count, if (count == 1) || not (is_some ttl) then pexpire r key window s else s)

  unfoldable pub rate_key : ℕ → ℕ → Store → ℕ × Store
  rate_key window key s =
      let counted = write r key next_count s in renewed window key (get key counted) counted

  -- `_RATE_LIMIT_LUA`
  unfoldable pub rate_keys : ℕ → ℕ → List ℕ → Store → Bool × Store
  unfolding rate_key
  rate_keys limit window [] s = (true, s)
  rate_keys limit window (key ∷ keys) s =
      let (count, s') = rate_key window key s in
      let (allowed, s'') = rate_keys limit window keys s' in (leb count limit && allowed, s'')

  -- `rate_limit`
  unfoldable pub rate_limit : Call → List ℕ → ℕ → ℕ → Store → Reply Bool × Store
  unfolding rate_keys
  rate_limit call buckets limit window_seconds s =
      if is_policy buckets limit window_seconds
      then called call (rate_keys limit (window_seconds * 1000) buckets s) s
      else (invalid, s)
