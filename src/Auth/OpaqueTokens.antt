-- ===== src/Auth/OpaqueTokens.antt =====
-- services/api/src/nebula_api/auth/opaque_tokens.py. A token that matches the pattern is its version,
-- as its digits are read, and its 43 characters, as a number that tells different texts apart; any
-- other text is malformed. `base64` is a parameter: the characters that encode a random value, and
-- whether characters decode to 32 bytes. HMAC-SHA256 is a parameter, with the key, the namespace and
-- the token; namespaces are numbers, as the code's own all pass its pattern.
use vpn.Prelude.{ℕ, Bool, false, ◌&&◌, Option, none, some, leb, ◌==◌, if◌then◌else◌}

pub data Token : Type 0 where
  malformed : ℕ → Token
  token : (digits characters : ℕ) → Token

pub record OpaqueTokenDigest : Type 0 where
  pub key_version : ℕ
  pub value : ℕ

-- `_valid_key_version`
abbrev pub valid_key_version : ℕ → Bool
valid_key_version version = leb 1 version && leb version 2147483647

-- `issue_opaque_token`, with the random source's value and its encoding; `none` is `ValueError`.
unfoldable pub issue_opaque_token : (ℕ → ℕ) → ℕ → ℕ → Option Token
issue_opaque_token encode key_version random_value =
    if valid_key_version key_version then some (token key_version (encode random_value)) else none

-- `_parse_token`, with whether the characters decode to 32 bytes.
abbrev pub parse_token : (ℕ → Bool) → Token → Option ℕ
parse_token decodes (malformed text) = none
parse_token decodes (token version characters) =
    if valid_key_version version && decodes characters then some version else none

-- A key of the ring: its value and its length in bytes.
pub record Key : Type 0 where
  pub value : ℕ
  pub size : ℕ

-- `_key_for_version`
abbrev pub long_key : Option Key → Option ℕ
long_key none = none
long_key (some key) = if leb 32 key.size then some key.value else none

module _ (hmac : ℕ → ℕ → Token → ℕ) (decodes : ℕ → Bool) (key_ring : ℕ → Option Key) where
  abbrev pub digest_with : ℕ → Token → ℕ → Option ℕ → Option OpaqueTokenDigest
  digest_with namespace t version none = none
  digest_with namespace t version (some key) =
      some (record { key_version = version; value = hmac key namespace t })

  abbrev pub digest_parsed : ℕ → Token → Option ℕ → Option OpaqueTokenDigest
  digest_parsed namespace t none = none
  digest_parsed namespace t (some version) =
      digest_with namespace t version (long_key (key_ring version))

  -- `digest_opaque_token`; `none` is `ValueError`.
  unfoldable pub digest_opaque_token : ℕ → Token → Option OpaqueTokenDigest
  digest_opaque_token namespace t = digest_parsed namespace t (parse_token decodes t)

  abbrev pub is_digest : OpaqueTokenDigest → Option OpaqueTokenDigest → Bool
  is_digest expected none = false
  is_digest expected (some candidate) =
      (candidate.key_version == expected.key_version) && (candidate.value == expected.value)

  -- `verify_opaque_token`
  unfoldable pub verify_opaque_token : ℕ → Token → OpaqueTokenDigest → Bool
  unfolding digest_opaque_token
  verify_opaque_token namespace t expected = is_digest expected (digest_opaque_token namespace t)
