-- ===== src/Audit/Chain.antt =====
-- The hash chain of services/api/src/nebula_api/audit/chain.py. SHA-256 over the previous hash and
-- the event's JSON is the parameter `link`; hashes, events and texts are numbers, and the first
-- hash and the format's name are `genesis` and `format`.
pub mod Exports
pub mod Soundness
use vpn.Prelude.{
  ℕ, zero, suc, ◌+◌, ◌-◌, Bool, true, false, not, ◌&&◌, ◌||◌, Option, none, some, List, [], ◌∷◌,
  ◌++◌, length, ltb, ◌==◌, if◌then◌else◌,
}

-- A line by what `json.loads` makes of it: the closing line has a `format`, every other object is
-- an event, its `prev` and `hash` taken out.
pub data Line : Type 0 where
  blank malformed scalar : Line
  event : Option ℕ → Option ℕ → ℕ → Line
  closing : ℕ → Option ℕ → Option ℕ → Option ℕ → Line

pub record Trailer : Type 0 where
  pub format : ℕ
  pub count : Option ℕ
  pub head : Option ℕ
  pub until : Option ℕ

pub record ChainSummary : Type 0 where
  pub count : ℕ
  pub head : ℕ
  pub until : Option ℕ
  pub hashes : List ℕ

-- The messages of `AuditChainError`.
pub data AuditChainError : Type 0 where
  after_closing not_json not_an_object breaks cut_short mismatch not_extended : AuditChainError

pub data Verified : Type 0 where
  intact : ChainSummary → Verified
  error : AuditChainError → Verified

-- Comparison with a value that the object may lack.
abbrev pub is_value : Option ℕ → ℕ → Bool
is_value none k = false
is_value (some n) k = n == k

-- `new.hashes[n]`; out of range is `IndexError`, here `none`.
abbrev pub get_elem? : List ℕ → ℕ → Option ℕ
get_elem? [] n = none
get_elem? (h ∷ hs) zero = some h
get_elem? (h ∷ hs) (suc n) = get_elem? hs n

-- What `verify_extends` compares.
abbrev pub extends : ChainSummary → ChainSummary → Verified
extends old new =
    if not (old.count == 0)
      && (ltb new.count old.count || not (is_value (get_elem? new.hashes (old.count - 1)) old.head))
    then error not_extended
    else intact new

abbrev pub extends_verified : Verified → Verified → Verified
extends_verified (error e) new = error e
extends_verified (intact old) (error e) = error e
extends_verified (intact old) (intact new) = extends old new

module _ (link : ℕ → ℕ → ℕ) (genesis format : ℕ) where
  -- The loop of `chain_lines` with its last line.
  unfoldable pub chain_from : ℕ → ℕ → ℕ → List ℕ → List Line
  chain_from until prev count [] = closing format (some count) (some prev) (some until) ∷ []
  chain_from until prev count (e ∷ es) =
      event (some prev) (some (link prev e)) e ∷ chain_from until (link prev e) (count + 1) es

  -- `chain_lines`
  unfoldable pub chain_lines : ℕ → List ℕ → List Line
  unfolding chain_from
  chain_lines until entries = chain_from until genesis 0 entries

  -- What `verify` checks after its loop.
  unfoldable pub close : ℕ → List ℕ → Option Trailer → Verified
  close prev hashes none = error cut_short
  close prev hashes (some t) =
      if t.format == format
      then (if is_value t.count (length hashes) && is_value t.head prev
          then intact
              (record { count = length hashes; head = prev; until = t.until; hashes = hashes })
          else error mismatch)
      else error cut_short

  -- The loop of `verify`.
  unfoldable pub verify_from : ℕ → List ℕ → Option Trailer → List Line → Verified
  unfolding close
  verify_from prev hashes t [] = close prev hashes t
  verify_from prev hashes t (blank ∷ lines) = verify_from prev hashes t lines
  verify_from prev hashes (some t) (malformed ∷ lines) = error after_closing
  verify_from prev hashes (some t) (scalar ∷ lines) = error after_closing
  verify_from prev hashes (some t) (event p h e ∷ lines) = error after_closing
  verify_from prev hashes (some t) (closing f c h u ∷ lines) = error after_closing
  verify_from prev hashes none (malformed ∷ lines) = error not_json
  verify_from prev hashes none (scalar ∷ lines) = error not_an_object
  verify_from prev hashes none (closing f c h u ∷ lines) =
      verify_from prev hashes (some (record { format = f; count = c; head = h; until = u })) lines
  verify_from prev hashes none (event p h e ∷ lines) =
      let rest = verify_from (link prev e) (hashes ++ link prev e ∷ []) none lines in
      if is_value p prev && is_value h (link prev e) then rest else error breaks

  -- `verify`
  unfoldable pub verify : List Line → Verified
  unfolding verify_from
  verify lines = verify_from genesis [] none lines

  -- `verify_extends`
  unfoldable pub verify_extends : List Line → List Line → Verified
  unfolding verify
  verify_extends older newer = extends_verified (verify older) (verify newer)
