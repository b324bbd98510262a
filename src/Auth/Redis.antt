-- ===== src/Auth/Redis.antt =====
-- What services/api/src/nebula_api/auth/redis_state.py relies on of Redis: an interface of keys with
-- a time to live, the commands of its scripts over it, and how a method of `RedisAuthState` ends.
pub mod Keyed
use vpn.Prelude.{
  ==_refl, ℕ, ◌+◌, ◌-◌, ◌<◌, ◌≡◌, Bool, true, false, ◌&&◌, Option, none, some, ltb, ◌==◌,
  if◌then◌else◌, refl, sym, ap, ◌∙◌, inl, inr, Bool-cases, Option-cases, arith,
}

-- A live entry: its value, and the milliseconds it has left, `none` for an entry that stays.
abbrev pub Entry : Type 0 → Type 0
Entry V = V × Option ℕ

-- An entry when `t` milliseconds have passed.
abbrev pub aged_entry : {V : Type 0} → ℕ → V → Option ℕ → Option (Entry V)
aged_entry t v none = some (v, none)
aged_entry t v (some left) = if ltb t left then some (v, some (left - t)) else none

abbrev pub aged : {V : Type 0} → ℕ → Option (Entry V) → Option (Entry V)
aged t none = none
aged t (some (v, left)) = aged_entry t v left

-- Redis, for the keys that hold values of one kind: what it documents of reading, writing and
-- deleting a key, and of the passing of time.
pub record Redis (V : Type 0) : Type 1 where
  pub Store : Type 0
  pub get : ℕ → Store → Option (Entry V)
  pub put : ℕ → Entry V → Store → Store
  pub del : ℕ → Store → Store
  pub pass : ℕ → Store → Store
  pub get-put :
      (j k : ℕ) (e : Entry V) (s : Store) → get j (put k e s) ≡ (if k == j then some e else get j s)
  pub get-del : (j k : ℕ) (s : Store) → get j (del k s) ≡ (if k == j then none else get j s)
  pub get-pass : (k t : ℕ) (s : Store) → get k (pass t s) ≡ aged t (get k s)

-- How a method ends: with a result, with `ValueError` for a policy that is out of range, or with
-- `AuthStateUnavailable`.
pub data Reply (A : Type 0) : Type 0 where
  replied : A → Reply A
  invalid unavailable : Reply A

-- How a script's call ends: it is answered, it never reaches Redis, or it runs and its answer is
-- lost.
pub data Call : Type 0 where
  answered refused lost : Call

-- `AuthStateUnavailable` for a call that was not answered.
abbrev pub called : {A S : Type 0} → Call → A × S → S → Reply A × S
called answered (a, after) before = (replied a, after)
called refused (a, after) before = (unavailable, before)
called lost (a, after) before = (unavailable, after)

module _ {V : Type 0} (r : Redis V) where
  open r use {Store, get, put, del}

  -- `PEXPIRE`, for a key with the entry that it has.
  abbrev pub pexpire_entry : ℕ → ℕ → Option (Entry V) → Store → Store
  pexpire_entry k ms none s = s
  pexpire_entry k ms (some (v, left)) s = if ms == 0 then del k s else put k (v, some ms) s

  unfoldable pub pexpire : ℕ → ℕ → Store → Store
  pexpire k ms s = pexpire_entry k ms (get k s) s

  -- A write that keeps the time to live: `INCR` and `HSET`.
  abbrev pub write_entry : ℕ → (Option V → V) → Option (Entry V) → Store → Store
  write_entry k f none s = put k (f none, none) s
  write_entry k f (some (v, left)) s = put k (f (some v), left) s

  unfoldable pub write : ℕ → (Option V → V) → Store → Store
  write k f s = write_entry k f (get k s) s

  abbrev pub written : (Option V → V) → Option (Entry V) → Entry V
  written f none = (f none, none)
  written f (some (v, left)) = (f (some v), left)

  abbrev pub with_ttl : ℕ → Option (Entry V) → Option (Entry V)
  with_ttl ms none = none
  with_ttl ms (some (v, left)) = if ms == 0 then none else some (v, some ms)

  pub get-write :
      (j k : ℕ) (f : Option V → V) (s : Store)
      → get j (write k f s) ≡ (if k == j then some (written f (get k s)) else get j s)
  unfolding write
  get-write j k f s = elim (Option-cases (get k s)) [
    | inl e ↦ rw e (r.get-put j k (f none, none) s)
    | inr ((v, left), e) ↦ rw e (r.get-put j k (f (some v), left) s)
  ]

  same_key : (j k : ℕ) (s : Store) → get j s ≡ (if k == j then get k s else get j s)
  same_key j k s = elim (Bool-cases (k == j)) [
    | inl hit ↦ let e : k ≡ j = ground arith in rw hit (ap (λ i. get i s) (sym e))
    | inr miss ↦ rw miss refl
  ]

  pub get-pexpire :
      (j k ms : ℕ) (s : Store)
      → get j (pexpire k ms s) ≡ (if k == j then with_ttl ms (get k s) else get j s)
  unfolding pexpire
  get-pexpire j k ms s = elim (Option-cases (get k s)) [
    | inl e ↦ rw e (same_key j k s ∙ rw e refl)
    | inr ((v, left), e) ↦ elim (Bool-cases (ms == 0)) [
      | inl now ↦ rw (e, now) (r.get-del j k s)
      | inr later ↦ rw (e, later) (r.get-put j k (v, some ms) s)
    ]
  ]

  -- A key that a write made, once its time to live is set.
  pub pexpire-write :
      (window j key : ℕ) (f : Option V → V) (s : Store) {v : V} {left : Option ℕ}
      → 0 < window
      → written f (get key s) ≡ (v, left)
      → get j (pexpire key window (write key f s))
        ≡ (if key == j then some (v, some window) else get j s)
  pexpire-write window j key f s {v} {left} pos e =
      let made : get key (write key f s) ≡ some (v, left) =
        get-write key key f s ∙ rw (==_refl key, e) refl in
      let later : (window == 0) ≡ false = ground arith in
      get-pexpire j key window (write key f s)
      ∙ rw (made, later)
          (elim (Bool-cases (key == j)) [
            | inl hit ↦ rw hit refl
            | inr miss ↦ rw miss (get-write j key f s ∙ rw miss refl)
          ])
