-- ===== src/Auth/RateLimit/Buckets.antt =====
-- One call of `rate_limit` of services/api/src/nebula_api/auth/redis_state.py: which buckets it
-- counts, and what it answers.
use mathlib.Core.Path.{subst}
use vpn.Prelude.{
  ℕ, ◌+◌, ◌<◌, ◌≡◌, ◌∙◌, ap, refl, Bool, true, false, ◌&&◌, ◌||◌, Option, none, some, List, [], ◌∷◌,
  contains, inl, inr, Bool-cases, Option-cases, arith, leb, ◌==◌, ==_refl, if◌then◌else◌,
}
use vpn.Auth.Redis.{pexpire-write, Redis, Entry, write, written, get-write}
use vpn.Auth.RateLimit.{next_count, rate_key, rate_keys}

-- A counter after an attempt.
abbrev pub counted : ℕ → Option (Entry ℕ) → Entry ℕ
counted window none = (1, some window)
counted window (some (count, none)) = (count + 1, some window)
counted window (some (count, some left)) =
    (count + 1, if count == 0 then some window else some left)

abbrev pub IsDistinct : List ℕ → Type 0
IsDistinct [] = Unit
IsDistinct (k ∷ ks) = (contains k ks ≡ false) × IsDistinct ks

not_first :
    (key i : ℕ) (keys : List ℕ)
    → contains key keys ≡ false
    → contains i keys ≡ true
    → (key == i) ≡ false
not_first key i keys h c = elim (Bool-cases (key == i)) [
  | inl same ↦
      let e : key ≡ i = ground arith in
      let gone = subst (λ j. contains j keys ≡ false) e h in ground arith
  | inr other ↦ other
]

module _ (r : Redis ℕ) where
  open r use {Store, get, pass}

  rate_key_lem :
      (window j key : ℕ) (s : Store)
      → 0 < window
      → ((rate_key r window key s).0 ≡ (counted window (get key s)).0)
        × (get j (rate_key r window key s).1
            ≡ (if key == j then some (counted window (get key s)) else get j s))
  unfolding rate_key
  rate_key_lem window j key s pos =
      let w : get key (write r key next_count s) ≡ some (written r next_count (get key s)) =
        get-write r key key next_count s ∙ rw (==_refl key) refl in
      elim (Option-cases (get key s)) [
        | inl e ↦
            let e' = ap (written r next_count) e in
            rw (w, e) (refl, pexpire-write r window j key next_count s pos e')
        | inr ((count, none), e) ↦
            let e' = ap (written r next_count) e in
            let always : ((count + 1 == 1) || true) ≡ true = ground arith in
            rw (w, e, always) (refl, pexpire-write r window j key next_count s pos e')
        | inr ((count, some left), e) ↦
            let e' = ap (written r next_count) e in
            elim (Bool-cases (count == 0)) [
              | inl first ↦
                  let renews : ((count + 1 == 1) || false) ≡ true = ground arith in
                  rw (w, e, first, renews) (refl, pexpire-write r window j key next_count s pos e')
              | inr later ↦
                  let keeps : ((count + 1 == 1) || false) ≡ false = ground arith in
                  rw (w, e, later, keeps) (refl, get-write r j key next_count s ∙ rw e refl)
            ]
      ]

  -- Whether every bucket is within the limit with this attempt.
  abbrev pub all_within : ℕ → ℕ → List ℕ → Store → Bool
  all_within limit window [] s = true
  all_within limit window (key ∷ keys) s =
      leb (counted window (get key s)).0 limit && all_within limit window keys s

  all_within-cong :
      (limit window : ℕ) (keys : List ℕ) (s t : Store)
      → ((j : ℕ) → contains j keys ≡ true → get j s ≡ get j t)
      → all_within limit window keys s ≡ all_within limit window keys t
  all_within-cong limit window [] s t h = refl
  all_within-cong limit window (key ∷ keys) s t h =
      rw
        (
          h key (rw (==_refl key) refl),
          all_within-cong limit window keys s t (λ j c. h j (ground arith)),
        )
        refl

  pub rate_keys_lem :
      (limit window : ℕ) (keys : List ℕ) (j : ℕ) (s : Store)
      → 0 < window
      → IsDistinct keys
      → ((rate_keys r limit window keys s).0 ≡ all_within limit window keys s)
        × (get j (rate_keys r limit window keys s).1
            ≡ (if contains j keys then some (counted window (get j s)) else get j s))
  unfolding rate_keys
  rate_keys_lem limit window [] j s pos h = (refl, refl)
  rate_keys_lem limit window (key ∷ keys) j s pos h =
      let s' = (rate_key r window key s).1 in
      let count = (rate_key_lem window key key s pos).0 in
      let (rest, found) = rate_keys_lem limit window keys j s' pos h.1 in
      let apart : (i : ℕ) → contains i keys ≡ true → get i s' ≡ get i s = λ i c.
        let other : (key == i) ≡ false = not_first key i keys h.0 c in
        (rate_key_lem window i key s pos).1 ∙ rw other refl in
      let own = (rate_key_lem window j key s pos).1 in
      (
        rw (count, rest, all_within-cong limit window keys s' s apart) refl,
        found
            ∙ rw own (elim (Bool-cases (key == j)) [
              | inl hit ↦
                  let e : key ≡ j = ground arith in
                  let absent = subst (λ i. contains i keys ≡ false) e h.0 in
                  let same = ap (λ i. get i s) e in rw (hit, absent, same) refl
              | inr miss ↦ rw miss refl
            ]),
      )
