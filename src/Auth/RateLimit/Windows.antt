-- ===== src/Auth/RateLimit/Windows.antt =====
-- How many attempts `rate_limit` of services/api/src/nebula_api/auth/redis_state.py lets through.
use vpn.Prelude.{
  ℕ, suc, ◌+◌, ◌-◌, ◌*◌, ◌<◌, ◌≡◌, ◌∙◌, ap, refl, min, Bool, true, false, ◌&&◌, none, some, List,
  [], ◌∷◌, length, arith, leb, ltb, ◌==◌, ==_refl, if◌then◌else◌,
}
use vpn.Auth.Redis.{Redis, aged, Reply, replied, invalid, unavailable, answered}
use vpn.Auth.RateLimit.{is_policy, rate_limit}
use vpn.Auth.RateLimit.Buckets.{counted, rate_keys_lem}

abbrev pub total : List ℕ → ℕ
total [] = 0
total (pause ∷ pauses) = pause + total pauses

module _ (r : Redis ℕ) where
  open r use {Store, get, pass}

  -- The attempts of one bucket, each after a pause, and how many of them are let through.
  abbrev pub granted : Reply Bool → ℕ
  granted (replied true) = 1
  granted (replied false) = 0
  granted invalid = 0
  granted unavailable = 0

  unfoldable pub attempts : ℕ → ℕ → ℕ → List ℕ → Store → ℕ × Store
  attempts limit window_seconds key [] s = (0, s)
  attempts limit window_seconds key (pause ∷ pauses) s =
      let (reply, s') = rate_limit r answered (key ∷ []) limit window_seconds (pass pause s) in
      let (n, s'') = attempts limit window_seconds key pauses s' in (granted reply + n, s'')

  granted_all : (b : Bool) → granted (replied (b && true)) ≡ (if b then 1 else 0)
  granted_all true = refl
  granted_all false = refl

  one_attempt :
      (limit window_seconds key : ℕ) (s : Store)
      → is_policy (key ∷ []) limit window_seconds ≡ true
      → (granted (rate_limit r answered (key ∷ []) limit window_seconds s).0
          ≡ (if leb (counted (window_seconds * 1000) (get key s)).0 limit then 1 else 0))
        × (get key (rate_limit r answered (key ∷ []) limit window_seconds s).1
            ≡ some (counted (window_seconds * 1000) (get key s)))
  unfolding rate_limit
  one_attempt limit window_seconds key s ok =
      let pos : 0 < window_seconds * 1000 = ground arith in
      let (all, found) =
        rate_keys_lem r limit (window_seconds * 1000) (key ∷ []) key s pos (refl, tt) in
      rw (ok, all)
        (
          granted_all (leb (counted (window_seconds * 1000) (get key s)).0 limit),
          found ∙ rw (==_refl key) refl,
        )

  later_attempts :
      (limit window_seconds key : ℕ) (pauses : List ℕ) (n left : ℕ) (s : Store)
      → is_policy (key ∷ []) limit window_seconds ≡ true
      → get key s ≡ some (suc n, some left)
      → total pauses < left
      → ((attempts limit window_seconds key pauses s).0 ≡ min (limit - suc n) (length pauses))
        × (get key (attempts limit window_seconds key pauses s).1
            ≡ some (suc n + length pauses, some (left - total pauses)))
  unfolding attempts
  later_attempts limit window_seconds key [] n left s ok e h =
      let more : suc n + 0 ≡ suc n = omega arith in
      let less : left - 0 ≡ left = omega arith in (omega arith, rw (more, less) e)
  later_attempts limit window_seconds key (pause ∷ pauses) n left s ok e h =
      let within : ltb pause left ≡ true = ground arith in
      let waited : get key (pass pause s) ≡ some (suc n, some (left - pause)) =
        r.get-pass key pause s ∙ ap (aged pause) e ∙ rw within refl in
      let (grant, found) = one_attempt limit window_seconds key (pass pause s) ok in
      let s' = (rate_limit r answered (key ∷ []) limit window_seconds (pass pause s)).1 in
      let next : suc n + 1 ≡ suc (suc n) = omega arith in
      let some_before : (suc n == 0) ≡ false = ground arith in
      let found' : get key s' ≡ some (suc (suc n), some (left - pause)) =
        found ∙ rw (waited, next, some_before) refl in
      let (rest, last) =
        later_attempts limit window_seconds key pauses (suc n) (left - pause) s' ok found'
          (omega arith) in
      let counts : suc (suc n) + length pauses ≡ suc n + suc (length pauses) = omega arith in
      let times : left - pause - total pauses ≡ left - (pause + total pauses) = omega arith in
      let grant' =
        grant ∙ ap (λ o. if leb (counted (window_seconds * 1000) o).0 limit then 1 else 0) waited in
      (ground (arith, grant', rest), last ∙ rw (counts, times) refl)

  -- Attempts on one bucket, the first on an unused key and all others less than the window after it:
  -- as many are let through as the limit says, no matter how many are made and when; and the key is
  -- unused again when a window has passed after the last one.
  pub rate_limit-window :
      (limit window_seconds key : ℕ) (first : ℕ) (pauses : List ℕ) (s : Store)
      → is_policy (key ∷ []) limit window_seconds ≡ true
      → get key s ≡ none
      → total pauses < window_seconds * 1000
      → let (n, s') = attempts limit window_seconds key (first ∷ pauses) s in
        (n ≡ min limit (suc (length pauses))) × (get key (pass (window_seconds * 1000) s') ≡ none)
  unfolding attempts
  rate_limit-window limit window_seconds key first pauses s ok e h =
      let unused : get key (pass first s) ≡ none = r.get-pass key first s ∙ ap (aged first) e in
      let (grant, found) = one_attempt limit window_seconds key (pass first s) ok in
      let s' = (rate_limit r answered (key ∷ []) limit window_seconds (pass first s)).1 in
      let found' : get key s' ≡ some (1, some (window_seconds * 1000)) = found ∙ rw unused refl in
      let (rest, last) =
        later_attempts limit window_seconds key pauses 0 (window_seconds * 1000) s' ok found' h in
      let grant' =
        grant ∙ ap (λ o. if leb (counted (window_seconds * 1000) o).0 limit then 1 else 0) unused in
      let over : ltb (window_seconds * 1000) (window_seconds * 1000 - total pauses) ≡ false =
        ground arith in
      (
        ground (arith, grant', rest),
        r.get-pass key (window_seconds * 1000) (attempts limit window_seconds key pauses s').1
            ∙ ap (aged (window_seconds * 1000)) last
            ∙ rw over refl,
      )
