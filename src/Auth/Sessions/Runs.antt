-- ===== src/Auth/Sessions/Runs.antt =====
-- Runs of the session methods of services/api/src/nebula_api/auth/redis_state.py, and the absolute
-- expiries of the sessions that each script leaves.
use vpn.Prelude.{
  ℕ, ◌+◌, ◌-◌, ◌≤◌, ◌≡◌, ◌∙◌, ap, refl, min, Bool, Option, none, some, List, [], ◌∷◌, inl, inr,
  Bool-cases, Option-cases, leb, ltb, ◌==◌, ==_refl, if◌then◌else◌, is_some,
}
use mathlib.Core.Path.{subst}
use vpn.Auth.Redis.{
  Redis, Entry, aged, Call, answered, refused, lost, called, write, written, get-write, get-pexpire,
}
use vpn.Auth.Sessions.{
  Session, save, seen, get_session, new_csrf, rotate_csrf, successor, rotate_session,
}
use vpn.Auth.Sessions.Methods.{
  is_duration, guarded, get_admin_session, validate_and_rotate_csrf, rotate_admin_session,
  revoke_admin_session,
}

-- What can happen to the sessions when nobody signs in: time passes, and the methods are called with
-- any tokens, and end in any way.
pub data Op : Type 0 where
  passes : ℕ → Op
  gets : Call → Option ℕ → ℕ → Op
  rotates_csrf : Call → Option ℕ → Option ℕ → ℕ → ℕ → Op
  rotates : Call → Option ℕ → ℕ → ℕ → ℕ → Bool → ℕ → Op
  revokes : Call → Option ℕ → Op

-- An entry that ends no later than a time.
abbrev pub Ends : ℕ → Option (Entry Session) → Type 0
Ends last none = Unit
Ends last (some (h, ttl)) = h.absolute_expires_ms ≤ last

module _ (r : Redis Session) where
  open r use {Store, get, del, pass}

  unfoldable pub step : Op → ℕ × Store → ℕ × Store
  step (passes t) (now_ms, s) = (now_ms + t, pass t s)
  step (gets call key idle_ms) (now_ms, s) =
      (now_ms, (get_admin_session r call key now_ms idle_ms s).1)
  step (rotates_csrf call key current replacement idle_ms) (now_ms, s) =
      (now_ms, (validate_and_rotate_csrf r call key current replacement now_ms idle_ms s).1)
  step (rotates call key new_key session_id csrf stepped_up idle_ms) (now_ms, s) = (
    now_ms,
    (rotate_admin_session r call key new_key session_id csrf stepped_up now_ms idle_ms s).1,
  )
  step (revokes call key) (now_ms, s) = (now_ms, (revoke_admin_session r call key s).1)

  unfoldable pub run : List Op → ℕ × Store → ℕ × Store
  run [] st = st
  run (op ∷ ops) st = run ops (step op st)

  -- Every session of the store ends no later than a time.
  abbrev pub AllEnd : ℕ → Store → Type 0
  AllEnd last s = (k : ℕ) → Ends last (get k s)

  pub get-save :
      (j key ttl_ms : ℕ) (h : Session) (s : Store)
      → get j (save r key h ttl_ms s)
        ≡ (if key == j then (if ttl_ms == 0 then none else some (h, some ttl_ms)) else get j s)
  unfolding save
  get-save j key ttl_ms h s =
      let entry : (written r (λ old. h) (get key s)).0 ≡ h = elim (Option-cases (get key s)) [
        | inl e ↦ rw e refl
        | inr ((old, left), e) ↦ rw e refl
      ] in
      let now : get key (write r key (λ old. h) s)
          ≡ some (h, (written r (λ old. h) (get key s)).1) =
        get-write r key key (λ old. h) s
        ∙ rw (==_refl key) (ap (λ x. some (x, (written r (λ old. h) (get key s)).1)) entry) in
      get-pexpire r j key ttl_ms (write r key (λ old. h) s)
      ∙ rw now (elim (Bool-cases (key == j)) [
        | inl hit ↦ rw hit refl
        | inr miss ↦ rw miss (get-write r j key (λ old. h) s ∙ rw miss refl)
      ])

  aged-Ends : (last t : ℕ) (o : Option (Entry Session)) → Ends last o → Ends last (aged t o)
  aged-Ends last t none h = h
  aged-Ends last t (some (x, none)) h = h
  aged-Ends last t (some (x, some left)) h = elim (Bool-cases (ltb t left)) [
    | inl live ↦ rw live h
    | inr dead ↦ rw dead tt
  ]

  pub pass-AllEnd : (last t : ℕ) (s : Store) → AllEnd last s → AllEnd last (pass t s)
  pass-AllEnd last t s h = λ k. rw (r.get-pass k t s) (aged-Ends last t (get k s) (h k))

  pub del-AllEnd : (last key : ℕ) (s : Store) → AllEnd last s → AllEnd last (del key s)
  del-AllEnd last key s h = λ k. elim (Bool-cases (key == k)) [
    | inl hit ↦ rw (r.get-del k key s, hit) tt
    | inr miss ↦ rw (r.get-del k key s, miss) (h k)
  ]

  save-AllEnd :
      (last key ttl_ms : ℕ) (x : Session) (s : Store)
      → x.absolute_expires_ms ≤ last
      → AllEnd last s
      → AllEnd last (save r key x ttl_ms s)
  save-AllEnd last key ttl_ms x s b h = λ k. elim (Bool-cases (key == k)) [
    | inl hit ↦ elim (Bool-cases (ttl_ms == 0)) [
      | inl now ↦ rw (get-save k key ttl_ms x s, hit, now) tt
      | inr later ↦ rw (get-save k key ttl_ms x s, hit, later) b
    ]
    | inr miss ↦ rw (get-save k key ttl_ms x s, miss) (h k)
  ]

  pub called-keeps :
      {A : Type 0} (P : Store → Type 0) (call : Call) (ran : A × Store) (s : Store)
      → P s
      → P ran.1
      → P (called call ran s).1
  called-keeps P answered ran s before after = after
  called-keeps P refused ran s before after = before
  called-keeps P lost ran s before after = after

  pub guarded-keeps :
      {A : Type 0} (P : Store → Type 0) (call : Call) (idle_ms : ℕ) (ran : A × Store) (s : Store)
      → P s
      → P ran.1
      → P (guarded r call idle_ms ran s).1
  guarded-keeps P call idle_ms ran s before after = elim (Bool-cases (is_duration idle_ms)) [
    | inl ok ↦ rw ok (called-keeps P call ran s before after)
    | inr bad ↦ rw bad before
  ]

  pub get_session-AllEnd :
      (last key now_ms idle_ms : ℕ) (s : Store)
      → AllEnd last s
      → AllEnd last (get_session r key now_ms idle_ms s).1
  unfolding get_session
  get_session-AllEnd last key now_ms idle_ms s h = elim (Option-cases (get key s)) [
    | inl e ↦ rw e h
    | inr ((x, ttl), e) ↦
        let b : x.absolute_expires_ms ≤ last = subst (Ends last) e (h key) in
        elim (Bool-cases (leb x.absolute_expires_ms now_ms)) [
          | inl over ↦ rw (e, over) (del-AllEnd last key s h)
          | inr live ↦
              rw (e, live)
                (save-AllEnd last key (min idle_ms (x.absolute_expires_ms - now_ms))
                  (seen r now_ms x) s b h)
        ]
  ]

  pub rotate_csrf-AllEnd :
      (last key now_ms idle_ms current replacement : ℕ) (s : Store)
      → AllEnd last s
      → AllEnd last (rotate_csrf r key now_ms idle_ms current replacement s).1
  unfolding rotate_csrf
  rotate_csrf-AllEnd last key now_ms idle_ms current replacement s h =
      elim (Option-cases (get key s)) [
        | inl e ↦ rw e h
        | inr ((x, ttl), e) ↦
            let b : x.absolute_expires_ms ≤ last = subst (Ends last) e (h key) in
            elim (Bool-cases (leb x.absolute_expires_ms now_ms)) [
              | inl over ↦ rw (e, over) (del-AllEnd last key s h)
              | inr live ↦ elim (Bool-cases (x.csrf_digest == current)) [
                | inl same ↦
                    rw (e, live, same)
                      (save-AllEnd last key (min idle_ms (x.absolute_expires_ms - now_ms))
                        (new_csrf r now_ms replacement x) s b h)
                | inr other ↦ rw (e, live, other) h
              ]
            ]
      ]

  pub rotate_session-AllEnd :
      (last key new_key now_ms idle_ms session_id csrf : ℕ) (step_up : Option ℕ) (s : Store)
      → AllEnd last s
      → AllEnd last (rotate_session r key new_key now_ms idle_ms session_id step_up csrf s).1
  unfolding rotate_session
  rotate_session-AllEnd last key new_key now_ms idle_ms session_id csrf step_up s h =
      elim (Option-cases (get key s)) [
        | inl e ↦ rw e h
        | inr ((x, ttl), e) ↦
            let b : x.absolute_expires_ms ≤ last = subst (Ends last) e (h key) in
            elim (Bool-cases (is_some (get new_key s))) [
              | inl taken ↦ rw (e, taken) h
              | inr free ↦ elim (Bool-cases (leb x.absolute_expires_ms now_ms)) [
                | inl over ↦ rw (e, free, over) (del-AllEnd last key s h)
                | inr live ↦
                    rw (e, free, live)
                      (save-AllEnd last new_key (min idle_ms (x.absolute_expires_ms - now_ms))
                        (successor r now_ms session_id step_up csrf x) (del key s) b
                        (del-AllEnd last key s h))
              ]
            ]
      ]
