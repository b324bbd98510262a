-- ===== src/Auth/Sessions/Idle.antt =====
-- The idle time of an administrator's session of services/api/src/nebula_api/auth/redis_state.py.
use vpn.Prelude.{
  ℕ, ◌+◌, ◌-◌, ◌<◌, ◌≡◌, ◌∙◌, ap, refl, min, true, false, ◌&&◌, Option, none, some, inl, inr,
  Bool-cases, arith, leb, ltb, ◌==◌, ==_refl, if◌then◌else◌,
}
use vpn.Auth.Redis.{Redis, aged, replied, answered}
use vpn.Auth.Sessions.{Session, session_record, seen, save, get_session}
use vpn.Auth.Sessions.Methods.{is_duration, get_admin_session}
use vpn.Auth.Sessions.Runs.{get-save}

module _ (r : Redis Session) where
  open r use {Store, get, del, pass}

  pub get_admin_session-live :
      (key now_ms idle_ms : ℕ) (x : Session) (ttl : Option ℕ) (s : Store)
      → is_duration idle_ms ≡ true
      → get key s ≡ some (x, ttl)
      → now_ms < x.absolute_expires_ms
      → get_admin_session r answered (some key) now_ms idle_ms s ≡ (
        replied (some (session_record (seen r now_ms x))),
        save r key (seen r now_ms x) (min idle_ms (x.absolute_expires_ms - now_ms)) s,
      )
  unfolding get_admin_session get_session
  get_admin_session-live key now_ms idle_ms x ttl s ok e lt =
      let live : leb x.absolute_expires_ms now_ms ≡ false = ground arith in rw (ok, e, live) refl

  pub get_admin_session-none :
      (key now_ms idle_ms : ℕ) (s : Store)
      → is_duration idle_ms ≡ true
      → get key s ≡ none
      → (get_admin_session r answered (some key) now_ms idle_ms s).0 ≡ replied none
  unfolding get_admin_session get_session
  get_admin_session-none key now_ms idle_ms s ok e = rw (ok, e) refl

  -- A session that was just found is found again, seen at the later time and otherwise the same,
  -- exactly when less than the idle time has passed and its absolute expiry is not reached.
  pub get_admin_session-idle :
      (key now_ms idle_ms elapsed : ℕ) (x : Session) (ttl : Option ℕ) (s : Store)
      → is_duration idle_ms ≡ true
      → get key s ≡ some (x, ttl)
      → now_ms < x.absolute_expires_ms
      → let s' = pass elapsed (get_admin_session r answered (some key) now_ms idle_ms s).1 in
        (get_admin_session r answered (some key) (now_ms + elapsed) idle_ms s').0
        ≡ replied (
            if ltb elapsed idle_ms && ltb (now_ms + elapsed) x.absolute_expires_ms
            then some (session_record (record x { last_seen_ms = now_ms + elapsed }))
            else none)
  get_admin_session-idle key now_ms idle_ms elapsed x ttl s ok e lt =
      let left_ms = min idle_ms (x.absolute_expires_ms - now_ms) in
      let some_left : (left_ms == 0) ≡ false = ground arith in
      let s1 = save r key (seen r now_ms x) left_ms s in
      let saved : get key s1 ≡ some (seen r now_ms x, some left_ms) =
        get-save r key key left_ms (seen r now_ms x) s ∙ rw (==_refl key, some_left) refl in
      let waited : get key (pass elapsed s1) ≡ (
          if ltb elapsed left_ms then some (seen r now_ms x, some (left_ms - elapsed)) else none) =
        r.get-pass key elapsed s1 ∙ ap (aged elapsed) saved in
      rw (get_admin_session-live key now_ms idle_ms x ttl s ok e lt)
        (elim (Bool-cases (ltb elapsed left_ms)) [
          | inl in_time ↦
              let both : ltb elapsed idle_ms && ltb (now_ms + elapsed) x.absolute_expires_ms
                  ≡ true =
                ground arith in
              let found : get key (pass elapsed s1)
                  ≡ some (seen r now_ms x, some (left_ms - elapsed)) =
                waited ∙ rw in_time refl in
              rw both (
                ap (λ p. p.0)
                  (get_admin_session-live key (now_ms + elapsed) idle_ms (seen r now_ms x)
                    (some (left_ms - elapsed)) (pass elapsed s1) ok found (ground arith)))
          | inr late ↦
              let either : ltb elapsed idle_ms && ltb (now_ms + elapsed) x.absolute_expires_ms
                  ≡ false =
                ground arith in
              let gone : get key (pass elapsed s1) ≡ none = waited ∙ rw late refl in
              rw either
                (get_admin_session-none key (now_ms + elapsed) idle_ms (pass elapsed s1) ok gone)
        ])
