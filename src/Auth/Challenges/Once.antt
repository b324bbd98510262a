-- ===== src/Auth/Challenges/Once.antt =====
-- The use of a challenge of services/api/src/nebula_api/auth/redis_state.py: its time, its purpose and
-- its second use.
use vpn.Prelude.{
  ℕ, ◌-◌, ◌*◌, ◌<◌, ◌≡◌, ◌∙◌, ap, sym, refl, true, ◌&&◌, Option, none, some, inl, inr, Bool-cases,
  Option-cases, arith, leb, ltb, ◌==◌, ==_refl, if◌then◌else◌,
}
use vpn.Auth.Redis.{Redis, aged, Reply, replied, answered, pexpire-write, written}
use vpn.Auth.Challenges.{
  may_issue, Purpose, purpose_code, Challenge, fits, set_once, set_hash_once, consume, peek,
  issue_preauth, consume_preauth, peek_preauth,
}

module _ (r : Redis Challenge) where
  open r use {Store, get, del, pass}

  set_once_lem :
      (key j ttl_ms : ℕ) (c : Challenge) (s : Store)
      → 0 < ttl_ms
      → get key s ≡ none
      → ((set_once r key c ttl_ms s).0 ≡ true)
        × (get j (set_once r key c ttl_ms s).1
            ≡ (if key == j then some (c, some ttl_ms) else get j s))
  unfolding set_once
  set_once_lem key j ttl_ms c s pos e =
      rw e (refl, pexpire-write r ttl_ms j key (λ old. c) s pos (ap (written r (λ old. c)) e))

  -- A key without an entry.
  nothing_left :
      (key context : ℕ) (purpose : Purpose) (s : Store)
      → get key s ≡ none
      → (consume_preauth r answered (some key) purpose context s ≡ (replied none, s))
        × (peek_preauth r answered (some key) purpose context s ≡ (replied none, s))
  unfolding consume_preauth consume peek_preauth peek
  nothing_left key context purpose s e = (rw e refl, rw e refl)

  consume_preauth-found :
      (key context : ℕ) (purpose : Purpose) (s : Store) {c : Challenge} {ttl : Option ℕ}
      → get key s ≡ some (c, ttl)
      → consume_preauth r answered (some key) purpose context s ≡ (
          if fits purpose context c
          then (replied (some c.admin_id), del key s)
          else (replied none, s))
  unfolding consume_preauth consume
  consume_preauth-found key context purpose s {c} e = elim (Bool-cases (fits purpose context c)) [
    | inl fit ↦ rw (e, fit) refl
    | inr unfit ↦ rw (e, unfit) refl
  ]

  issued :
      (key admin_id context now_ms ttl_seconds : ℕ) (purpose : Purpose) (s : Store)
      → may_issue purpose && leb 1 ttl_seconds && leb ttl_seconds 3600 ≡ true
      → get key s ≡ none
      → get key (issue_preauth r answered key admin_id purpose context now_ms ttl_seconds s).1
        ≡ some (
          record {
            admin_id = admin_id;
            purpose = purpose;
            context_digest = context;
            detail = now_ms;
          },
          some (ttl_seconds * 1000),
        )
  unfolding issue_preauth set_hash_once
  issued key admin_id context now_ms ttl_seconds purpose s ok e =
      let pos : 0 < ttl_seconds * 1000 = ground arith in
      let c : Challenge = record {
        admin_id = admin_id;
        purpose = purpose;
        context_digest = context;
        detail = now_ms;
      } in
      rw ok ((set_once_lem key key (ttl_seconds * 1000) c s pos e).1 ∙ rw (==_refl key) refl)

  -- A challenge that was issued under a new key is consumed, some time later, exactly by its own
  -- purpose and context within its time to live.
  pub consume_preauth-issue_preauth :
      (key admin_id context context' now_ms ttl_seconds elapsed : ℕ) (purpose purpose' : Purpose)
      (s : Store)
      → may_issue purpose && leb 1 ttl_seconds && leb ttl_seconds 3600 ≡ true
      → get key s ≡ none
      → let s' =
          pass elapsed
            (issue_preauth r answered key admin_id purpose context now_ms ttl_seconds s).1 in
        (consume_preauth r answered (some key) purpose' context' s').0
        ≡ replied (
            if ltb elapsed (ttl_seconds * 1000)
              && ((purpose_code purpose == purpose_code purpose') && (context == context'))
            then some admin_id
            else none)
  consume_preauth-issue_preauth key admin_id context context' now_ms ttl_seconds elapsed purpose
        purpose' s ok e =
      let issue = issue_preauth r answered key admin_id purpose context now_ms ttl_seconds s in
      let found =
        r.get-pass key elapsed issue.1
        ∙ ap (aged elapsed) (issued key admin_id context now_ms ttl_seconds purpose s ok e) in
      elim (Bool-cases (ltb elapsed (ttl_seconds * 1000))) [
        | inl in_time ↦
            let c : Challenge = record {
              admin_id = admin_id;
              purpose = purpose;
              context_digest = context;
              detail = now_ms;
            } in
            let live : get key (pass elapsed issue.1)
                ≡ some (c, some (ttl_seconds * 1000 - elapsed)) =
              found ∙ rw in_time refl in
            let reply =
              ap (λ (p : Reply (Option ℕ) × Store). p.0)
                (consume_preauth-found key context' purpose' (pass elapsed issue.1) live) in
            elim (Bool-cases (fits purpose' context' c)) [
              | inl fit ↦ rw (in_time, fit) (reply ∙ rw fit refl)
              | inr unfit ↦ rw (in_time, unfit) (reply ∙ rw unfit refl)
            ]
        | inr late ↦
            let gone : get key (pass elapsed issue.1) ≡ none = found ∙ rw late refl in
            rw (late, (nothing_left key context' purpose' (pass elapsed issue.1) gone).0) refl
      ]

  -- What was consumed is gone: whatever is asked of its token later, and however much later, finds
  -- nothing.
  pub consume_preauth-again :
      (key context context' admin_id elapsed : ℕ) (purpose purpose' : Purpose) (s : Store)
      → (consume_preauth r answered (some key) purpose context s).0 ≡ replied (some admin_id)
      → let s' = pass elapsed (consume_preauth r answered (some key) purpose context s).1 in
        (consume_preauth r answered (some key) purpose' context' s' ≡ (replied none, s'))
        × (peek_preauth r answered (some key) purpose' context' s' ≡ (replied none, s'))
  consume_preauth-again key context context' admin_id elapsed purpose purpose' s h =
      elim (Option-cases (get key s)) [
        | inl e ↦
            let bad =
              sym (
                ap (λ (p : Reply (Option ℕ) × Store). p.0) (nothing_left key context purpose s e).0)
              ∙ h in
            ground arith
        | inr ((c, ttl), e) ↦
            let reply = consume_preauth-found key context purpose s e in
            elim (Bool-cases (fits purpose context c)) [
              | inl fit ↦
                  let consumed : consume_preauth r answered (some key) purpose context s
                      ≡ (replied (some c.admin_id), del key s) =
                    reply ∙ rw fit refl in
                  let deleted : get key (del key s) ≡ none =
                    r.get-del key key s ∙ rw (==_refl key) refl in
                  let gone : get key (pass elapsed (del key s)) ≡ none =
                    r.get-pass key elapsed (del key s) ∙ ap (aged elapsed) deleted in
                  rw consumed (nothing_left key context' purpose' (pass elapsed (del key s)) gone)
              | inr unfit ↦
                  let refused : consume_preauth r answered (some key) purpose context s
                      ≡ (replied none, s) =
                    reply ∙ rw unfit refl in
                  let bad = sym (ap (λ (p : Reply (Option ℕ) × Store). p.0) refused) ∙ h in
                  ground arith
            ]
      ]
