-- ===== src/Audit/Chain/Exports.antt =====
-- What `verify` and `verify_extends` of services/api/src/nebula_api/audit/chain.py accept.
use vpn.Prelude.{
  ℕ, suc, ◌+◌, ◌-◌, ◌≡◌, ◌∙◌, ap, refl, false, none, some, List, [], ◌∷◌, ◌++◌, length,
  length-append, arith, ltb, ◌==◌, ==_refl,
}
use vpn.Audit.Chain.{
  ChainSummary, Verified, intact, get_elem?, chain_from, chain_lines, close, verify_from, verify,
  verify_extends,
}

module _ (link : ℕ → ℕ → ℕ) where
  -- The hashes of a chain of events, and the last of them.
  abbrev pub links : ℕ → List ℕ → List ℕ
  links prev [] = []
  links prev (e ∷ es) = link prev e ∷ links (link prev e) es

  abbrev pub last_link : ℕ → List ℕ → ℕ
  last_link prev [] = prev
  last_link prev (e ∷ es) = last_link (link prev e) es

  pub length-links : (prev : ℕ) (es : List ℕ) → length (links prev es) ≡ length es
  length-links prev [] = refl
  length-links prev (e ∷ es) = ap suc (length-links (link prev e) es)

  abbrev pub summary_of : ℕ → ℕ → List ℕ → ChainSummary
  summary_of genesis until es = record {
    count = length es;
    head = last_link genesis es;
    until = some until;
    hashes = links genesis es;
  }

  pub append_assoc : (xs : List ℕ) (x : ℕ) (ys : List ℕ) → (xs ++ x ∷ []) ++ ys ≡ xs ++ x ∷ ys
  append_assoc [] x ys = refl
  append_assoc (z ∷ xs) x ys = ap (λ zs. z ∷ zs) (append_assoc xs x ys)

  pub append_nil : (xs : List ℕ) → xs ++ [] ≡ xs
  append_nil [] = refl
  append_nil (z ∷ xs) = ap (λ zs. z ∷ zs) (append_nil xs)

  module _ (genesis format : ℕ) where
    verify_from-chain_from :
        (until prev n : ℕ) (hashes : List ℕ) (es : List ℕ)
        → n ≡ length hashes
        → verify_from link genesis format prev hashes none
            (chain_from link genesis format until prev n es)
          ≡ intact (record {
            count = length hashes + length es;
            head = last_link prev es;
            until = some until;
            hashes = hashes ++ links prev es;
          })
    unfolding verify_from chain_from close
    verify_from-chain_from until prev n hashes [] h =
        let sum : length hashes + 0 ≡ length hashes = omega arith in
        rw (h, ==_refl format, ==_refl (length hashes), ==_refl prev, append_nil hashes, sum) refl
    verify_from-chain_from until prev n hashes (e ∷ es) h =
        let next = hashes ++ link prev e ∷ [] in
        let more : length next ≡ length hashes + 1 = length-append hashes (link prev e ∷ []) in
        let sum : length next + length es ≡ length hashes + suc (length es) = omega arith in
        let ih = verify_from-chain_from until (link prev e) (n + 1) next es (omega arith) in
        let same : ChainSummary → Verified = intact in
        rw (==_refl prev, ==_refl (link prev e))
          (ih ∙ rw (sum, append_assoc hashes (link prev e) (links (link prev e) es)) refl)

    -- An export verifies, and its summary has the number of events, the last hash, the time that it
    -- was closed and every hash in order.
    pub verify-chain_lines :
        (until : ℕ) (es : List ℕ)
        → verify link genesis format (chain_lines link genesis format until es)
          ≡ intact (summary_of genesis until es)
    unfolding verify chain_lines
    verify-chain_lines until es =
        let sum : 0 + length es ≡ length es = omega arith in
        verify_from-chain_from until genesis 0 [] es refl ∙ rw sum refl

    get-links :
        (prev e : ℕ) (es more : List ℕ)
        → get_elem? (links prev ((e ∷ es) ++ more)) (length es) ≡ some (last_link prev (e ∷ es))
    get-links prev e [] more = refl
    get-links prev e (x ∷ es) more = get-links (link prev e) x es more

    -- An export is accepted as the extension of an earlier one when its events begin with the
    -- earlier one's, whatever times the two were closed at.
    pub verify_extends-chain_lines :
        (until later : ℕ) (es more : List ℕ)
        → verify_extends link genesis format
            (chain_lines link genesis format until es)
            (chain_lines link genesis format later (es ++ more))
          ≡ intact (summary_of genesis later (es ++ more))
    unfolding verify_extends
    verify_extends-chain_lines until later [] more =
        rw (verify-chain_lines until [], verify-chain_lines later more) refl
    verify_extends-chain_lines until later (e ∷ es) more =
        let longer : length (es ++ more) ≡ length es + length more = length-append es more in
        let shorter : ltb (suc (length (es ++ more))) (suc (length es)) ≡ false = ground arith in
        let some_events : (suc (length es) == 0) ≡ false = ground arith in
        let last : suc (length es) - 1 ≡ length es = omega arith in
        rw (verify-chain_lines until (e ∷ es), verify-chain_lines later ((e ∷ es) ++ more))
          (rw
            (
              some_events,
              shorter,
              last,
              get-links genesis e es more,
              ==_refl (last_link genesis (e ∷ es)),
            )
            refl)
