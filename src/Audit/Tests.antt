-- ===== src/Audit/Tests.antt =====
-- Small exports for services/api/src/nebula_api/audit/chain.py, and the theorems about them.
use vpn.Prelude.{ℕ, ◌+◌, ◌*◌, ◌≡◌, ◌⊎◌, refl, some, List, [], ◌∷◌}
use vpn.Audit.Chain.{
  Line, blank, event, closing, ChainSummary, intact, error, breaks, chain_from, chain_lines, close,
  verify_from, verify, verify_extends,
}
use vpn.Audit.Chain.Exports.{summary_of, verify-chain_lines, verify_extends-chain_lines}
use vpn.Audit.Chain.Soundness.{events_of, Collision, verify-binds}

abbrev link : ℕ → ℕ → ℕ
link p e = 10 * p + e

-- Two events after the first hash 1, with an empty line, in the format 77.
abbrev export_lines : List Line
export_lines =
    event (some 1) (some 13) 3
    ∷ blank
    ∷ event (some 13) (some 134) 4
    ∷ closing 77 (some 2) (some 134) (some 9)
    ∷ []

abbrev summary : ChainSummary
summary = record { count = 2; head = 134; until = some 9; hashes = 13 ∷ 134 ∷ [] }

accepts : verify link 1 77 export_lines ≡ intact summary
unfolding verify verify_from close
accepts = refl

refuses : verify link 1 77 (event (some 1) (some 13) 4 ∷ []) ≡ error breaks
unfolding verify verify_from close
refuses = refl

verify-chain_lines_example :
    verify link 1 77 (chain_lines link 1 77 9 (3 ∷ 4 ∷ []))
    ≡ intact (summary_of link 1 9 (3 ∷ 4 ∷ []))
verify-chain_lines_example = verify-chain_lines link 1 77 9 (3 ∷ 4 ∷ [])

verify_extends-chain_lines_example :
    verify_extends link 1 77
      (chain_lines link 1 77 9 (3 ∷ 4 ∷ []))
      (chain_lines link 1 77 12 (3 ∷ 4 ∷ 5 ∷ []))
    ≡ intact (summary_of link 1 12 (3 ∷ 4 ∷ 5 ∷ []))
verify_extends-chain_lines_example = verify_extends-chain_lines link 1 77 9 12 (3 ∷ 4 ∷ []) (5 ∷ [])

written : verify link 1 77 (chain_lines link 1 77 9 (3 ∷ 4 ∷ [])) ≡ intact summary
unfolding verify verify_from close chain_lines chain_from
written = refl

verify-binds_example :
    (events_of export_lines ≡ events_of (chain_lines link 1 77 9 (3 ∷ 4 ∷ [])))
    ⊎ Collision link 1 77
verify-binds_example =
    verify-binds link 1 77 export_lines (chain_lines link 1 77 9 (3 ∷ 4 ∷ [])) summary summary
      accepts written refl refl
