-- ===== src/Provisioning/Allocator.antt =====
-- `allocate_next_address` of services/api/src/nebula_api/provisioning/allocator.py. The pool's
-- hosts, which the library ipaddress lists, are an argument; addresses are numbers.
use mathlib.Core.Path.{subst}
use vpn.Prelude.{
  ℕ, ◌≡◌, true, false, Option, none, some, List, [], ◌∷◌, contains, arith, ◌==◌, if◌then◌else◌, inl,
  inr, Bool-cases,
}

-- `excluded.add(gateway_address)`
abbrev pub with_gateway : Option ℕ → List ℕ → List ℕ
with_gateway none excluded = excluded
with_gateway (some gateway) excluded = gateway ∷ excluded

-- `for candidate in pool.hosts()`
unfoldable pub first_free : List ℕ → List ℕ → Option ℕ
first_free [] excluded = none
first_free (candidate ∷ hosts) excluded =
    if contains candidate excluded then first_free hosts excluded else some candidate

-- `allocate_next_address`
unfoldable pub allocate_next_address : List ℕ → Option ℕ → List ℕ → Option ℕ
unfolding first_free
allocate_next_address hosts gateway excluded = first_free hosts (with_gateway gateway excluded)

-- What an allocation is: a host that is free, or, when there is none, a pool without a free host.
abbrev pub IsAllocated : List ℕ → List ℕ → Option ℕ → Type 0
IsAllocated hosts taken none = (k : ℕ) → contains k hosts ≡ true → contains k taken ≡ true
IsAllocated hosts taken (some address) =
    (contains address hosts ≡ true) × (contains address taken ≡ false)

more_hosts :
    (candidate : ℕ) (hosts taken : List ℕ) (found : Option ℕ)
    → contains candidate taken ≡ true
    → IsAllocated hosts taken found
    → IsAllocated (candidate ∷ hosts) taken found
more_hosts candidate hosts taken none h rest = λ k c. elim (Bool-cases (candidate == k)) [
  | inl same ↦ let e : candidate ≡ k = ground arith in subst (λ j. contains j taken ≡ true) e h
  | inr other ↦ rest k (ground arith)
]
more_hosts candidate hosts taken (some address) h rest = (ground arith, rest.1)

first_free-IsAllocated : (hosts taken : List ℕ) → IsAllocated hosts taken (first_free hosts taken)
unfolding first_free
first_free-IsAllocated [] taken = λ k c. ground arith
first_free-IsAllocated (candidate ∷ hosts) taken = elim (Bool-cases (contains candidate taken)) [
  | inl out ↦ rw out (
      more_hosts candidate hosts taken (first_free hosts taken) out
        (first_free-IsAllocated hosts taken))
  | inr free ↦ rw free (ground arith, free)
]

-- The address that is allocated is a host of the pool, is not excluded and is not the gateway; there
-- is none only when every host is excluded or the gateway.
pub allocate_next_address-IsAllocated :
    (hosts : List ℕ) (gateway : Option ℕ) (excluded : List ℕ)
    → IsAllocated hosts
        (with_gateway gateway excluded)
        (allocate_next_address hosts gateway excluded)
unfolding allocate_next_address
allocate_next_address-IsAllocated hosts gateway excluded =
    first_free-IsAllocated hosts (with_gateway gateway excluded)
