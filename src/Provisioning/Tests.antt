-- ===== src/Provisioning/Tests.antt =====
-- A small pool for services/api/src/nebula_api/provisioning/allocator.py.
use vpn.Prelude.{◌≡◌, refl, some, [], ◌∷◌}
use vpn.Provisioning.Allocator.{
  with_gateway, first_free, allocate_next_address, IsAllocated, allocate_next_address-IsAllocated,
}

allocates_third : allocate_next_address (1 ∷ 2 ∷ 3 ∷ 4 ∷ []) (some 1) (2 ∷ []) ≡ some 3
unfolding allocate_next_address first_free
allocates_third = refl

allocate_next_address-IsAllocated_example :
    IsAllocated
      (1 ∷ 2 ∷ 3 ∷ 4 ∷ [])
      (with_gateway (some 1) (2 ∷ []))
      (allocate_next_address (1 ∷ 2 ∷ 3 ∷ 4 ∷ []) (some 1) (2 ∷ []))
allocate_next_address-IsAllocated_example =
    allocate_next_address-IsAllocated (1 ∷ 2 ∷ 3 ∷ 4 ∷ []) (some 1) (2 ∷ [])
