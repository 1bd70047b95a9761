-- ===== src/Vma/Area.antt =====
-- vma_find_free_area: the gap that it returns.
use enclave_os.Prelude.{ℕ, ◌+◌, ◌-◌, ◌≤◌, ◌<◌, ◌≡◌, refl, ◌≢◌, some, none, List, [], ◌∷◌, arith}
use enclave_os.Vma.{
  VmaNode, find_free_loop, vma_find_free_area, user_mmap_start, user_mmap_max_size,
}
use enclave_os.Vma.View.{covering, Above, covering-below}

find_free_loop-covering :
    (size lo cur a : ℕ) (vs : List VmaNode)
    → Above lo vs
    → lo ≤ cur
    → user_mmap_start ≤ cur
    → cur ≤ lo + (user_mmap_start - lo)
    → let r = find_free_loop size cur vs in
      r ≢ 0 → (cur ≤ r) × (r ≤ a → a < r + size → covering vs a ≡ none)
unfolding find_free_loop
find_free_loop-covering size lo cur a [] w h m k nz = (ground arith, λ p q. refl)
find_free_loop-covering size lo cur a (v ∷ vs) w h m k nz = ground (
  arith,
  covering-below v.start a vs,
  find_free_loop-covering size v.end cur a vs w.2,
  find_free_loop-covering size v.end v.end a vs w.2,
  covering-below v.end a vs w.2,
)

-- On an ordered list a nonzero answer of vma_find_free_area is at or above the start of the mmap
-- zone, and no area covers one of the `size` addresses from it on.
pub vma_find_free_area-free :
    (size a r : ℕ) (vs : List VmaNode)
    → Above 0 vs
    → vma_find_free_area (some vs) size ≡ r
    → r ≢ 0
    → r ≤ a
    → a < r + size
    → (user_mmap_start ≤ r) × (covering vs a ≡ none)
unfolding vma_find_free_area
vma_find_free_area-free size a r vs w e nz low high =
    ground (arith, find_free_loop-covering size 0 user_mmap_start a vs w)

-- The gap before an area above the zone is returned whatever its size is: with one area, at a
-- distance of at least `size` from the start of the zone, the answer is the start of the zone, also
-- where `size` exceeds the zone.
pub vma_find_free_area-unbounded :
    (size : ℕ) (v : VmaNode)
    → user_mmap_max_size < size
    → user_mmap_start + size ≤ v.start
    → v.start < v.end
    → vma_find_free_area (some (v ∷ [])) size ≡ user_mmap_start
unfolding vma_find_free_area find_free_loop
vma_find_free_area-unbounded size v h k e = ground arith
