-- ===== src/Vma/Tests.antt =====
-- Runs of the lookups of vma.c on a list of three areas, and the theorems on it.
use enclave_os.Prelude.{ℕ, ◌≤◌, ◌<◌, ◌≡◌, refl, ◌↔◌, false, none, some, arith}
use enclave_os.Vma.{
  vma_find, vma_intersects, vma_find_free_area, user_mmap_start, page_down, find_free_loop,
}
use enclave_os.Vma.View.{covering, without}
use enclave_os.Vma.Lookup.{vma_find-covering, vma_intersects-clear}
use enclave_os.Vma.Area.{vma_find_free_area-free}
use enclave_os.Vma.Sample.{vmas, vmas-Above}

second_gap : vma_find_free_area (some vmas) 0x5000 ≡ 0x40002000
unfolding vma_find_free_area find_free_loop
second_gap = refl

vma_find-covering_example : vma_find (some vmas) 0x10FFF ≡ covering vmas (page_down 0x10FFF)
vma_find-covering_example = vma_find-covering vmas 0x10FFF vmas-Above

vma_intersects-clear_example :
    (vma_intersects (some vmas) 0x17000 0x19000 2 ≡ false)
    ↔ ((a : ℕ) → 0x17000 ≤ a → a < 0x19000 → covering (without 2 vmas) a ≡ none)
vma_intersects-clear_example = vma_intersects-clear vmas 0x17000 0x19000 2 vmas-Above (omega arith)

vma_find_free_area-free_example : (user_mmap_start ≤ 0x40002000) × (covering vmas 0x40006FFF ≡ none)
vma_find_free_area-free_example =
    vma_find_free_area-free 0x5000 0x40006FFF 0x40002000 vmas vmas-Above second_gap (omega arith)
      (omega arith) (omega arith)
