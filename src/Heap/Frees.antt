-- ===== src/Heap/Frees.antt =====
-- kfree of an address that has been freed.
use enclave_os.Prelude.{ℕ, ◌+◌, ◌-◌, ◌%◌, ◌^◌, ◌≡◌, ap, arith, ◌⊎◌, inl, inr}
use enclave_os.Heap.{header_size, Heap, kfree}

-- The address of the header of the block.
abbrev pub header_of : ℕ → ℕ
header_of ptr = (ptr + 2 ^ 32 - header_size) % 2 ^ 32

kfree-idle : (ptr : ℕ) (h : Heap) → (h.headers (header_of ptr)).magic ≡ 0 → kfree ptr h ≡ h
unfolding kfree
kfree-idle ptr h e = ground (arith, e)

kfree-cases :
    (ptr : ℕ) (h : Heap) → (kfree ptr h ≡ h) ⊎ (((kfree ptr h).headers (header_of ptr)).magic ≡ 0)
unfolding kfree
kfree-cases ptr h = ground arith

-- A second kfree of the same address changes nothing, wherever the address points: the tree, the
-- headers and the counters are those after the first one.
pub kfree-again : (ptr : ℕ) (h : Heap) → kfree ptr (kfree ptr h) ≡ kfree ptr h
kfree-again ptr h = elim (kfree-cases ptr h) [
  | inl same ↦ ap (kfree ptr) same
  | inr gone ↦ kfree-idle ptr (kfree ptr h) gone
]
