-- ===== src/Pmm/Init/Safe.antt =====
-- The pages that pmm_init reserves.
use enclave_os.Prelude.{
  ℕ, ◌+◌, ◌/◌, ◌%◌, ◌^◌, ◌≡◌, ◌<◌, true, Option, none, some, arith, ltb, Bool-cases, inl, inr, List,
  [], ◌∷◌, ◌⊎◌, lt→ltb,
}
use enclave_os.Pmm.{Pmm, page_size, bitmap_test, pmm_reserve_region}
use enclave_os.Pmm.Regions.{IsSetup, Touches, pmm_reserve_region-marks}
use enclave_os.Pmm.Init.{
  Multiboot, virt_to_phys, info_size, has_modules, reserve_modules, free_memory, reserve_info,
  reserve_hole, pmm_init,
}
use enclave_os.Pmm.Init.Memory.{IsReadable, AreShort, pool_pages, free_memory-IsSetup}

module _ (max : ℕ) where
  -- The pool is set up, and the marks of `s` are kept.
  pub record Kept (s s' : Pmm) : Type 0 where
    pub setup : IsSetup max s'
    pub kept : (j : ℕ) → bitmap_test j s.bitmap ≡ true → bitmap_test j s'.bitmap ≡ true

  -- Every page of the pool that holds an address of the range is marked.
  abbrev pub Covers : ℕ → ℕ → Pmm → Type 0
  Covers start end s = (j : ℕ) → j < max → Touches start end j → bitmap_test j s.bitmap ≡ true

  pub reserved :
      (start end : ℕ) (s : Pmm)
      → IsSetup max s
      → end < 2 ^ 43
      → Kept s (pmm_reserve_region start end s) × Covers start end (pmm_reserve_region start end s)
  reserved start end s b h =
      let (b', covered, kept) = pmm_reserve_region-marks max start end s b h in
      (record { setup = b'; kept = kept }, covered)

  reserve_modules-Kept :
      (ms : List (ℕ × ℕ)) (s : Pmm) → IsSetup max s → AreShort ms → Kept s (reserve_modules ms s)
  unfolding reserve_modules
  reserve_modules-Kept [] s b h = record { setup = b; kept = λ j m. m }
  reserve_modules-Kept ((start, end) ∷ rest) s b h =
      let (first, _) = reserved start end s b (omega arith) in
      let later = reserve_modules-Kept rest (pmm_reserve_region start end s) first.setup h.1 in
      record { setup = later.setup; kept = λ j m. later.kept j (first.kept j m) }

  abbrev pub Listed : List (ℕ × ℕ) → ℕ → Type 0
  Listed [] j = ⊥
  Listed ((start, end) ∷ rest) j = Touches start end j ⊎ Listed rest j

  reserve_modules-covers :
      (ms : List (ℕ × ℕ)) (s : Pmm) (j : ℕ)
      → IsSetup max s
      → AreShort ms
      → j < max
      → Listed ms j
      → bitmap_test j (reserve_modules ms s).bitmap ≡ true
  unfolding reserve_modules
  reserve_modules-covers [] s j b h k t = absurd t
  reserve_modules-covers ((start, end) ∷ rest) s j b h k t =
      let (first, covered) = reserved start end s b (omega arith) in
      elim t [
        | inl here ↦
            (reserve_modules-Kept rest (pmm_reserve_region start end s) first.setup h.1).kept j
              (covered j k here)
        | inr later ↦
            reserve_modules-covers rest (pmm_reserve_region start end s) j first.setup h.1 k later
      ]

  -- What reserve_info reserves.
  abbrev pub InBootData : Option Multiboot → ℕ → Type 0
  InBootData none j = ⊥
  InBootData (some m) j =
      let start = virt_to_phys m.address in
      Touches start ((start + info_size + m.mmap_length) % 2 ^ 32) j
      ⊎ ((has_modules m ≡ true) × Listed m.modules j)

  reserve_info-Kept :
      (info : Option Multiboot) (s : Pmm)
      → IsSetup max s
      → IsReadable info
      → Kept s (reserve_info info s)
  unfolding reserve_info
  reserve_info-Kept none s b r = record { setup = b; kept = λ j m. m }
  reserve_info-Kept (some m) s b r =
      let (first, _) = reserved (virt_to_phys m.address) _ s b (omega arith) in
      let later = reserve_modules-Kept m.modules _ first.setup r.1 in
      elim (Bool-cases (has_modules m)) [
        | inl e ↦ rw e (record { setup = later.setup; kept = λ j k. later.kept j (first.kept j k) })
        | inr e ↦ rw e first
      ]

  reserve_info-covers :
      (info : Option Multiboot) (s : Pmm) (j : ℕ)
      → IsSetup max s
      → IsReadable info
      → j < max
      → InBootData info j
      → bitmap_test j (reserve_info info s).bitmap ≡ true
  unfolding reserve_info
  reserve_info-covers none s j b r k t = absurd t
  reserve_info-covers (some m) s j b r k t =
      let (first, covered) = reserved (virt_to_phys m.address) _ s b (omega arith) in
      let later = reserve_modules-Kept m.modules _ first.setup r.1 in
      elim (Bool-cases (has_modules m)) [
        | inl e ↦ rw e (elim t [
          | inl here ↦ later.kept j (covered j k here)
          | inr (_, there) ↦ reserve_modules-covers m.modules _ j first.setup r.1 k there
        ])
        | inr e ↦ rw e (elim t [ inl here ↦ covered j k here | inr (on, _) ↦ cc ])
      ]

  -- The window of the devices, which is reserved in a pool that reaches it.
  abbrev pub InHole : ℕ → Type 0
  InHole j = (0xE0000000 / page_size < max) × Touches 0xE0000000 0xFFFFFFFF j

  reserve_hole-Kept : (s : Pmm) → IsSetup max s → Kept s (reserve_hole s)
  unfolding reserve_hole
  reserve_hole-Kept s b = elim (Bool-cases (ltb (0xE0000000 / page_size) s.max_page)) [
    | inl e ↦ rw e (reserved 0xE0000000 0xFFFFFFFF s b (omega arith)).0
    | inr e ↦ rw e (record { setup = b; kept = λ j m. m })
  ]

  reserve_hole-covers :
      (s : Pmm) (j : ℕ)
      → IsSetup max s
      → j < max
      → InHole j
      → bitmap_test j (reserve_hole s).bitmap ≡ true
  unfolding reserve_hole
  reserve_hole-covers s j b k t =
      let past : ltb (0xE0000000 / page_size) s.max_page ≡ true = lt→ltb _ _ (omega arith) in
      rw past ((reserved 0xE0000000 0xFFFFFFFF s b (omega arith)).1 j k t.1)

-- What pmm_init reserves, in pages of a pool of `max` pages: the first megabyte, the higher half of the
-- kernel image, the boot loader's structure with the modules, and the device window.
abbrev pub IsReserved : ℕ → ℕ → ℕ → Option Multiboot → ℕ → Type 0
IsReserved max kernel_start kernel_end info j =
    Touches 0x00000000 0x00100000 j
    ⊎ Touches (virt_to_phys kernel_start) (virt_to_phys kernel_end) j
    ⊎ InBootData max info j
    ⊎ InHole max j

module _ (kernel_start kernel_end : ℕ) (info : Option Multiboot) (image : kernel_end < 2 ^ 32)
    (readable : IsReadable info) where
  pub init-marks :
      let max = pool_pages info in
      let s = pmm_init kernel_start kernel_end info in
      IsSetup max s
      × ((j : ℕ)
          → j < max
          → IsReserved max kernel_start kernel_end info j
          → bitmap_test j s.bitmap ≡ true)
  unfolding pmm_init
  init-marks =
      let max = pool_pages info in
      let b = free_memory-IsSetup info readable in
      let (k0, c0) = reserved max 0x00000000 0x00100000 (free_memory info) b (omega arith) in
      let (k1, c1) =
        reserved max (virt_to_phys kernel_start) (virt_to_phys kernel_end) _ k0.setup
          (ground (arith, image)) in
      let k2 = reserve_info-Kept max info _ k1.setup readable in
      let k3 = reserve_hole-Kept max _ k2.setup in
      (
        k3.setup,
        λ j h r. elim r [
          | inl low ↦ k3.kept j (k2.kept j (k1.kept j (c0 j h low)))
          | inr (inl kernel) ↦ k3.kept j (k2.kept j (c1 j h kernel))
          | inr (inr (inl boot)) ↦
              k3.kept j (reserve_info-covers max info _ j k1.setup readable h boot)
          | inr (inr (inr hole)) ↦ reserve_hole-covers max _ j k2.setup h hole
        ],
      )
