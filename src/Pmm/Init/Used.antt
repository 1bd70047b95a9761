-- ===== src/Pmm/Init/Used.antt =====
-- The memory that is in use when the kernel starts, and the pages that pmm_alloc_page hands out.
use enclave_os.Prelude.{
  ℕ, ◌+◌, ◌*◌, ◌/◌, ◌%◌, ◌^◌, ◌≡◌, ◌≢◌, ◌≤◌, ◌<◌, true, Option, none, some, arith, Bool-cases, inl,
  inr, ◌⊎◌, length, leb,
}
use enclave_os.Pmm.{Pmm, page_size, pmm_max_pages, bitmap_test, pmm_alloc_page}
use enclave_os.Pmm.Regions.{IsSetup, Touches}
use enclave_os.Pmm.Alloc.{pmm_alloc_page-Allocated}
use enclave_os.Pmm.Init.{Multiboot, virt_to_phys, has_map, has_modules, pmm_init}
use enclave_os.Pmm.Init.Memory.{IsReadable, pool_pages}
use enclave_os.Pmm.Init.Safe.{
  Kept, Covers, Listed, InBootData, InHole, IsReserved, reserved, init-marks,
}
use enclave_os.Pmm.Init.Boot.{BootSymbols, reserve_structure, reserve_boot}

-- The data of the boot loader that the kernel reads: `multiboot_info_t`, the entries of the memory map,
-- the table of the modules with 16 bytes for each, and the modules.
abbrev pub InLoaderData : ℕ → Option Multiboot → ℕ → Type 0
InLoaderData max none j = ⊥
InLoaderData max (some m) j =
    Touches (virt_to_phys m.address) (virt_to_phys m.address + 110) j
    ⊎ ((has_map m ≡ true) × Touches m.mmap_addr (m.mmap_addr + m.mmap_length) j)
    ⊎ ((has_modules m ≡ true) × Touches m.mods_addr (m.mods_addr + 16 * length m.modules) j)
    ⊎ ((has_modules m ≡ true) × Listed max m.modules j)

-- The memory that is in use when the kernel starts: the first megabyte, the image from `_boot_start` to
-- `_kernel_end`, with the page tables and the stack of boot.asm in it, the boot loader's data, and the
-- device window.
abbrev pub IsInUse : ℕ → ℕ → ℕ → Option Multiboot → ℕ → Type 0
IsInUse max boot_start kernel_end info j =
    Touches 0x00000000 0x00100000 j
    ⊎ Touches boot_start (virt_to_phys kernel_end) j
    ⊎ InLoaderData max info j
    ⊎ InHole max j

-- The boot loader puts `multiboot_info_t` below 4 GB by the length of the memory map at least, and the
-- tables below 16 MB.
abbrev pub IsLoaded : Option Multiboot → Type 0
IsLoaded none = Unit
IsLoaded (some m) =
    (virt_to_phys m.address + 110 + m.mmap_length < 2 ^ 32)
    × (m.mmap_addr + m.mmap_length ≤ 0x01000000)
    × (m.mods_addr + 16 * length m.modules ≤ 0x01000000)

-- The addresses have 32 bits.
abbrev pub AreWords : BootSymbols → Type 0
AreWords b =
    (b.boot_page_directory < 2 ^ 32)
    × (b.boot_page_tables < 2 ^ 32)
    × (b.boot_page_tables_hh < 2 ^ 32)
    × (b.fb_page_table < 2 ^ 32)
    × (b.boot_stack_top < 2 ^ 32)

module _ (max : ℕ) where
  Kept-trans : (s s' s'' : Pmm) → Kept max s s' → Kept max s' s'' → Kept max s s''
  Kept-trans s s' s'' k l = record { setup = l.setup; kept = λ j m. l.kept j (k.kept j m) }

  structure-Kept :
      (symbol size : ℕ) (s : Pmm)
      → IsSetup max s
      → symbol < 2 ^ 32
      → size < 2 ^ 32
      → Kept max s (reserve_structure symbol size s)
  unfolding reserve_structure
  structure-Kept symbol size s b h k =
      (reserved max (virt_to_phys symbol) (virt_to_phys symbol + size) s b (ground (arith, h, k))).0

  pub reserve_boot-Kept :
      (b : BootSymbols) (s : Pmm)
      → AreWords b
      → IsSetup max s
      → Kept max s (reserve_boot b s) × Covers max 0x00100000 0x01000000 (reserve_boot b s)
  unfolding reserve_boot
  reserve_boot-Kept b s w h =
      let (k0, c0) = reserved max 0x00100000 0x01000000 s h (omega arith) in
      let k1 = structure-Kept b.boot_page_directory 4096 _ k0.setup w.0 (omega arith) in
      let k2 = structure-Kept b.boot_page_tables (128 * 4096) _ k1.setup w.1 (omega arith) in
      let k3 = structure-Kept b.boot_page_tables_hh (128 * 4096) _ k2.setup w.2 (omega arith) in
      let k4 = structure-Kept b.fb_page_table 4096 _ k3.setup w.3 (omega arith) in
      let (k5, _) =
        reserved max (virt_to_phys b.boot_stack) (virt_to_phys b.boot_stack_top) _ k4.setup
          (ground (arith, w)) in
      let k12 = Kept-trans _ _ _ k1 k2 in
      let k34 = Kept-trans _ _ _ k3 k4 in
      let later = Kept-trans _ _ _ k12 (Kept-trans _ _ _ k34 k5) in
      (Kept-trans _ _ _ k0 later, λ j k t. later.kept j (c0 j k t))

-- The structure of the boot loader in the longer range that pmm_init reserves for it.
info-InRange :
    (start size j : ℕ)
    → start + 110 + size < 2 ^ 32
    → Touches start (start + 110) j
    → Touches start ((start + 110 + size) % 2 ^ 32) j
info-InRange start size j h t =
    let same : (start + 110 + size) % 2 ^ 32 ≡ start + 110 + size = omega (arith, h) in
    rw same (omega arith, t.1, omega (arith, t))

-- Beyond 16 MB the boot loader's data is what pmm_init reserves.
data-InBootData :
    (max : ℕ) (info : Option Multiboot) (j : ℕ)
    → IsLoaded info
    → 4096 ≤ j
    → InLoaderData max info j
    → InBootData max info j
data-InBootData max none j l far t = t
data-InBootData max (some m) j l far (inl here) =
    inl (info-InRange (virt_to_phys m.address) m.mmap_length j l.0 here)
data-InBootData max (some m) j l far (inr (inl map)) = absurd (omega (arith, far, map, l))
data-InBootData max (some m) j l far (inr (inr (inl table))) = absurd (omega (arith, far, table, l))
data-InBootData max (some m) j l far (inr (inr (inr modules))) = inr modules

-- Beyond 16 MB the memory in use is what pmm_init reserves.
InUse-IsReserved :
    (max boot_start kernel_start kernel_end : ℕ) (info : Option Multiboot) (j : ℕ)
    → virt_to_phys kernel_start ≤ 0x01000000
    → IsLoaded info
    → 4096 ≤ j
    → IsInUse max boot_start kernel_end info j
    → IsReserved max kernel_start kernel_end info j
InUse-IsReserved max boot_start kernel_start kernel_end info j low l far u = elim u [
  | inl first ↦ absurd (omega (arith, far, first))
  | inr (inl image) ↦ inr (inl (omega (arith, far, image, low), omega (arith, far, low), image.2))
  | inr (inr (inl boot)) ↦ inr (inr (inl (data-InBootData max info j l far boot)))
  | inr (inr (inr hole)) ↦ inr (inr (inr hole))
]

module _ (boot_start kernel_start kernel_end : ℕ) (symbols : BootSymbols) (info : Option Multiboot)
    (image : kernel_end < 2 ^ 32) (low : virt_to_phys kernel_start ≤ 0x01000000)
    (words : AreWords symbols) (readable : IsReadable info) (loaded : IsLoaded info) where
  booted-marks :
      let max = pool_pages info in
      let s = reserve_boot symbols (pmm_init kernel_start kernel_end info) in
      IsSetup max s
      × ((j : ℕ)
          → j < max
          → IsInUse max boot_start kernel_end info j
          → bitmap_test j s.bitmap ≡ true)
  booted-marks =
      let max = pool_pages info in
      let s0 = pmm_init kernel_start kernel_end info in
      let (b, marked) = init-marks kernel_start kernel_end info image readable in
      let (k, covered) = reserve_boot-Kept max symbols s0 words b in
      (
        k.setup,
        λ j h u. elim (Bool-cases (leb 4096 j)) [
          | inl e ↦
              let far : 4096 ≤ j = ground (arith, e) in
              k.kept j (
                marked j h
                  (InUse-IsReserved max boot_start kernel_start kernel_end info j low loaded far u))
          | inr e ↦ elim (Bool-cases (leb 256 j)) [
            | inl e' ↦ covered j h (omega arith, ground (arith, e), ground (arith, e'))
            | inr e' ↦ k.kept j (marked j h (inl (omega arith, omega arith, ground (arith, e'))))
          ]
        ],
      )

  -- After pmm_init and the reservations of paging_init, the first page that pmm_alloc_page hands out, if
  -- it hands out one, holds nothing of the first megabyte, of the image from `_boot_start` to
  -- `_kernel_end`, of `multiboot_info_t`, of the memory map, of the table of the modules, of a module or
  -- of the device window. The boot data must be as its types allow with available memory below 2^43,
  -- `multiboot_info_t` must lie below 4 GB by the length of the map at least and the two tables below
  -- 16 MB, the addresses must have 32 bits, and the part of the image before `_kernel_start` must end
  -- below 16 MB.
  pub reserve_boot-pmm_alloc_page :
      (pmm_alloc_page (reserve_boot symbols (pmm_init kernel_start kernel_end info))).0 ≢ 0
      → let address =
          (pmm_alloc_page (reserve_boot symbols (pmm_init kernel_start kernel_end info))).0 in
        ¬ IsInUse (pool_pages info) boot_start kernel_end info (address / page_size)
  reserve_boot-pmm_alloc_page n u =
      let s = reserve_boot symbols (pmm_init kernel_start kernel_end info) in
      let (b, marked) = booted-marks in
      let limit : s.max_page ≤ pmm_max_pages = omega (arith, b.limit, b.max_page) in
      let got = pmm_alloc_page-Allocated s limit n in
      let within : (pmm_alloc_page s).0 / page_size < pool_pages info =
        omega (arith, got.page_in, b.max_page) in
      cc (marked ((pmm_alloc_page s).0 / page_size) within u, got.was_free)
