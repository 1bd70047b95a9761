-- ===== src/Pmm/Init.antt =====
-- pmm_init and include/multiboot.h: the pool is set up from the memory map of the boot loader. The
-- walks over the map and over the modules are loops over the lists of their entries; the bounds of
-- the kernel image are the linker's symbols.
pub mod Memory
pub mod Safe
pub mod Boot
pub mod Used
mod Tests
use enclave_os.Prelude.{
  ℕ, ◌+◌, ◌-◌, ◌*◌, ◌/◌, ◌%◌, ◌^◌, Bool, true, false, ◌&&◌, Option, none, some, List, [], ◌∷◌, ltb,
  leb, ◌==◌, if◌then◌else◌,
}
use enclave_os.Pmm.{Pmm, page_size, pmm_max_pages, min_page, pmm_free_region, pmm_reserve_region}

-- `multiboot_memory_map_t` and `e820_entry_t`
pub record Entry : Type 0 where
  pub addr : ℕ
  pub len : ℕ
  pub kind : ℕ

-- `multiboot_info_t` at its virtual address, with the entries that lie at the physical address
-- `mmap_addr` and the bounds of the modules, whose table lies at `mods_addr`.
pub record Multiboot : Type 0 where
  pub address : ℕ
  pub flags : ℕ
  pub mmap_addr : ℕ
  pub mmap_length : ℕ
  pub mods_addr : ℕ
  pub entries : List Entry
  pub modules : List (ℕ × ℕ)

abbrev pub virt_to_phys : ℕ → ℕ
virt_to_phys a = if leb 0xC0000000 a then a - 0xC0000000 else a

abbrev pub info_size : ℕ
info_size = 110

-- `flags & MULTIBOOT_INFO_MEM_MAP` and `flags & MULTIBOOT_INFO_MODS`
abbrev pub has_map : Multiboot → Bool
has_map m = m.flags / 64 % 2 == 1

abbrev pub has_modules : Multiboot → Bool
has_modules m = m.flags / 8 % 2 == 1

-- `e820_map` keeps the first 64 entries.
pub keep_entries : ℕ → List Entry → List Entry
keep_entries count [] = []
keep_entries count (e ∷ es) = if ltb count 64 then e ∷ keep_entries (count + 1) es else []

pub max_addr : ℕ → List Entry → ℕ
max_addr top [] = top
max_addr top (e ∷ es) =
    let end = (e.addr + e.len) % 2 ^ 64 in
    max_addr (if e.kind == 1 && ltb top end then end else top) es

pub free_available : List Entry → Pmm → Pmm
free_available [] s = s
free_available (e ∷ es) s =
    free_available es (if e.kind == 1 then pmm_free_region e.addr e.len s else s)

pub reserve_modules : List (ℕ × ℕ) → Pmm → Pmm
reserve_modules [] s = s
reserve_modules ((start, end) ∷ rest) s = reserve_modules rest (pmm_reserve_region start end s)

-- All pages reserved, and no counts.
pub blank : ℕ → Pmm
blank max_page = record {
  bitmap = λ k b. true;
  refcounts = λ i. 0;
  total_available_pages = 0;
  used_pages = 0;
  max_page = max_page;
  total_allocs = 0;
  total_frees = 0;
}

pub map_pages : List Entry → ℕ
map_pages entries = min_page pmm_max_pages (min_page 0xFFFFFFFF (max_addr 0 entries) / page_size)

pub free_memory : Option Multiboot → Pmm
free_memory none =
    pmm_free_region 0x00100000 (256 * 1024 * 1024) (blank (256 * 1024 * 1024 / page_size))
free_memory (some m) =
    if has_map m
    then free_available m.entries (blank (map_pages m.entries))
    else pmm_free_region 0x00100000 (256 * 1024 * 1024) (blank (256 * 1024 * 1024 / page_size))

pub reserve_info : Option Multiboot → Pmm → Pmm
reserve_info none s = s
reserve_info (some m) s =
    let start = virt_to_phys m.address in
    let end = (start + info_size + m.mmap_length) % 2 ^ 32 in
    let s' = pmm_reserve_region start end s in
    if has_modules m then reserve_modules m.modules s' else s'

pub reserve_hole : Pmm → Pmm
reserve_hole s =
    if ltb (0xE0000000 / page_size) s.max_page
    then pmm_reserve_region 0xE0000000 0xFFFFFFFF s
    else s

pub pmm_init : ℕ → ℕ → Option Multiboot → Pmm
unfolding free_memory reserve_info reserve_hole
pmm_init kernel_start kernel_end info =
    let s0 = pmm_reserve_region 0x00000000 0x00100000 (free_memory info) in
    let s1 = pmm_reserve_region (virt_to_phys kernel_start) (virt_to_phys kernel_end) s0 in
    reserve_hole (reserve_info info s1)

-- What `e820_map` holds after pmm_init, of which `e820_count` entries.
pub pmm_get_memory_map : Option Multiboot → List Entry
pmm_get_memory_map none = []
pmm_get_memory_map (some m) = if has_map m then keep_entries 0 m.entries else []
