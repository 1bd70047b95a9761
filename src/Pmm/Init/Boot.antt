-- ===== src/Pmm/Init/Boot.antt =====
-- paging.c: what paging_init reserves before it maps anything.
use enclave_os.Prelude.{ℕ, ◌+◌, ◌*◌}
use enclave_os.Pmm.{Pmm, pmm_reserve_region}
use enclave_os.Pmm.Init.{virt_to_phys}

-- The symbols of boot.asm for the structures in `.boot.bss`.
pub record BootSymbols : Type 0 where
  pub boot_page_directory : ℕ
  pub boot_page_tables : ℕ
  pub boot_page_tables_hh : ℕ
  pub fb_page_table : ℕ
  pub boot_stack : ℕ
  pub boot_stack_top : ℕ

-- A structure of `size` bytes.
unfoldable pub reserve_structure : ℕ → ℕ → Pmm → Pmm
reserve_structure symbol size s =
    pmm_reserve_region (virt_to_phys symbol) (virt_to_phys symbol + size) s

-- The first lines of paging_init, up to the direct map.
unfoldable pub reserve_boot : BootSymbols → Pmm → Pmm
reserve_boot b s =
    let s0 = pmm_reserve_region 0x00100000 0x01000000 s in
    let s1 = reserve_structure b.boot_page_directory 4096 s0 in
    let s2 = reserve_structure b.boot_page_tables (128 * 4096) s1 in
    let s3 = reserve_structure b.boot_page_tables_hh (128 * 4096) s2 in
    let s4 = reserve_structure b.fb_page_table 4096 s3 in
    pmm_reserve_region (virt_to_phys b.boot_stack) (virt_to_phys b.boot_stack_top) s4
