-- ===== src/Pmm/Init/Tests.antt =====
-- pmm_init and the reservations of paging_init on a small machine, and the theorem on them.
use enclave_os.Prelude.{◌/◌, ◌≡◌, refl, some, [], ◌∷◌, arith}
use enclave_os.Pmm.{
  page_size, free_loop, reserve_loop, pmm_free_region, pmm_reserve_region, lowest_clear, take_page,
  alloc_loop, pmm_alloc_page,
}
use enclave_os.Pmm.Init.{
  Multiboot, max_addr, map_pages, free_available, reserve_modules, blank, free_memory, reserve_info,
  reserve_hole, pmm_init,
}
use enclave_os.Pmm.Init.Boot.{BootSymbols, reserve_structure, reserve_boot}
use enclave_os.Pmm.Init.Memory.{pool_pages}
use enclave_os.Pmm.Init.Used.{IsInUse, reserve_boot-pmm_alloc_page}

-- 8 KB from 0 on, and 16 KB from 16 MB on with a module in them.
abbrev machine : Multiboot
machine = record {
  address = 0xC0009500;
  flags = 72;
  mmap_addr = 0x9100;
  mmap_length = 48;
  mods_addr = 0x9200;
  entries =
      record { addr = 0; len = 0x2000; kind = 1 }
      ∷ record { addr = 0x1000000; len = 0x4000; kind = 1 }
      ∷ [];
  modules = (0x1000000, 0x1001345) ∷ [];
}

-- The structures of boot.asm, from 1 MB on.
abbrev symbols : BootSymbols
symbols = record {
  boot_page_directory = 0x101000;
  boot_page_tables = 0x102000;
  boot_page_tables_hh = 0x182000;
  fb_page_table = 0x202000;
  boot_stack = 0x203000;
  boot_stack_top = 0x207000;
}

-- The module takes the first two pages above 16 MB, and the next one is handed out.
allocates :
    (pmm_alloc_page (reserve_boot symbols (pmm_init 0xC0207000 0xC0400000 (some machine)))).0
    ≡ 0x1002000
unfolding pmm_init free_memory reserve_info reserve_hole free_available reserve_modules blank
    map_pages max_addr pmm_free_region pmm_reserve_region free_loop reserve_loop lowest_clear
    take_page alloc_loop pmm_alloc_page reserve_boot reserve_structure
allocates = refl

reserve_boot-pmm_alloc_page_example :
    let address =
      (pmm_alloc_page (reserve_boot symbols (pmm_init 0xC0207000 0xC0400000 (some machine)))).0 in
    ¬ IsInUse (pool_pages (some machine)) 0x100000 0xC0400000 (some machine) (address / page_size)
reserve_boot-pmm_alloc_page_example =
    reserve_boot-pmm_alloc_page 0x100000 0xC0207000 0xC0400000 symbols (some machine) (omega arith)
      (omega arith) (omega arith, omega arith, omega arith, omega arith, omega arith)
      (omega arith, omega arith) (omega arith, omega arith, omega arith)
      (rw allocates (omega arith))
