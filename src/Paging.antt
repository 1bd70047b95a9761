-- ===== src/Paging.antt =====
-- paging.c: page directories and page tables. Physical memory is seen through the direct map
-- (PHYS_TO_VIRT) as frames of 1024 words; a page directory is known by its frame. Interrupts and the
-- TLB (invlpg, CR3) are left out.
pub mod Fault
pub mod Space
pub mod Walk
mod Tests
pub mod Sample
pub mod Fresh
pub mod Unmap
pub mod Map
pub mod Tables
use enclave_os.Prelude.{
  ℕ, zero, suc, ◌+◌, ◌-◌, ◌*◌, ◌/◌, ◌%◌, ◌^◌, Bool, true, false, not, ◌&&◌, ◌||◌, Option, none,
  some, ltb, leb, ◌==◌, if◌then◌else◌,
}
use enclave_os.Pmm.{Pmm, page_size, pmm_alloc_page, pmm_free_page}

-- The twelve low bits of an entry, from bit 0 up.
pub record Flags : Type 0 where
  pub present : Bool
  pub write : Bool
  pub user : Bool
  pub pwt : Bool
  pub pcd : Bool
  pub accessed : Bool
  pub dirty : Bool
  pub ps : Bool
  pub global : Bool
  pub cow : Bool
  pub bit_10 : Bool
  pub bit_11 : Bool

-- A word of 32 bits, as an entry of a page directory or of a page table: the bits from 12 up are the
-- number of a frame.
pub record Entry : Type 0 where
  pub frame : ℕ
  pub flags : Flags

abbrev pub no_flags : Flags
no_flags = record {
  present = false;
  write = false;
  user = false;
  pwt = false;
  pcd = false;
  accessed = false;
  dirty = false;
  ps = false;
  global = false;
  cow = false;
  bit_10 = false;
  bit_11 = false;
}

-- The word 0.
abbrev pub zero_entry : Entry
zero_entry = record { frame = 0; flags = no_flags }

-- PAGE_PRESENT | PAGE_WRITE, and the same with PAGE_USER.
abbrev pub kernel_flags : Flags
kernel_flags = record no_flags { present = true; write = true }

abbrev pub table_flags : Flags
table_flags = record kernel_flags { user = true }

-- The word of an index in a frame.
abbrev pub Memory : Type 0
Memory = ℕ → ℕ → Entry

-- The memory, the page allocator, and the frame of boot_page_directory.
pub record Vmm : Type 0 where
  pub words : Memory
  pub pmm : Pmm
  pub boot_pd : ℕ

abbrev pub write_word : Memory → ℕ → ℕ → Entry → Memory
write_word words f i v = λ g j. if g == f && j == i then v else words g j

-- k_memset of a frame to 0, and k_memcpy of a frame.
abbrev pub clear_frame : Memory → ℕ → Memory
clear_frame words f = λ g j. if g == f then zero_entry else words g j

abbrev pub copy_frame : Memory → ℕ → ℕ → Memory
copy_frame words to from = λ g j. if g == to then words from j else words g j

pub set_entry : ℕ → ℕ → Entry → Vmm → Vmm
set_entry f i v s = record s { words = write_word s.words f i v }

abbrev pub dir_index : ℕ → ℕ
dir_index virt = virt / 2 ^ 22

abbrev pub table_index : ℕ → ℕ
table_index virt = virt / 4096 % 1024

-- A page table of zeros for the entry `dir` of the directory; false if there is no page for it.
pub new_table : ℕ → ℕ → Vmm → Bool × Vmm
new_table pd dir s =
    let (new_pt_phys, pmm) = pmm_alloc_page s.pmm in
    if new_pt_phys == 0 then (false, record s { pmm = pmm }) else (
      true,
      set_entry pd dir (record { frame = new_pt_phys / page_size; flags = table_flags })
          (record s { pmm = pmm; words = clear_frame s.words (new_pt_phys / page_size) }),
    )

-- The table of the entry `dir`, made if the entry is not present.
pub ensure_table : ℕ → ℕ → Vmm → Bool × Vmm
ensure_table pd dir s = if (s.words pd dir).flags.present then (true, s) else new_table pd dir s

-- The physical address is a page's, and is given by its frame. none: the machine halts.
pub vmm_map_page : ℕ → ℕ → Flags → Vmm → Option Vmm
vmm_map_page virt frame flags s =
    let (found, s') = ensure_table s.boot_pd (dir_index virt) s in
    let pt = (s'.words s'.boot_pd (dir_index virt)).frame in
    if found
    then some (set_entry pt (table_index virt) (record { frame = frame; flags = flags }) s')
    else none

-- The result 0, the result -1, and the halt on a page of 4 MB.
pub data Mapped : Type 0 where
  mapped : Vmm → Mapped
  no_table : Vmm → Mapped
  halted : Mapped

-- The page that the entry shows goes back to the pool.
pub free_old : Entry → Vmm → Vmm
free_old pte s =
    if pte.flags.present then record s { pmm = pmm_free_page (pte.frame * page_size) s.pmm } else s

pub vmm_map_page_in_pd : ℕ → ℕ → ℕ → Flags → Vmm → Mapped
vmm_map_page_in_pd pd virt frame flags s =
    let (found, s') = ensure_table pd (dir_index virt) s in
    let pt = (s'.words pd (dir_index virt)).frame in
    let freed = free_old (s'.words pt (table_index virt)) s' in
    if (s.words pd (dir_index virt)).flags.ps
    then halted
    else if found
    then mapped (set_entry pt (table_index virt) (record { frame = frame; flags = flags }) freed)
    else no_table s'

-- The word of the page table for the address, if the directory's entry is present.
abbrev pub table_of : ℕ → ℕ → Vmm → ℕ
table_of pd virt s = (s.words pd (dir_index virt)).frame

abbrev pub entry_of : ℕ → ℕ → Vmm → Entry
entry_of pd virt s = s.words (table_of pd virt s) (table_index virt)

-- Both entries of the address are present.
abbrev pub is_mapped : ℕ → ℕ → Vmm → Bool
is_mapped pd virt s =
    (s.words pd (dir_index virt)).flags.present && (entry_of pd virt s).flags.present

pub vmm_unmap_page_in_pd : ℕ → ℕ → Vmm → Vmm
vmm_unmap_page_in_pd pd virt s =
    if is_mapped pd virt s
    then set_entry (table_of pd virt s) (table_index virt) zero_entry s
    else s

pub vmm_unmap_and_free_page_in_pd : ℕ → ℕ → Vmm → Vmm
vmm_unmap_and_free_page_in_pd pd virt s =
    let phys = (entry_of pd virt s).frame * page_size in
    if is_mapped pd virt s
    then set_entry (table_of pd virt s) (table_index virt) zero_entry
        (record s { pmm = pmm_free_page phys s.pmm })
    else s

-- `flags | (old & PAGE_COW) | (old & (PAGE_PWT | PAGE_PCD | PAGE_GLOBAL))`, where the first has lost
-- PAGE_WRITE if `old` has PAGE_COW.
pub protected : Flags → Flags → Flags
protected flags old = record flags {
  write = flags.write && not old.cow;
  cow = flags.cow || old.cow;
  pwt = flags.pwt || old.pwt;
  pcd = flags.pcd || old.pcd;
  global = flags.global || old.global;
}

pub vmm_protect_page_in_pd : ℕ → ℕ → Flags → Vmm → Vmm
vmm_protect_page_in_pd pd virt flags s =
    let old = entry_of pd virt s in
    if is_mapped pd virt s
    then set_entry (table_of pd virt s) (table_index virt)
        (record { frame = old.frame; flags = protected flags old.flags }) s
    else s
