-- ===== src/Paging/Space.antt =====
-- paging.c: making, cloning and destroying an address space.
mod Tests
pub mod Single
pub mod Directory
pub mod Fork
pub mod Entries
pub mod Share
use enclave_os.Prelude.{
  ℕ, zero, suc, ◌+◌, ◌-◌, ◌*◌, ◌/◌, ◌%◌, Bool, true, false, Option, none, some, ltb, leb, ◌==◌,
  if◌then◌else◌,
}
use enclave_os.Pmm.{page_size, pmm_alloc_page, pmm_free_page, pmm_inc_ref, pmm_dec_ref}
use enclave_os.Paging.{
  Flags, Entry, Vmm, Memory, zero_entry, table_flags, write_word, clear_frame, set_entry,
}

-- The loop over the kernel's entries of the directory, from `i` on.
pub kernel_loop : ℕ → ℕ → ℕ → Vmm → Vmm
kernel_loop zero i pd s = s
kernel_loop (suc n) i pd s = kernel_loop n (i + 1) pd (set_entry pd i (s.words s.boot_pd i) s)

-- A directory of zeros with the kernel's entries, which are 768 to 1023.
pub new_directory : Vmm → Option ℕ × Vmm
new_directory s =
    let (phys_pd, pmm) = pmm_alloc_page s.pmm in
    let pd = phys_pd / page_size in
    if phys_pd == 0
    then (none, record s { pmm = pmm })
    else (some pd, kernel_loop 256 768 pd (record s { pmm = pmm; words = clear_frame s.words pd }))

pub vmm_create_address_space : Vmm → Option ℕ × Vmm
vmm_create_address_space s = new_directory s

-- A call of `op` for each of `n` pages from the frame `f` on.
pub page_loop : ℕ → (ℕ → Vmm → Vmm) → ℕ → Vmm → Vmm
page_loop zero op f s = s
page_loop (suc n) op f s = page_loop n op (f + 1) (op f s)

abbrev pub dec_page : ℕ → Vmm → Vmm
dec_page f s = record s { pmm = pmm_dec_ref (f * page_size) s.pmm }

abbrev pub inc_page : ℕ → Vmm → Vmm
inc_page f s = record s { pmm = pmm_inc_ref (f * page_size) s.pmm }

-- The references of a page table's entries, from `j` on.
pub drop_loop : ℕ → ℕ → ℕ → Vmm → Vmm
drop_loop zero j pt s = s
drop_loop (suc n) j pt s =
    drop_loop n (j + 1) pt
      (if (s.words pt j).flags.present then dec_page (s.words pt j).frame s else s)

-- What vmm_destroy_address_space does with the entry `i`.
pub drop_entry : ℕ → ℕ → Vmm → Vmm
drop_entry pd i s =
    let pde = s.words pd i in
    if pde.flags.present
    then (if pde.flags.ps
        then set_entry pd i zero_entry (page_loop 1024 dec_page (pde.frame / 1024 * 1024) s)
        else set_entry pd i zero_entry (dec_page pde.frame (drop_loop 1024 0 pde.frame s)))
    else s

pub drop_entries : ℕ → ℕ → ℕ → Vmm → Vmm
drop_entries zero i pd s = s
drop_entries (suc n) i pd s = drop_entries n (i + 1) pd (drop_entry pd i s)

-- The directory is not NULL.
pub vmm_destroy_address_space : ℕ → Vmm → Vmm
vmm_destroy_address_space pd s =
    let dropped = drop_entries 768 0 pd s in
    if pd == s.boot_pd
    then s
    else record dropped { pmm = pmm_free_page (pd * page_size) dropped.pmm }

-- `(pte & 0xFFF & ~PAGE_WRITE) | PAGE_COW`, with the frame
abbrev pub cow_entry : Entry → Entry
cow_entry pte = record { frame = pte.frame; flags = record pte.flags { write = false; cow = true } }

-- The entries of the parent's table from `j` on, which the two tables share from now on.
pub share_loop : ℕ → ℕ → ℕ → ℕ → Vmm → Vmm
share_loop zero j parent_pt child_pt s = s
share_loop (suc n) j parent_pt child_pt s =
    let pte = s.words parent_pt j in
    share_loop n (j + 1) parent_pt child_pt (
      if pte.flags.present
      then set_entry parent_pt j (cow_entry pte)
          (set_entry child_pt j (cow_entry pte) (inc_page pte.frame s))
      else s)

-- What vmm_clone_address_space does with the entry `i`; false if there is no page for the table.
pub share_entry : ℕ → ℕ → ℕ → Vmm → Bool × Vmm
share_entry parent child i s =
    let pde = s.words parent i in
    let (pt_phys, pmm) = pmm_alloc_page s.pmm in
    let pt = pt_phys / page_size in
    if pde.flags.present
    then (if pde.flags.ps
        then (true, page_loop 1024 inc_page (pde.frame / 1024 * 1024) (set_entry child i pde s))
        else if pt_phys == 0
        then (false, record s { pmm = pmm })
        else (
          true,
          set_entry child i (record { frame = pt; flags = table_flags })
              (share_loop 1024 0 pde.frame pt
                (record s { pmm = pmm; words = clear_frame s.words pt })),
        ))
    else (true, s)

pub share_entries : ℕ → ℕ → ℕ → ℕ → Vmm → Bool × Vmm
share_entries zero i parent child s = (true, s)
share_entries (suc n) i parent child s =
    let (done, s') = share_entry parent child i s in
    let rest = share_entries n (i + 1) parent child s' in if done then rest else (false, s')

-- The end of vmm_clone_address_space, on the result of the loop over the parent's entries.
pub finish_clone : ℕ → Bool × Vmm → Option ℕ × Vmm
finish_clone child (true, s) = (some child, s)
finish_clone child (false, s) = (none, vmm_destroy_address_space child s)

pub clone_into : ℕ → Option ℕ × Vmm → Option ℕ × Vmm
clone_into parent (none, s) = (none, s)
clone_into parent (some child, s) = finish_clone child (share_entries 768 0 parent child s)

-- The parent is not NULL.
pub vmm_clone_address_space : ℕ → Vmm → Option ℕ × Vmm
vmm_clone_address_space parent s = clone_into parent (new_directory s)
