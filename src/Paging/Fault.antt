-- ===== src/Paging/Fault.antt =====
-- paging.c: the page fault handler. A task is its directory (none is NULL) and its areas.
pub mod Cases
mod Tests
pub mod Copy
pub mod Private
use enclave_os.Prelude.{
  ℕ, ◌+◌, ◌-◌, ◌*◌, ◌/◌, ◌%◌, Bool, true, false, not, ◌&&◌, ◌||◌, Option, none, some, List, ltb,
  leb, ◌==◌, if◌then◌else◌,
}
use enclave_os.Vma.{VmaNode, vma_find, kernel_space_start}
use enclave_os.Pmm.{page_size, pmm_alloc_page, pmm_free_page, pmm_dec_ref, pmm_get_refcount}
use enclave_os.Paging.{
  Flags, Entry, Vmm, Mapped, mapped, no_table, halted, no_flags, kernel_flags, clear_frame,
  copy_frame, set_entry, dir_index, table_index, table_of, entry_of, vmm_map_page,
  vmm_map_page_in_pd,
}
use enclave_os.Heap.{heap_start, heap_end}

pub record Space : Type 0 where
  pub pdir : Option ℕ
  pub vmas : List VmaNode

-- VMA_READ, VMA_WRITE and VMA_EXEC
abbrev pub can_read : ℕ → Bool
can_read flags = flags % 2 == 1

abbrev pub can_write : ℕ → Bool
can_write flags = flags / 2 % 2 == 1

abbrev pub can_exec : ℕ → Bool
can_exec flags = flags / 4 % 2 == 1

-- The results of vmm_handle_user_write_fault.
pub data Verdict : Type 0 where
  resolved not_handled err_no_vma err_perm err_oom err_badpd : Verdict

-- `(pte & 0xFFF & ~PAGE_COW) | PAGE_WRITE`, with the frame
abbrev pub writable_entry : ℕ → Flags → Entry
writable_entry frame flags = record {
  frame = frame;
  flags = record flags { cow = false; write = true };
}

-- A private copy of the page, or the page itself if nobody else has it.
pub break_cow : ℕ → ℕ → Vmm → Verdict × Vmm
break_cow pd addr s =
    let pte = entry_of pd addr s in
    let old_phys = pte.frame * page_size in
    let pt = table_of pd addr s in
    let (new_phys, pmm) = pmm_alloc_page s.pmm in
    if leb (pmm_get_refcount old_phys s.pmm) 1
    then (resolved, set_entry pt (table_index addr) (writable_entry pte.frame pte.flags) s)
    else if new_phys == 0
    then (err_oom, record s { pmm = pmm })
    else (
      resolved,
      set_entry pt (table_index addr) (writable_entry (new_phys / page_size) pte.flags) (record s {
        words = copy_frame s.words (new_phys / page_size) pte.frame;
        pmm = pmm_dec_ref old_phys pmm;
      }),
    )

-- What is done with a page of the user that is present.
pub fault_present : ℕ → ℕ → Vmm → Verdict × Vmm
unfolding break_cow
fault_present pd addr s =
    let pte = entry_of pd addr s in
    let soft : Entry = record { frame = pte.frame; flags = record pte.flags { write = true } } in
    if not pte.flags.user
    then (err_perm, s)
    else if pte.frame == 0
    then (err_badpd, s)
    else if pte.flags.cow
    then break_cow pd addr s
    else if not pte.flags.write
    then (if leb (pmm_get_refcount (pte.frame * page_size) s.pmm) 1
        then (resolved, set_entry (table_of pd addr s) (table_index addr) soft s)
        else (err_perm, s))
    else (resolved, s)

-- The walk down to the page.
pub fault_walk : ℕ → ℕ → Vmm → Verdict × Vmm
unfolding fault_present
fault_walk pd addr s =
    let pde = s.words pd (dir_index addr) in
    if not pde.flags.present
    then (not_handled, s)
    else if pde.flags.ps
    then (err_badpd, s)
    else if pde.frame == 0
    then (err_badpd, s)
    else if not (entry_of pd addr s).flags.present
    then (not_handled, s)
    else fault_present pd addr s

pub fault_area : ℕ → ℕ → VmaNode → Vmm → Verdict × Vmm
unfolding fault_walk
fault_area pd addr vma s =
    if not (can_read vma.flags)
    then (err_perm, s)
    else if not (can_write vma.flags)
    then (err_perm, s)
    else if can_write vma.flags && can_exec vma.flags
    then (err_perm, s)
    else fault_walk pd addr s

pub vmm_handle_user_write_fault : Space → ℕ → Vmm → Verdict × Vmm
unfolding fault_area
vmm_handle_user_write_fault task addr s = elim task.pdir [
  | none ↦ (err_badpd, s)
  | some pd ↦
      if leb kernel_space_start addr
      then (err_perm, s)
      else if pd == s.boot_pd
      then (err_badpd, s)
      else elim (vma_find (some task.vmas) addr) [
        | none ↦ (err_no_vma, s)
        | some vma ↦ fault_area pd addr vma s
      ]
]

-- The end of page_fault_handler: it returns to the code that faulted, it kills the task, or it halts
-- the machine.
pub data End : Type 0 where
  return : Vmm → End
  killed : Vmm → End
  stopped : End

-- The error code of the fault.
pub record Code : Type 0 where
  pub present : Bool
  pub rw : Bool
  pub us : Bool
  pub reserved : Bool

-- The demand paging of a page of the user, which the two rings do alike.
pub demand_page : ℕ → ℕ → VmaNode → Vmm → End
demand_page pd addr vma s =
    let (phys, pmm) = pmm_alloc_page s.pmm in
    let frame = phys / page_size in
    let flags = record no_flags { present = true; user = true; write = can_write vma.flags } in
    let fresh = record s { pmm = pmm; words = clear_frame s.words frame } in
    if phys == 0
    then killed (record s { pmm = pmm })
    else elim (vmm_map_page_in_pd pd (addr / 4096 * 4096) frame flags fresh) [
      | mapped s' ↦ return s'
      | no_table s' ↦ killed (record s' { pmm = pmm_free_page phys s'.pmm })
      | halted ↦ stopped
    ]

pub fault_absent : ℕ → ℕ → Bool → List VmaNode → Vmm → End
unfolding demand_page
fault_absent pd addr rw vmas s = elim (vma_find (some vmas) addr) [
  | none ↦ killed s
  | some vma ↦
      if not (can_read vma.flags)
      then killed s
      else if rw && not (can_write vma.flags)
      then killed s
      else if can_write vma.flags && can_exec vma.flags
      then killed s
      else demand_page pd addr vma s
]

-- Both rings: a write to a page that is present, a page that is not present, and the rest.
pub fault_user : Space → ℕ → ℕ → Code → Vmm → End
unfolding fault_absent
fault_user task pd addr code s =
    let (verdict, s') = vmm_handle_user_write_fault task addr s in
    if pd == s.boot_pd
    then killed s
    else if code.present && code.rw
    then elim verdict [ resolved ↦ return s' | _ ↦ killed s' ]
    else if not code.present
    then fault_absent pd addr code.rw task.vmas s
    else killed s

abbrev pub kernel_stack_pool_start : ℕ
kernel_stack_pool_start = 0xC8000000

abbrev pub kernel_stack_pool_size : ℕ
kernel_stack_pool_size = 16 * 1024 * 1024

-- The demand paging of the kernel heap.
pub heap_page : ℕ → Vmm → End
heap_page addr s =
    let (phys, pmm) = pmm_alloc_page s.pmm in
    let frame = phys / page_size in
    let fresh = record s { pmm = pmm; words = clear_frame s.words frame } in
    if phys == 0
    then stopped
    else elim (vmm_map_page (addr / 4096 * 4096) frame kernel_flags fresh) [
      | some s' ↦ return s'
      | none ↦ stopped
    ]

pub fault_ring_0 : Space → ℕ → ℕ → Code → Vmm → End
unfolding heap_page
fault_ring_0 task pd addr code s =
    if leb kernel_stack_pool_start addr
      && ltb addr (kernel_stack_pool_start + kernel_stack_pool_size)
    then killed s
    else if not code.present && not code.reserved && leb heap_start addr && ltb addr heap_end
    then heap_page addr s
    else if ltb addr kernel_space_start
    then fault_user task pd addr code s
    else stopped

-- What is fatal to the task in ring 3 is fatal to the machine in ring 0.
abbrev pub give_up : Bool → Vmm → End
give_up us s = if us then killed s else stopped

-- No task stands for a fault before the first one runs.
pub page_fault_handler : Option Space → ℕ → Code → Vmm → End
unfolding fault_ring_0 fault_user
page_fault_handler none addr code s = stopped
page_fault_handler (some task) addr code s =
    if ltb addr 0x1000
    then give_up code.us s
    else if code.reserved
    then give_up code.us s
    else elim task.pdir [
      | none ↦ give_up code.us s
      | some pd ↦
          if leb kernel_space_start addr && code.us
          then killed s
          else if not code.us
          then fault_ring_0 task pd addr code s
          else fault_user task pd addr code s
    ]
