-- ===== src/Syscall.antt =====
-- syscall.c: the checks of pointers from user space, and the system calls on the memory of a process.
-- A process is its areas, its page directory, and the machine. The registers with the arguments are
-- the arguments of the handlers.
pub mod Pointers
pub mod Rights
pub mod Ranges
pub mod Protect
mod Tests
use enclave_os.Prelude.{
  ℕ, zero, suc, ◌+◌, ◌-◌, ◌*◌, ◌/◌, ◌%◌, ◌^◌, Bool, true, false, not, ◌&&◌, ◌||◌, Option, none,
  some, List, [], ◌∷◌, ltb, leb, ◌==◌, if◌then◌else◌,
}
use enclave_os.Kerrno.{Status, success, enomem, einval, eperm, enosys}
use enclave_os.Vma.{
  VmaNode, Nodes, vma_intersects, vma_find_free_area, page_down, page_up, kernel_space_start,
  user_mmap_max_size,
}
use enclave_os.Vma.Edit.{vma_add, vma_unmap_range, vma_protect_range}
use enclave_os.Pmm.{pmm_get_free_pages}
use enclave_os.Paging.{Flags, Vmm, no_flags, vmm_unmap_and_free_page_in_pd, vmm_protect_page_in_pd}
use enclave_os.Paging.Fault.{can_read, can_write, can_exec}

-- The address 0 is NULL, and `user_space_end - size + 1` is computed on size_t.
pub is_user_pointer : ℕ → ℕ → Bool
is_user_pointer addr size =
    if addr == 0
    then false
    else if leb kernel_space_start addr
    then false
    else if size == 0
    then true
    else not (ltb ((0xBFFFFFFF + 2 ^ 32 - size + 1) % 2 ^ 32) addr)

-- The string before its 0, -EFAULT, and -ENAMETOOLONG with the bytes that were copied.
pub data Fetched : Type 0 where
  fetched : List ℕ → Fetched
  faults : Fetched
  too_long : List ℕ → Fetched

abbrev pub before : ℕ → Fetched → Fetched
before b (fetched s) = fetched (b ∷ s)
before b faults = faults
before b (too_long s) = too_long (b ∷ s)

-- The loop with `n` rounds left; `memory` has the bytes of the process.
pub copy_loop : (ℕ → ℕ) → ℕ → ℕ → Fetched
copy_loop memory zero src = too_long []
copy_loop memory (suc n) src =
    let rest = copy_loop memory n (src + 1) in
    if leb kernel_space_start src
    then faults
    else if memory src == 0
    then fetched []
    else before (memory src) rest

-- The buffer is not NULL, and `max_len` is its size; `max_len - 1` is computed on size_t.
pub copy_string_from_user : (ℕ → ℕ) → ℕ → ℕ → Fetched
copy_string_from_user memory user_src max_len =
    if user_src == 0
    then faults
    else if leb kernel_space_start user_src
    then faults
    else copy_loop memory ((max_len + 2 ^ 32 - 1) % 2 ^ 32) user_src

pub record Process : Type 0 where
  pub vmas : List VmaNode
  pub nodes : Nodes
  pub pdir : ℕ
  pub vmm : Vmm

-- What a handler returns: a number, or an error.
pub data Result : Type 0 where
  value : ℕ → Result
  error : Status → Result

-- VMA_READ, VMA_WRITE and VMA_EXEC by PROT_READ, PROT_WRITE and PROT_EXEC
pub vma_flags_of : ℕ → ℕ
vma_flags_of prot =
    (if can_read prot then 1 else 0)
    + (if can_write prot then 2 else 0)
    + (if can_exec prot then 4 else 0)

-- MAP_PRIVATE and MAP_ANONYMOUS
abbrev pub map_private : ℕ → Bool
map_private flags = flags / 2 % 2 == 1

abbrev pub map_anonymous : ℕ → Bool
map_anonymous flags = flags / 0x20 % 2 == 1

-- The area for the pages of the address that was found.
pub mmap_at : ℕ → ℕ → ℕ → Process → Result × Process
mmap_at map_addr aligned_len prot p =
    let added =
      vma_add (some p.vmas) map_addr ((map_addr + aligned_len) % 2 ^ 32) (vma_flags_of prot)
        p.nodes in
    let p' = record p { vmas = added.vmas; nodes = added.nodes } in
    elim added.status [ success ↦ (value map_addr, p') | _ ↦ (error enomem, p') ]

pub sys_mmap_handler : ℕ → ℕ → ℕ → ℕ → Process → Result × Process
sys_mmap_handler addr len prot flags p =
    let aligned_len = page_up len in
    let found = vma_find_free_area (some p.vmas) aligned_len in
    let map_addr = page_down addr in
    let taken = vma_intersects (some p.vmas) map_addr ((map_addr + aligned_len) % 2 ^ 32) 0 in
    if len == 0 || ltb user_mmap_max_size len
    then (error einval, p)
    else if can_write prot && can_exec prot
    then (error eperm, p)
    else if not (map_anonymous flags) || not (map_private flags)
    then (error enosys, p)
    else if addr == 0
    then (if found == 0 then (error enomem, p) else mmap_at found aligned_len prot p)
    else if taken
    then (error einval, p)
    else mmap_at map_addr aligned_len prot p

-- A call of `op` for each of `n` pages from the address `virt` on.
pub each_page : ℕ → (ℕ → Vmm → Vmm) → ℕ → Vmm → Vmm
each_page zero op virt s = s
each_page (suc n) op virt s = each_page n op (virt + 4096) (op virt s)

-- The number of rounds of the loop from `start` to `end`.
abbrev pub pages_of : ℕ → ℕ → ℕ
pages_of start end = (end - start + 0xFFF) / 4096

abbrev pub end_of : ℕ → ℕ → ℕ
end_of addr len = (page_down addr + page_up len) % 2 ^ 32

pub sys_munmap_handler : ℕ → ℕ → Process → Result × Process
sys_munmap_handler addr len p =
    let start = page_down addr in
    let end = end_of addr len in
    let edited = vma_unmap_range (some p.vmas) start end p.nodes in
    let p' = record p { vmas = edited.vmas; nodes = edited.nodes } in
    let unmapped =
      each_page (pages_of start end) (vmm_unmap_and_free_page_in_pd p.pdir) start p.vmm in
    if len == 0 then (error einval, p) else elim edited.status [
      | success ↦ (value 0, record p' { vmm = unmapped })
      | e ↦ (error e, p')
    ]

-- PAGE_PRESENT | PAGE_USER, with PAGE_WRITE if the area may be written
abbrev pub pte_flags : ℕ → Flags
pte_flags flags = record no_flags { present = true; user = true; write = can_write flags }

pub sys_mprotect_handler : ℕ → ℕ → ℕ → Process → Result × Process
sys_mprotect_handler addr len prot p =
    let start = page_down addr in
    let end = end_of addr len in
    let flags = vma_flags_of prot in
    let edited = vma_protect_range (some p.vmas) start end flags p.nodes in
    let p' = record p { vmas = edited.vmas; nodes = edited.nodes } in
    let protected =
      each_page (pages_of start end) (λ v. vmm_protect_page_in_pd p.pdir v (pte_flags flags)) start
        p.vmm in
    if len == 0
    then (error einval, p)
    else if can_write prot && can_exec prot
    then (error eperm, p)
    else if leb kernel_space_start start || ltb 0xC0000000 end
    then (error einval, p)
    else if not (vma_intersects (some p.vmas) start end 0)
    then (error enomem, p)
    else elim edited.status [
      | success ↦ (value 0, record p' { vmm = protected })
      | e ↦ (error e, p')
    ]

abbrev pub user_heap_start : ℕ
user_heap_start = 0x10000000

abbrev pub user_heap_max_size : ℕ
user_heap_max_size = 64 * 1024 * 1024

-- The first area that starts where the heap does.
pub find_heap : List VmaNode → Option VmaNode
find_heap [] = none
find_heap (v ∷ vs) = if v.start == user_heap_start then some v else find_heap vs

pub set_heap_end : ℕ → List VmaNode → List VmaNode
set_heap_end end [] = []
set_heap_end end (v ∷ vs) =
    if v.start == user_heap_start then record v { end = end } ∷ vs else v ∷ set_heap_end end vs

-- The heap has no area yet.
pub create_heap : ℕ → Process → Result × Process
create_heap new_brk p =
    let added = vma_add (some p.vmas) user_heap_start new_brk 3 p.nodes in
    let p' = record p { vmas = added.vmas; nodes = added.nodes } in
    elim added.status [ success ↦ (value 0, p') | _ ↦ (error enomem, p') ]

pub move_brk : ℕ → VmaNode → Process → Result × Process
move_brk new_brk heap p =
    let moved = record p { vmas = set_heap_end new_brk p.vmas } in
    let pages_needed = (new_brk - heap.end + 0xFFF) / 0x1000 in
    if ltb heap.end new_brk
    then (if vma_intersects (some p.vmas) heap.end new_brk heap.node
        then (error enomem, p)
        else if ltb (pmm_get_free_pages p.vmm.pmm / 2) pages_needed
        then (error enomem, p)
        else (value 0, moved))
    else if ltb new_brk heap.end
    then (value 0, moved)
    else (value 0, p)

pub sys_brk_handler : ℕ → Process → Result × Process
sys_brk_handler new_brk p =
    if new_brk == 0
    then (elim (find_heap p.vmas) as (λ _. Result × Process) [
      | none ↦ (value user_heap_start, p)
      | some heap ↦ (value heap.end, p)
    ])
    else if ltb (user_heap_start + user_heap_max_size) new_brk
    then (error enomem, p)
    else elim (find_heap p.vmas) [
      | none ↦ create_heap new_brk p
      | some heap ↦ move_brk new_brk heap p
    ]

-- A system call on the memory of the process, with its arguments.
pub data Call : Type 0 where
  mmap : ℕ → ℕ → ℕ → ℕ → Call
  munmap : ℕ → ℕ → Call
  mprotect : ℕ → ℕ → ℕ → Call
  brk : ℕ → Call

pub syscall : Call → Process → Result × Process
syscall (mmap addr len prot flags) p = sys_mmap_handler addr len prot flags p
syscall (munmap addr len) p = sys_munmap_handler addr len p
syscall (mprotect addr len prot) p = sys_mprotect_handler addr len prot p
syscall (brk new_brk) p = sys_brk_handler new_brk p

-- The process after a sequence of calls.
pub run_calls : List Call → Process → Process
run_calls [] p = p
run_calls (c ∷ cs) p = run_calls cs (syscall c p).1
