-- ===== src/Syscall/Tests.antt =====
-- Runs of the system calls on the memory of a process with one area and one page.
use enclave_os.Prelude.{
  Changed, ◌⊎◌, not, ◌&&◌, ◌||◌, leb, ltb, ◌==◌, ℕ, ◌+◌, ◌≡◌, ◌≢◌, ◌<◌, ◌↔◌, refl, if◌then◌else◌,
  none, List, [], ◌∷◌, arith, ◌==◌,
}
use enclave_os.Vma.{vma_intersects, intersects_loop, kernel_space_start, page_down}
use enclave_os.Vma.View.{in_range, flags_at}
use enclave_os.Vma.Edit.{walk, unmap_round, protect_round, vma_unmap_range, vma_protect_range}
use enclave_os.Paging.Walk.{shape, lookup}
use enclave_os.Paging.Sample.{machine, machine-IsTree, address}
use enclave_os.Syscall.{
  Process, Call, mmap, munmap, mprotect, brk, value, is_user_pointer, fetched,
  copy_string_from_user, end_of, sys_munmap_handler, sys_mprotect_handler, run_calls,
}
use enclave_os.Syscall.Pointers.{IsString, is_user_pointer-exact, copy_string_from_user-IsString}
use enclave_os.Syscall.Rights.{AllSafe, run_calls-AllSafe}
use enclave_os.Syscall.Ranges.{sys_munmap_handler-unmaps}
use enclave_os.Syscall.Protect.{HasProt, IsReentered, sys_mprotect_handler-protects}

abbrev process : Process
process = record {
  vmas = record { node = 0xD0000008; start = 0x1400000; end = 0x1800000; flags = 3 } ∷ [];
  nodes = record { fresh = 0xD0001008 ∷ 0xD0002008 ∷ []; freed = [] };
  pdir = 1;
  vmm = machine;
}

unmapped : (sys_munmap_handler address 0x2000 process).0 ≡ value 0
unfolding sys_munmap_handler vma_unmap_range walk unmap_round
unmapped = refl

protected : (sys_mprotect_handler address 0x1000 1 process).0 ≡ value 0
unfolding sys_mprotect_handler vma_protect_range walk protect_round vma_intersects intersects_loop
protected = refl

sys_munmap_handler-unmaps_example :
    (flags_at (sys_munmap_handler address 0x2000 process).1.vmas address ≡ (
      if in_range (page_down address) (end_of address 0x2000) address
      then none
      else flags_at process.vmas address))
    × (lookup 1 address (sys_munmap_handler address 0x2000 process).1.vmm ≡ (
        if in_range (page_down address) (end_of address 0x2000) address
        then none
        else lookup 1 address machine))
sys_munmap_handler-unmaps_example =
    sys_munmap_handler-unmaps address 0x2000 process address (shape 1 machine machine-IsTree)
      unmapped

sys_mprotect_handler-protects_example :
    Changed
      (in_range (page_down address) (end_of address 0x1000) address)
      (HasProt 1)
      (flags_at process.vmas address)
      (flags_at (sys_mprotect_handler address 0x1000 1 process).1.vmas address)
    × Changed
        (in_range (page_down address) (end_of address 0x1000) address)
        (IsReentered 1)
        (lookup 1 address machine)
        (lookup 1 address (sys_mprotect_handler address 0x1000 1 process).1.vmm)
sys_mprotect_handler-protects_example =
    sys_mprotect_handler-protects address 0x1000 1 process address (shape 1 machine machine-IsTree)
      protected

abbrev calls : List Call
calls =
    mmap 0 0x3000 7 0x22
    ∷ mmap 0 0x3000 3 0x22
    ∷ mprotect address 0x1000 5
    ∷ brk 0x10002000
    ∷ munmap address 1
    ∷ []

run_calls-AllSafe_example : AllSafe (run_calls calls process)
run_calls-AllSafe_example = run_calls-AllSafe calls process refl

is_user_pointer-exact_example : is_user_pointer 0xBFFFFF00 0x100 ≡ (
    not (0xBFFFFF00 == 0)
    && ltb 0xBFFFFF00 kernel_space_start
    && (leb (0xBFFFFF00 + 0x100) kernel_space_start || ltb kernel_space_start 0x100))
is_user_pointer-exact_example = is_user_pointer-exact 0xBFFFFF00 0x100 (omega arith)

-- "hi" at 0x1000.
abbrev memory : ℕ → ℕ
memory a = if a == 0x1000 then 104 else if a == 0x1001 then 105 else 0

abbrev greeting : ℕ
greeting = 0x1000

abbrev buffer_size : ℕ
buffer_size = 256

copy_string_from_user-IsString_example :
    (copy_string_from_user memory greeting buffer_size ≡ fetched (104 ∷ 105 ∷ [])) ↔ (
      (greeting ≢ 0)
      × IsString memory greeting (104 ∷ 105 ∷ [])
      × ((buffer_size ≡ 0) ⊎ (3 < buffer_size)))
copy_string_from_user-IsString_example =
    copy_string_from_user-IsString memory greeting buffer_size (104 ∷ 105 ∷ []) (omega arith)
