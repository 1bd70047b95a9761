-- ===== src/Paging/Fault/Tests.antt =====
-- Runs of the write fault resolver on a directory with one table and one page that two directories share.
use enclave_os.Prelude.{◌≡◌, refl}
use enclave_os.Vma.{vma_find, find_loop}
use enclave_os.Pmm.{pmm_alloc_page, alloc_loop, lowest_clear, take_page, pmm_get_refcount}
use enclave_os.Paging.Fault.{
  resolved, vmm_handle_user_write_fault, fault_area, fault_walk, fault_present, break_cow,
}
use enclave_os.Paging.Fault.Cases.{Way}
use enclave_os.Paging.Fault.Private.{Outcome, vmm_handle_user_write_fault-Outcome}
use enclave_os.Paging.Sample.{machine, address, writer, machine-Counted}

fault_resolved : (vmm_handle_user_write_fault writer address machine).0 ≡ resolved
unfolding vmm_handle_user_write_fault fault_area fault_walk fault_present break_cow vma_find
    find_loop pmm_get_refcount pmm_alloc_page alloc_loop lowest_clear take_page
fault_resolved = refl

vmm_handle_user_write_fault-Outcome_example :
    Way writer 1 address machine (vmm_handle_user_write_fault writer address machine).1
    × Outcome 1 address machine (vmm_handle_user_write_fault writer address machine).1
vmm_handle_user_write_fault-Outcome_example =
    vmm_handle_user_write_fault-Outcome writer 1 address machine refl machine-Counted fault_resolved
