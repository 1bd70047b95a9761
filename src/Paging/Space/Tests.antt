-- ===== src/Paging/Space/Tests.antt =====
-- Runs of the cloning of an address space with one page.
use enclave_os.Prelude.{◌≡◌, refl, arith, some}
use enclave_os.Pmm.{pmm_alloc_page, alloc_loop, lowest_clear, take_page}
use enclave_os.Paging.{set_entry}
use enclave_os.Paging.Space.{
  vmm_clone_address_space, clone_into, finish_clone, share_entries, share_entry, share_loop,
  kernel_loop, new_directory,
}
use enclave_os.Paging.Sample.{address, machine, machine-IsTree}
use enclave_os.Paging.Space.Fork.{IsFork, vmm_clone_address_space-IsFork}

clone_made : (vmm_clone_address_space 1 machine).0 ≡ some 4
unfolding vmm_clone_address_space clone_into finish_clone share_entries share_entry kernel_loop
    new_directory pmm_alloc_page alloc_loop lowest_clear take_page set_entry share_loop
clone_made = refl

vmm_clone_address_space-IsFork_example :
    IsFork 1 4 address 800 machine (vmm_clone_address_space 1 machine).1
vmm_clone_address_space-IsFork_example =
    vmm_clone_address_space-IsFork 1 4 address 800 machine machine-IsTree refl
      (λ d h. ground (arith, h)) clone_made (omega arith) (omega arith) (omega arith)
