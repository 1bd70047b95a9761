-- ===== src/Paging/Tests.antt =====
-- Runs of paging.c on a directory with one table and one page that two directories share.
use enclave_os.Prelude.{◌/◌, ◌==◌, ◌≡◌, refl, none, Changed}
use enclave_os.Paging.{
  table_flags, vmm_map_page_in_pd, vmm_unmap_and_free_page_in_pd, vmm_protect_page_in_pd,
}
use enclave_os.Paging.Walk.{shape, lookup}
use enclave_os.Paging.Map.{MapResult, Shows, vmm_map_page_in_pd-MapResult}
use enclave_os.Paging.Unmap.{
  freed, IsRestricted, vmm_unmap_and_free_page_in_pd-Shows, vmm_protect_page_in_pd-cow,
}
use enclave_os.Paging.Sample.{machine, address, machine-IsTree}

vmm_map_page_in_pd-MapResult_example :
    MapResult 1 0x2000
      (record { frame = 9; flags = table_flags })
      machine
      (vmm_map_page_in_pd 1 0x2000 9 table_flags machine)
vmm_map_page_in_pd-MapResult_example =
    vmm_map_page_in_pd-MapResult 1 0x2000 9 table_flags machine machine-IsTree

vmm_unmap_and_free_page_in_pd-Shows_example :
    Shows 1 address none machine (vmm_unmap_and_free_page_in_pd 1 address machine)
    × ((vmm_unmap_and_free_page_in_pd 1 address machine).pmm
        ≡ freed (lookup 1 address machine) machine.pmm)
vmm_unmap_and_free_page_in_pd-Shows_example =
    vmm_unmap_and_free_page_in_pd-Shows 1 address machine (shape 1 machine machine-IsTree)

vmm_protect_page_in_pd-cow_example :
    Changed
      (address / 4096 == address / 4096)
      (IsRestricted table_flags)
      (lookup 1 address machine)
      (lookup 1 address (vmm_protect_page_in_pd 1 address table_flags machine))
    × ((vmm_protect_page_in_pd 1 address table_flags machine).pmm ≡ machine.pmm)
vmm_protect_page_in_pd-cow_example =
    vmm_protect_page_in_pd-cow 1 address address table_flags machine
      (shape 1 machine machine-IsTree) refl
