-- ===== src/Paging/Fault/Cases.antt =====
-- paging.c: the ways through the write fault resolver that end in its success.
use enclave_os.Prelude.{
  ℕ, ◌*◌, ◌/◌, ◌≡◌, ◌≢◌, ◌≤◌, ◌<◌, sym, ap, ◌∙◌, true, false, arith, Option-cases, inl, inr, ◌⊎◌,
  none, some,
}
use enclave_os.Vma.{VmaNode, vma_find, kernel_space_start}
use enclave_os.Pmm.{page_size, pmm_alloc_page, pmm_get_refcount, pmm_dec_ref}
use enclave_os.Paging.{
  Vmm, set_entry, dir_index, table_index, table_of, entry_of, copy_frame, is_mapped,
}
use enclave_os.Paging.Fault.{
  Space, resolved, can_read, can_write, can_exec, writable_entry, break_cow, fault_present,
  fault_walk, fault_area, vmm_handle_user_write_fault,
}

-- The area lets its pages be written, and they are not code.
pub record MayWrite (vma : VmaNode) : Type 0 where
  pub reads : can_read vma.flags ≡ true
  pub writes : can_write vma.flags ≡ true
  pub not_code : can_exec vma.flags ≡ false

area_resolved :
    (pd addr : ℕ) (vma : VmaNode) (s : Vmm)
    → (fault_area pd addr vma s).0 ≡ resolved
    → MayWrite vma × (fault_area pd addr vma s ≡ fault_walk pd addr s)
unfolding fault_area
area_resolved pd addr vma s h = ground (arith, h)

walk_resolved :
    (pd addr : ℕ) (s : Vmm)
    → (fault_walk pd addr s).0 ≡ resolved
    → (is_mapped pd addr s ≡ true)
      × ((s.words pd (dir_index addr)).flags.ps ≡ false)
      × (fault_walk pd addr s ≡ fault_present pd addr s)
unfolding fault_walk
walk_resolved pd addr s h = ground (arith, h)

pub present_resolved :
    (pd addr : ℕ) (s : Vmm)
    → (fault_present pd addr s).0 ≡ resolved
    → ((entry_of pd addr s).flags.user ≡ true)
      × (((entry_of pd addr s).flags.cow ≡ true) × (fault_present pd addr s ≡ break_cow pd addr s)
          ⊎ ((entry_of pd addr s).flags.cow ≡ false)
            × ((entry_of pd addr s).flags.write ≡ true)
            × (fault_present pd addr s ≡ (resolved, s))
          ⊎ ((entry_of pd addr s).flags.cow ≡ false)
            × (pmm_get_refcount ((entry_of pd addr s).frame * page_size) s.pmm ≤ 1)
            × (fault_present pd addr s ≡ (
              resolved,
              set_entry
                  (table_of pd addr s)
                  (table_index addr)
                  (record {
                    frame = (entry_of pd addr s).frame;
                    flags = record (entry_of pd addr s).flags { write = true };
                  })
                  s,
            )))
unfolding fault_present
present_resolved pd addr s h = ground (arith, h)

pub cow_resolved :
    (pd addr : ℕ) (s : Vmm)
    → (break_cow pd addr s).0 ≡ resolved
    → (pmm_get_refcount ((entry_of pd addr s).frame * page_size) s.pmm ≤ 1)
        × (break_cow pd addr s ≡ (
          resolved,
          set_entry
              (table_of pd addr s)
              (table_index addr)
              (writable_entry (entry_of pd addr s).frame (entry_of pd addr s).flags)
              s,
        ))
      ⊎ (2 ≤ pmm_get_refcount ((entry_of pd addr s).frame * page_size) s.pmm)
        × ((pmm_alloc_page s.pmm).0 ≢ 0)
        × (break_cow pd addr s ≡ (
          resolved,
          set_entry
              (table_of pd addr s)
              (table_index addr)
              (writable_entry ((pmm_alloc_page s.pmm).0 / page_size) (entry_of pd addr s).flags)
              (record s {
                words =
                    copy_frame s.words
                      ((pmm_alloc_page s.pmm).0 / page_size)
                      (entry_of pd addr s).frame;
                pmm = pmm_dec_ref ((entry_of pd addr s).frame * page_size) (pmm_alloc_page s.pmm).1;
              }),
        ))
unfolding break_cow
cow_resolved pd addr s h = ground (arith, h)

no_area :
    (task : Space) (pd addr : ℕ) (s : Vmm)
    → task.pdir ≡ some pd
    → vma_find (some task.vmas) addr ≡ none
    → (vmm_handle_user_write_fault task addr s).0 ≢ resolved
unfolding vmm_handle_user_write_fault
no_area task pd addr s p q h = ground (arith, p, q, h)

task_resolved :
    (task : Space) (pd addr : ℕ) (vma : VmaNode) (s : Vmm)
    → task.pdir ≡ some pd
    → vma_find (some task.vmas) addr ≡ some vma
    → (vmm_handle_user_write_fault task addr s).0 ≡ resolved
    → (addr < kernel_space_start)
      × (pd ≢ s.boot_pd)
      × (vmm_handle_user_write_fault task addr s ≡ fault_area pd addr vma s)
unfolding vmm_handle_user_write_fault
task_resolved task pd addr vma s p q h = ground (arith, p, q, h)

-- The three ways to success, at an address of an area that may be written.
pub record Way (task : Space) (pd addr : ℕ) (s s' : Vmm) : Type 0 where
  pub vma : VmaNode
  pub area : vma_find (some task.vmas) addr ≡ some vma
  pub may_write : MayWrite vma
  pub low : addr < kernel_space_start
  pub not_boot : pd ≢ s.boot_pd
  pub shown_page : is_mapped pd addr s ≡ true
  pub small : (s.words pd (dir_index addr)).flags.ps ≡ false
  pub of_user : (entry_of pd addr s).flags.user ≡ true
  pub steps : (fault_present pd addr s ≡ (resolved, s'))

pub resolved-Way :
    (task : Space) (pd addr : ℕ) (s : Vmm)
    → task.pdir ≡ some pd
    → (vmm_handle_user_write_fault task addr s).0 ≡ resolved
    → Way task pd addr s (vmm_handle_user_write_fault task addr s).1
resolved-Way task pd addr s p h = elim (Option-cases (vma_find (some task.vmas) addr)) [
  | inl q ↦ absurd (no_area task pd addr s p q h)
  | inr (vma, q) ↦
      let (low, nb, e1) = task_resolved task pd addr vma s p q h in
      let h1 = ap (λ r. r.0) (sym e1) ∙ h in
      let (may, e2) = area_resolved pd addr vma s h1 in
      let h2 = ap (λ r. r.0) (sym e2) ∙ h1 in
      let (mapped, small, e3) = walk_resolved pd addr s h2 in
      let h3 = ap (λ r. r.0) (sym e3) ∙ h2 in
      let (user, _) = present_resolved pd addr s h3 in
      let all = e1 ∙ e2 ∙ e3 in
      record {
        vma = vma;
        area = q;
        may_write = may;
        low = low;
        not_boot = nb;
        shown_page = mapped;
        small = small;
        of_user = user;
        steps = ap (λ r. (r, (fault_present pd addr s).1)) h3 ∙ ap (λ r. (resolved, r.1)) (sym all);
      }
]
