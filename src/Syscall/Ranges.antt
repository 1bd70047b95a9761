-- ===== src/Syscall/Ranges.antt =====
-- syscall.c: the loops over the pages of a range, and munmap on the areas and on the page tables
-- together.

use enclave_os.Prelude.{
  ℕ, zero, suc, ◌+◌, ◌*◌, ◌/◌, ◌%◌, ◌≡◌, refl, sym, ap, ◌∙◌, true, false, ◌==◌, if◌then◌else◌,
  arith, Bool-cases, inl, inr, Option, none, some, if-true, if-false,
}
use enclave_os.Kerrno.{success}
use enclave_os.Vma.{page_down}
use enclave_os.Vma.View.{in_range, flags_at}
use enclave_os.Vma.Edit.{vma_unmap_range}
use enclave_os.Vma.Edit.Points.{vma_unmap_range-flags_at}
use enclave_os.Paging.{Entry, Vmm, vmm_unmap_and_free_page_in_pd}
use enclave_os.Paging.Walk.{IsShaped, lookup}
use enclave_os.Paging.Map.{Shows}
use enclave_os.Paging.Unmap.{
  lookup-page, vmm_unmap_and_free_page_in_pd-Shows, vmm_unmap_and_free_page_in_pd-IsShaped,
}
use enclave_os.Syscall.{Process, value, each_page, pages_of, end_of, sys_munmap_handler}

-- On a directory with different tables the operation keeps them so, and changes what the walk shows
-- for the page of the address to `f` of it.
pub record Acts (pd : ℕ) (op : ℕ → Vmm → Vmm) (f : Option Entry → Option Entry) : Type 0 where
  pub keeps : (virt : ℕ) (s : Vmm) → IsShaped pd s → IsShaped pd (op virt s)
  pub shows :
      (virt : ℕ) (s : Vmm) → IsShaped pd s → Shows pd virt (f (lookup pd virt s)) s (op virt s)

pages_range :
    (virt n v : ℕ)
    → virt % 4096 ≡ 0
    → (v / 4096 == virt / 4096) ≡ true
    → (in_range (virt + 4096) (virt + 4096 + n * 4096) v ≡ false)
      × (in_range virt (virt + suc n * 4096) v ≡ true)
pages_range virt n v a e = ground (arith, a, e)

later_range :
    (virt n v : ℕ)
    → virt % 4096 ≡ 0
    → (v / 4096 == virt / 4096) ≡ false
    → in_range (virt + 4096) (virt + 4096 + n * 4096) v ≡ in_range virt (virt + suc n * 4096) v
later_range virt n v a e = ground (arith, a, e)

none_range : (virt v : ℕ) → in_range virt (virt + 0 * 4096) v ≡ false
none_range virt v = ground arith

each_page-zero : (op : ℕ → Vmm → Vmm) (virt : ℕ) (s : Vmm) → each_page zero op virt s ≡ s
unfolding each_page
each_page-zero op virt s = refl

each_page-suc :
    (n : ℕ) (op : ℕ → Vmm → Vmm) (virt : ℕ) (s : Vmm)
    → each_page (suc n) op virt s ≡ each_page n op (virt + 4096) (op virt s)
unfolding each_page
each_page-suc n op virt s = refl

pub each_page-lookup :
    (pd : ℕ) (op : ℕ → Vmm → Vmm) (f : Option Entry → Option Entry)
    → Acts pd op f
    → (n virt : ℕ) (s : Vmm) → IsShaped pd s
    → virt % 4096 ≡ 0
    → (v : ℕ)
    → lookup pd v (each_page n op virt s)
      ≡ (if in_range virt (virt + n * 4096) v then f (lookup pd v s) else lookup pd v s)
each_page-lookup pd op f acts zero virt s t a v =
    let nothing = none_range virt v in
    ap (λ x. lookup pd v x) (each_page-zero op virt s)
    ∙ sym (if-false (f (lookup pd v s)) (lookup pd v s) nothing)
each_page-lookup pd op f acts (suc n) virt s t a v =
    let s1 = op virt s in
    let t1 = acts.keeps virt s t in
    let rest = each_page-lookup pd op f acts n (virt + 4096) s1 t1 (omega arith) v in
    let shown = acts.shows virt s t v in
    ap (λ x. lookup pd v x) (each_page-suc n op virt s)
    ∙ rest
    ∙ elim (Bool-cases (v / 4096 == virt / 4096)) [
      | inl same ↦
          let (out, here) = pages_range virt n v a same in
          let q : v / 4096 ≡ virt / 4096 = ground (arith, same) in
          if-false (f (lookup pd v s1)) (lookup pd v s1) out
          ∙ shown
          ∙ if-true (f (lookup pd virt s)) (lookup pd v s) same
          ∙ ap f (sym (lookup-page pd v virt s q))
          ∙ sym (if-true (f (lookup pd v s)) (lookup pd v s) here)
      | inr other ↦
          let same_range = later_range virt n v a other in
          let kept = shown ∙ if-false (f (lookup pd virt s)) (lookup pd v s) other in
          ap (λ o. if in_range (virt + 4096) (virt + 4096 + n * 4096) v then f o else o) kept
          ∙ ap (λ b. if b then f (lookup pd v s) else lookup pd v s) same_range
    ]

unmap-Acts : (pd : ℕ) → Acts pd (vmm_unmap_and_free_page_in_pd pd) (λ o. none)
unmap-Acts pd = record {
  keeps = vmm_unmap_and_free_page_in_pd-IsShaped pd;
  shows = λ virt s t. (vmm_unmap_and_free_page_in_pd-Shows pd virt s t).0;
}

-- The pages of the loop are those of the range.
pub whole_range :
    (addr len v : ℕ)
    → in_range
        (page_down addr)
        (page_down addr + pages_of (page_down addr) (end_of addr len) * 4096)
        v
      ≡ in_range (page_down addr) (end_of addr len) v
whole_range addr len v = ground arith

munmap_done :
    (addr len : ℕ) (p : Process)
    → (sys_munmap_handler addr len p).0 ≡ value 0
    → ((vma_unmap_range (some p.vmas) (page_down addr) (end_of addr len) p.nodes).status ≡ success)
      × ((sys_munmap_handler addr len p).1.vmas
          ≡ (vma_unmap_range (some p.vmas) (page_down addr) (end_of addr len) p.nodes).vmas)
      × ((sys_munmap_handler addr len p).1.vmm
          ≡ each_page
              (pages_of (page_down addr) (end_of addr len))
              (vmm_unmap_and_free_page_in_pd p.pdir)
              (page_down addr)
              p.vmm)
unfolding sys_munmap_handler
munmap_done addr len p h = ground (arith, h)

-- When munmap returns 0, at every address of its pages the list of areas has nothing and the walk
-- through the page tables shows nothing, and at every other address both are as they were, on a directory
-- with different tables. The pages are those from the address rounded down to the sum of that and
-- the length rounded up, modulo 2^32.
pub sys_munmap_handler-unmaps :
    (addr len : ℕ) (p : Process) (v : ℕ)
    → IsShaped p.pdir p.vmm
    → (sys_munmap_handler addr len p).0 ≡ value 0
    → (flags_at (sys_munmap_handler addr len p).1.vmas v
        ≡ (if in_range (page_down addr) (end_of addr len) v then none else flags_at p.vmas v))
      × (lookup p.pdir v (sys_munmap_handler addr len p).1.vmm
          ≡ (if in_range (page_down addr) (end_of addr len) v then none else lookup p.pdir v p.vmm))
sys_munmap_handler-unmaps addr len p v t h =
    let start = page_down addr in
    let end = end_of addr len in
    let (done, areas, machine) = munmap_done addr len p h in
    let pages =
      each_page-lookup p.pdir (vmm_unmap_and_free_page_in_pd p.pdir) (λ o. none) (unmap-Acts p.pdir)
        (pages_of start end) start p.vmm t (omega arith) v in
    (
      ap (λ l. flags_at l v) areas ∙ vma_unmap_range-flags_at p.vmas start end p.nodes v done,
      ap (lookup p.pdir v) machine
          ∙ pages
          ∙ ap (λ b. if b then none else lookup p.pdir v p.vmm) (whole_range addr len v),
    )
