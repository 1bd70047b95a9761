-- ===== src/Syscall/Protect.antt =====
-- syscall.c: mprotect on the areas and on the page tables together.
use mathlib.Core.Option
use enclave_os.Prelude.{
  ℕ, ◌+◌, ◌*◌, ◌/◌, ◌%◌, ◌≡◌, refl, ap, ◌∙◌, true, false, ◌==◌, if◌then◌else◌, arith, some, Bool,
  Changed, Changed-map, Changed-weaken,
}
use enclave_os.Paging.Fault.{can_write}
use enclave_os.Kerrno.{success}
use enclave_os.Vma.{page_down}
use enclave_os.Vma.View.{in_range, flags_at}
use enclave_os.Vma.Edit.{vma_protect_range}
use enclave_os.Vma.Edit.Points.{vma_protect_range-flags_at, Reflagged}
use enclave_os.Paging.{Entry, Flags, vmm_protect_page_in_pd}
use enclave_os.Paging.Walk.{IsShaped, lookup}
use enclave_os.Paging.Unmap.{
  with_rights, with_rights-IsRestricted, vmm_protect_page_in_pd-Shows,
  vmm_protect_page_in_pd-IsShaped,
}
use enclave_os.Syscall.{
  Process, value, each_page, pages_of, end_of, pte_flags, vma_flags_of, sys_mprotect_handler,
}
use enclave_os.Syscall.Ranges.{Acts, each_page-lookup, whole_range}

protect-Acts :
    (pd : ℕ) (flags : Flags)
    → flags.present ≡ true
    → Acts pd (λ v. vmm_protect_page_in_pd pd v flags) (Option.map (with_rights flags))
protect-Acts pd flags p = record {
  keeps = λ virt s t. vmm_protect_page_in_pd-IsShaped pd virt flags s t;
  shows = λ virt s t. (vmm_protect_page_in_pd-Shows pd virt flags s t p).0;
}

mprotect_done :
    (addr len prot : ℕ) (p : Process)
    → (sys_mprotect_handler addr len prot p).0 ≡ value 0
    → ((vma_protect_range
          (some p.vmas)
          (page_down addr)
          (end_of addr len)
          (vma_flags_of prot)
          p.nodes).status
        ≡ success)
      × ((sys_mprotect_handler addr len prot p).1.vmas
          ≡ (vma_protect_range
              (some p.vmas)
              (page_down addr)
              (end_of addr len)
              (vma_flags_of prot)
              p.nodes).vmas)
      × ((sys_mprotect_handler addr len prot p).1.vmm
          ≡ each_page
              (pages_of (page_down addr) (end_of addr len))
              (λ v. vmm_protect_page_in_pd p.pdir v (pte_flags (vma_flags_of prot)))
              (page_down addr)
              p.vmm)
unfolding sys_mprotect_handler
mprotect_done addr len prot p h = ground (arith, h)

-- The flags `f` of an area for the old ones: VMA_READ, VMA_WRITE and VMA_EXEC are PROT_READ, PROT_WRITE
-- and PROT_EXEC of `prot`, VMA_COW is the old one, and no other is set.
pub record HasProt (prot old f : ℕ) : Type 0 where
  pub read : f % 2 ≡ prot % 2
  pub write : f / 2 % 2 ≡ prot / 2 % 2
  pub exec : f / 4 % 2 ≡ prot / 4 % 2
  pub cow : f / 8 ≡ old / 8 % 2

vma_flags_of-bits : (prot : ℕ) → vma_flags_of prot ≡ prot % 2 + prot / 2 % 2 * 2 + prot / 4 % 2 * 4
unfolding vma_flags_of
vma_flags_of-bits prot = ground arith

Reflagged-HasProt : (prot old f : ℕ) → Reflagged (vma_flags_of prot) old f → HasProt prot old f
Reflagged-HasProt prot old f r =
    let bits = vma_flags_of-bits prot in
    let none_above : vma_flags_of prot / 8 ≡ 0 = omega (arith, bits) in
    let rights = r.rights in
    let rest = r.rest in
    let mark : f / 8 % 2 ≡ old / 8 % 2 = ground (arith, r.cow, none_above) in
    record {
      read = omega (arith, bits, rights);
      write = omega (arith, bits, rights);
      exec = omega (arith, bits, rights);
      cow = omega (arith, mark, rest, none_above);
    }

-- The entry of a page for the old one: it shows the same page to the user, PAGE_COW, PAGE_PWT, PAGE_PCD
-- and PAGE_GLOBAL are the old ones, PAGE_WRITE is PROT_WRITE without PAGE_COW, and no other bit is set.
pub record IsReentered (prot : ℕ) (old new : Entry) : Type 0 where
  pub frame : new.frame ≡ old.frame
  pub present : new.flags.present ≡ true
  pub user : new.flags.user ≡ true
  pub write : new.flags.write ≡ (if old.flags.cow then false else prot / 2 % 2 == 1)
  pub cow : new.flags.cow ≡ old.flags.cow
  pub pwt : new.flags.pwt ≡ old.flags.pwt
  pub pcd : new.flags.pcd ≡ old.flags.pcd
  pub global : new.flags.global ≡ old.flags.global
  pub accessed : new.flags.accessed ≡ false
  pub dirty : new.flags.dirty ≡ false
  pub ps : new.flags.ps ≡ false
  pub bit_10 : new.flags.bit_10 ≡ false
  pub bit_11 : new.flags.bit_11 ≡ false

vma_flags_of-write : (prot : ℕ) → can_write (vma_flags_of prot) ≡ (prot / 2 % 2 == 1)
vma_flags_of-write prot = ground (arith, vma_flags_of-bits prot)

if_self : (b : Bool) → (if b then true else false) ≡ b
if_self true = refl
if_self false = refl

entry-IsReentered :
    (prot : ℕ) (e : Entry) → IsReentered prot e (with_rights (pte_flags (vma_flags_of prot)) e)
entry-IsReentered prot e =
    let r = with_rights-IsRestricted (pte_flags (vma_flags_of prot)) e in
    record {
      frame = r.frame;
      present = r.present;
      user = r.user;
      write = r.write ∙ ap (λ b. if e.flags.cow then false else b) (vma_flags_of-write prot);
      cow = r.cow ∙ if_self e.flags.cow;
      pwt = r.pwt ∙ if_self e.flags.pwt;
      pcd = r.pcd ∙ if_self e.flags.pcd;
      global = r.global ∙ if_self e.flags.global;
      accessed = r.accessed;
      dirty = r.dirty;
      ps = r.ps;
      bit_10 = r.bit_10;
      bit_11 = r.bit_11;
    }

-- When mprotect returns 0, at every address of its pages where an area was the area has VMA_READ,
-- VMA_WRITE and VMA_EXEC as PROT_READ, PROT_WRITE and PROT_EXEC say and its old VMA_COW, and where the
-- walk showed an entry it shows one with the same page, which is present and the user's, has the old
-- PAGE_COW, PAGE_PWT, PAGE_PCD and PAGE_GLOBAL, and PAGE_WRITE exactly with PROT_WRITE and without
-- PAGE_COW; where there was no area or no entry there is none, and at every other address both are as
-- they were. The directory must have tables that are different from each other and from it. The pages
-- are those from the address rounded down to the sum of that and the length rounded up, modulo 2^32.
pub sys_mprotect_handler-protects :
    (addr len prot : ℕ) (p : Process) (v : ℕ)
    → IsShaped p.pdir p.vmm
    → (sys_mprotect_handler addr len prot p).0 ≡ value 0
    → Changed
        (in_range (page_down addr) (end_of addr len) v)
        (HasProt prot)
        (flags_at p.vmas v)
        (flags_at (sys_mprotect_handler addr len prot p).1.vmas v)
      × Changed
          (in_range (page_down addr) (end_of addr len) v)
          (IsReentered prot)
          (lookup p.pdir v p.vmm)
          (lookup p.pdir v (sys_mprotect_handler addr len prot p).1.vmm)
sys_mprotect_handler-protects addr len prot p v t h =
    let start = page_down addr in
    let end = end_of addr len in
    let flags = vma_flags_of prot in
    let f = with_rights (pte_flags flags) in
    let (done, areas, machine) = mprotect_done addr len prot p h in
    let points = vma_protect_range-flags_at p.vmas start end flags p.nodes v done in
    let pages =
      each_page-lookup p.pdir (λ k. vmm_protect_page_in_pd p.pdir k (pte_flags flags))
        (Option.map f) (protect-Acts p.pdir (pte_flags flags) refl) (pages_of start end) start p.vmm
        t (omega arith) v in
    let entries =
      ap (lookup p.pdir v) machine
      ∙ pages
      ∙ ap (λ b. if b then Option.map f (lookup p.pdir v p.vmm) else lookup p.pdir v p.vmm)
          (whole_range addr len v) in
    (
      rw areas (
          Changed-weaken (Reflagged flags) (HasProt prot) (Reflagged-HasProt prot)
            (in_range start end v) (flags_at p.vmas v) _ points),
      Changed-map (IsReentered prot) f (entry-IsReentered prot) (in_range start end v)
          (lookup p.pdir v p.vmm) _ entries,
    )
