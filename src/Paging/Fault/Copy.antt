-- ===== src/Paging/Fault/Copy.antt =====
-- paging.c: the copy of a page that several address spaces share.
use enclave_os.Prelude.{ℕ, ◌-◌, ◌*◌, ◌/◌, ◌≡◌, ◌≢◌, ◌≤◌, refl, ap, ◌∙◌, false, arith}
use enclave_os.Pmm.{page_size, pmm_alloc_page, pmm_get_refcount, pmm_dec_ref, write_count}
use enclave_os.Pmm.Alloc.{Allocated, pmm_alloc_page-Allocated, pmm_alloc_page-max_page}
use enclave_os.Pmm.Refs.{pmm_dec_ref-shared, pmm_get_refcount-page}
use enclave_os.Paging.{Vmm, table_of, entry_of, copy_frame}
use enclave_os.Paging.Walk.{IsTree, is_used}
use enclave_os.Paging.Fresh.{Filled}

-- No page out of use has references, and the page of `addr` is not its own page table.
pub record Counted (pd addr : ℕ) (s : Vmm) : Type 0 where
  pub tree : IsTree pd s
  pub idle : (g : ℕ) → is_used g s ≡ false → s.pmm.refcounts g ≡ 0
  pub apart : (entry_of pd addr s).frame ≢ table_of pd addr s

copy_frame_self : (to from j : ℕ) (s : Vmm) → copy_frame s.words to from to j ≡ s.words from j
copy_frame_self to from j s = ground arith

copy_frame-other :
    (to from g j : ℕ) (s : Vmm) → g ≢ to → copy_frame s.words to from g j ≡ s.words g j
copy_frame-other to from g j s h = ground (arith, h)

-- A copy of a page with several references into a page from the allocator.
pub record Copied (from to : ℕ) (s s' : Vmm) : Type 0 where
  pub filled : Filled to s s'
  pub copy : (j : ℕ) → s'.words to j ≡ s.words from j
  pub one : s'.pmm.refcounts to ≤ 1
  pub dropped : s'.pmm.refcounts from ≡ s.pmm.refcounts from - 1

abbrev pub copied_state : ℕ → Vmm → Vmm
copied_state from s = record s {
  words = copy_frame s.words ((pmm_alloc_page s.pmm).0 / page_size) from;
  pmm = pmm_dec_ref (from * page_size) (pmm_alloc_page s.pmm).1;
}

copied :
    (from a : ℕ) (s s1 : Vmm)
    → ((g : ℕ) → is_used g s ≡ false → s.pmm.refcounts g ≡ 0)
    → 2 ≤ s.pmm.refcounts from
    → Allocated s.pmm a s1.pmm
    → s1.pmm.max_page ≡ s.pmm.max_page
    → s1.words ≡ copy_frame s.words (a / page_size) from
    → Copied from (a / page_size) s (record s1 {
      pmm = record s1.pmm {
        refcounts = write_count s1.pmm.refcounts from (s1.pmm.refcounts from - 1);
      };
    })
copied from a s s1 idle two got m w =
    let to = a / page_size in
    let differ : from ≢ to =
      λ q. absurd (ground (arith, two, idle to got.was_free, ap s.pmm.refcounts q)) in
    record {
      filled = record {
        fresh = got.was_free;
        words = λ g j q. ap (λ k. k g j) w ∙ copy_frame-other to from g j s q;
        used = λ g u. ground (arith, got.marked g, u);
        pages = m;
      };
      copy = λ j. ap (λ k. k to j) w ∙ copy_frame_self to from j s;
      one = ground (arith, got.counts to, differ);
      dropped = ground (arith, got.counts from, differ);
    }

pub copied_page :
    (pd addr : ℕ) (s : Vmm)
    → Counted pd addr s
    → 2 ≤ pmm_get_refcount ((entry_of pd addr s).frame * page_size) s.pmm
    → (pmm_alloc_page s.pmm).0 ≢ 0
    → Copied
        (entry_of pd addr s).frame
        ((pmm_alloc_page s.pmm).0 / page_size)
        s
        (copied_state (entry_of pd addr s).frame s)
copied_page pd addr s c two n =
    let from = (entry_of pd addr s).frame in
    let limit = c.tree.limit in
    let got = pmm_alloc_page-Allocated s.pmm limit n in
    let (low, same) = pmm_get_refcount-page from s.pmm (omega (arith, two)) in
    let two' : 2 ≤ s.pmm.refcounts from = omega (arith, two, same) in
    let pages = pmm_alloc_page-max_page s.pmm limit in
    let after : (pmm_alloc_page s.pmm).1.refcounts from ≡ s.pmm.refcounts from =
      ground (arith, got.counts from, got.was_free, c.idle from, two') in
    let drop =
      pmm_dec_ref-shared from (pmm_alloc_page s.pmm).1 (omega (arith, low, pages))
        (omega (arith, two', after)) in
    let s1 : Vmm = record s {
      words = copy_frame s.words ((pmm_alloc_page s.pmm).0 / page_size) from;
      pmm = (pmm_alloc_page s.pmm).1;
    } in
    rw drop (copied from (pmm_alloc_page s.pmm).0 s s1 c.idle two' got pages refl)
