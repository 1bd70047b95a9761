-- ===== src/Pmm/Tests.antt =====
-- Runs of pmm.c on a pool of forty pages, and the theorems on them.
use enclave_os.Prelude.{ℕ, ◌+◌, ◌*◌, ◌≡◌, refl, true, arith, ltb, ◌==◌, if◌then◌else◌}
use enclave_os.Pmm.{
  Pmm, page_size, bitmap_test, alloc_loop, lowest_clear, take_page, pmm_alloc_page, pmm_dec_ref,
}
use enclave_os.Pmm.Bits.{lowest_free, marks}
use enclave_os.Pmm.Alloc.{
  first_fit, Allocated, pmm_alloc_page-first_fit, pmm_alloc_page-Allocated, pmm_alloc_page-full,
}
use enclave_os.Pmm.Refs.{Held, Freed, repeat, repeat-pmm_dec_ref}
use enclave_os.Pmm.Account.{IsBalanced, count_free, pmm_alloc_page-IsBalanced}

-- Of forty pages the first 33 are in use; page 2 has `n` references.
abbrev pool : ℕ → Pmm
pool n = record {
  bitmap = λ k b. ltb (8 * k + b) 33;
  refcounts = λ i. if i == 2 then n else 1;
  total_available_pages = 40;
  used_pages = 33;
  max_page = 40;
  total_allocs = 33;
  total_frees = 0;
}

-- Every page is in use.
abbrev exhausted : Pmm
exhausted = record (pool 1) { bitmap = λ k b. true; used_pages = 40 }

takes_page_33 : (pmm_alloc_page (pool 1)).0 ≡ 33 * page_size
unfolding pmm_alloc_page alloc_loop lowest_clear take_page
takes_page_33 = refl

takes_none : (pmm_alloc_page exhausted).0 ≡ 0
unfolding pmm_alloc_page alloc_loop lowest_clear take_page
takes_none = refl

pool-IsBalanced : IsBalanced (pool 1)
unfolding count_free
pool-IsBalanced = record { limit = omega arith; total = refl; small = omega arith }

page_2-Held : (n : ℕ) → Held 0x2000 n (pool n)
page_2-Held n = record { page = (omega arith, omega arith); marked = refl; refs = refl }

pmm_alloc_page-first_fit_example :
    pmm_alloc_page (pool 1) ≡ first_fit (lowest_free 40 0 (marks (pool 1).bitmap)) (pool 1)
pmm_alloc_page-first_fit_example = pmm_alloc_page-first_fit (pool 1) (omega arith)

pmm_alloc_page-Allocated_example :
    Allocated (pool 1) (pmm_alloc_page (pool 1)).0 (pmm_alloc_page (pool 1)).1
pmm_alloc_page-Allocated_example =
    pmm_alloc_page-Allocated (pool 1) (omega arith) (rw takes_page_33 (omega arith))

pmm_alloc_page-full_example :
    ((pmm_alloc_page exhausted).1 ≡ exhausted) × (bitmap_test 39 exhausted.bitmap ≡ true)
pmm_alloc_page-full_example =
    pmm_alloc_page-full exhausted 39 (omega arith) refl takes_none (omega arith)

repeat-pmm_dec_ref_example :
    Held 0x2000 1 (repeat 2 (pmm_dec_ref 0x2000) (pool 3))
    × Freed 0x2000 (pmm_dec_ref 0x2000 (repeat 2 (pmm_dec_ref 0x2000) (pool 3)))
repeat-pmm_dec_ref_example = repeat-pmm_dec_ref 2 0x2000 (pool 3) (page_2-Held 3)

pmm_alloc_page-IsBalanced_example : IsBalanced (pmm_alloc_page (pool 1)).1
pmm_alloc_page-IsBalanced_example = pmm_alloc_page-IsBalanced (pool 1) pool-IsBalanced
