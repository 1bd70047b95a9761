-- ===== src/Pmm/Account.antt =====
-- The accounting of pmm.c: how many pages are free.
use enclave_os.Prelude.{
  ℕ, zero, suc, ◌+◌, ◌/◌, ◌≡◌, ◌≤◌, ◌<◌, refl, sym, ap, Bool, true, false, arith, ◌==◌,
  if◌then◌else◌, Option-cases, inl, inr,
}
use enclave_os.Pmm.{
  Bitmap, Pmm, page_size, pmm_max_pages, bitmap_set, bitmap_clear, bitmap_test, pmm_alloc_page,
  pmm_free_page, pmm_get_free_pages,
}
use enclave_os.Pmm.Bits.{test-clear, test-set, marks, lowest_free, lowest_free-some}
use enclave_os.Pmm.Alloc.{claim, pmm_alloc_page-first_fit}

-- How many of the first `n` pages are not marked.
unfoldable pub count_free : ℕ → (ℕ → Bool) → ℕ
count_free zero used = 0
count_free (suc n) used = (if used n then 0 else 1) + count_free n used

-- The pool has at most 2^20 pages, and its counters agree with the bitmap.
pub record IsBalanced (s : Pmm) : Type 0 where
  pub limit : s.max_page ≤ pmm_max_pages
  pub total : s.total_available_pages ≡ count_free s.max_page (marks s.bitmap) + s.used_pages
  pub small : s.total_available_pages ≤ pmm_max_pages

count_free-same :
    (n : ℕ) (p q : ℕ → Bool) (i : ℕ)
    → ((j : ℕ) → q j ≡ (if j == i then q i else p j))
    → n ≤ i
    → count_free n q ≡ count_free n p
unfolding count_free
count_free-same zero p q i e h = refl
count_free-same (suc n) p q i e h = ground (arith, e n, count_free-same n p q i e)

-- Marking one free page below `n` lowers the count by one.
count_free-mark :
    (n i : ℕ) (p q : ℕ → Bool)
    → p i ≡ false
    → q i ≡ true
    → ((j : ℕ) → q j ≡ (if j == i then q i else p j))
    → i < n
    → count_free n q + 1 ≡ count_free n p
unfolding count_free
count_free-mark zero i p q f t e h = absurd (omega arith)
count_free-mark (suc n) i p q f t e h =
    ground (arith, e n, f, t, count_free-mark n i p q f t e, count_free-same n p q i e)

pub mark-bitmap :
    (n i : ℕ) (bm : Bitmap)
    → bitmap_test i bm ≡ false
    → i < n
    → count_free n (marks (bitmap_set i bm)) + 1 ≡ count_free n (marks bm)
mark-bitmap n i bm e h =
    let now : bitmap_test i (bitmap_set i bm) ≡ true = rw (test-set bm i i) (ground arith) in
    count_free-mark n i (marks bm) (marks (bitmap_set i bm)) e now (λ j. rw now (test-set bm i j)) h

pub clear-bitmap :
    (n i : ℕ) (bm : Bitmap)
    → bitmap_test i bm ≡ true
    → i < n
    → count_free n (marks (bitmap_clear i bm)) ≡ count_free n (marks bm) + 1
clear-bitmap n i bm e h =
    let now : bitmap_test i (bitmap_clear i bm) ≡ false = rw (test-clear bm i i) (ground arith) in
    sym (
      count_free-mark n i (marks (bitmap_clear i bm)) (marks bm) now e
        (λ j. ground (arith, e, test-clear bm i j, same j)) h)
  where
    same : (j : ℕ) → j ≡ i → marks bm j ≡ marks bm i
    same j q = ap (marks bm) q

-- On a balanced pool pmm_get_free_pages is the number of pages that are not marked.
pub pmm_get_free_pages-count_free :
    (s : Pmm) → IsBalanced s → pmm_get_free_pages s ≡ count_free s.max_page (marks s.bitmap)
unfolding pmm_get_free_pages
pmm_get_free_pages-count_free s b = omega arith

claim-IsBalanced :
    (i : ℕ) (s : Pmm)
    → IsBalanced s
    → i < s.max_page
    → bitmap_test i s.bitmap ≡ false
    → IsBalanced (claim i s).1
claim-IsBalanced i s b h e =
    let count = mark-bitmap s.max_page i s.bitmap e h in
    record { limit = b.limit; total = omega arith; small = b.small }

-- pmm_alloc_page keeps the pool balanced: the page that it takes from the free ones is counted as
-- used.
pub pmm_alloc_page-IsBalanced : (s : Pmm) → IsBalanced s → IsBalanced (pmm_alloc_page s).1
pmm_alloc_page-IsBalanced s b =
    rw (pmm_alloc_page-first_fit s b.limit)
      (elim (Option-cases (lowest_free s.max_page 0 (marks s.bitmap))) [
        | inl e ↦ rw e b
        | inr (c, e) ↦
            let (_, high, free, _) = lowest_free-some (marks s.bitmap) s.max_page 0 c 0 e in
            rw e (claim-IsBalanced c s b (omega arith) free)
      ])

-- pmm_free_page keeps the pool balanced, if some page is counted as used.
pub pmm_free_page-IsBalanced :
    (a : ℕ) (s : Pmm) → IsBalanced s → 0 < s.used_pages → IsBalanced (pmm_free_page a s)
unfolding pmm_free_page
pmm_free_page-IsBalanced a s b u =
    ground (arith, clear-bitmap s.max_page (a / page_size) s.bitmap, b.limit, b.total, b.small)

pub count_free-le : (n : ℕ) (used : ℕ → Bool) → count_free n used ≤ n
unfolding count_free
count_free-le zero used = omega arith
count_free-le (suc n) used = ground (arith, count_free-le n used)
