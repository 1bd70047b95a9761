-- ===== src/Pmm/Alloc.antt =====
-- pmm_alloc_page: the scan by words against a search by pages.

use enclave_os.Prelude.{
  ℕ, zero, suc, ◌+◌, ◌-◌, ◌*◌, ◌/◌, ◌%◌, ◌^◌, ◌≡◌, ◌≢◌, ◌≤◌, ◌<◌, refl, ap, ◌∙◌, true, false,
  Option, none, some, arith, leb, ◌==◌, if◌then◌else◌, Option-cases, inl, inr,
}
use enclave_os.Pmm.{
  Pmm, page_size, pmm_max_pages, write_count, bitmap_set, bitmap_test, lowest_clear, take_page,
  alloc_loop, pmm_alloc_page, pmm_get_refcount,
}
use enclave_os.Pmm.Bits.{
  lowest_free, marks, lowest_free-append, lowest_free-some, lowest_free-none,
  lowest_clear-lowest_free, test-set,
}

-- The page `i` goes to the caller, with one reference.
abbrev pub claim : ℕ → Pmm → ℕ × Pmm
claim i s = (
  i * page_size % 2 ^ 32,
  record s {
    bitmap = bitmap_set i s.bitmap;
    used_pages = (s.used_pages + 1) % 2 ^ 32;
    total_allocs = (s.total_allocs + 1) % 2 ^ 32;
    refcounts = write_count s.refcounts i 1;
  },
)

-- First fit: the lowest free page, or 0 and no change.
abbrev pub first_fit : Option ℕ → Pmm → ℕ × Pmm
first_fit none s = (0, s)
first_fit (some i) s = claim i s

abbrev limited : Option ℕ → Pmm → ℕ × Pmm
limited none s = (0, s)
limited (some i) s = if leb s.max_page i then (0, s) else claim i s

take_page-limited : (w b : ℕ) (s : Pmm) → take_page w b s ≡ limited (some (w * 32 + b)) s
unfolding take_page
take_page-limited w b s =
    let byte : (w * 32 + b) / 8 ≡ 4 * w + b / 8 = omega arith in
    let bit : (w * 32 + b) % 8 ≡ b % 8 = omega arith in rw (byte, bit)

alloc_loop-full :
    (n w : ℕ) (s : Pmm)
    → lowest_clear 32 0 s.bitmap w ≡ none
    → alloc_loop (suc n) w s ≡ alloc_loop n (w + 1) s
unfolding alloc_loop
alloc_loop-full n w s e = ground arith

alloc_loop-found :
    (n w b : ℕ) (s : Pmm)
    → lowest_clear 32 0 s.bitmap w ≡ some b
    → alloc_loop (suc n) w s ≡ take_page w b s
unfolding alloc_loop
alloc_loop-found n w b s e = ground arith

alloc_loop-limited :
    (n w k i : ℕ) (s : Pmm)
    → k ≡ n * 32
    → i ≡ w * 32
    → alloc_loop n w s ≡ limited (lowest_free k i (marks s.bitmap)) s
alloc_loop-limited zero w k i s e f =
    let none_left : k ≡ 0 = omega arith in unfold alloc_loop lowest_free in rw none_left
alloc_loop-limited (suc n) w k i s e f =
    let split = lowest_free-append (marks s.bitmap) 32 (n * 32) k i (i + 32) (omega arith) refl in
    let scan = lowest_clear-lowest_free 32 0 s.bitmap w i (omega arith) in
    elim (Option-cases (lowest_clear 32 0 s.bitmap w)) [
      | inl t ↦
          alloc_loop-full n w s t
          ∙ rw (split, scan, t)
              (alloc_loop-limited n (w + 1) (n * 32) (i + 32) s refl (omega arith))
      | inr (b, t) ↦ alloc_loop-found n w b s t ∙ rw (split, scan, t) (take_page-limited w b s)
    ]

limited-beyond : (n : ℕ) (s : Pmm) → limited (lowest_free n s.max_page (marks s.bitmap)) s ≡ (0, s)
limited-beyond n s = elim (Option-cases (lowest_free n s.max_page (marks s.bitmap))) [
  | inl e ↦ rw e
  | inr (c, e) ↦ ground (arith, e, lowest_free-some (marks s.bitmap) n s.max_page c 0 e)
]

-- With at most 2^20 pages pmm_alloc_page takes the lowest page of the pool that is not marked, marks
-- it and sets its count of references to 1; if every page is marked it returns 0 and changes nothing.
pub pmm_alloc_page-first_fit :
    (s : Pmm)
    → s.max_page ≤ pmm_max_pages
    → pmm_alloc_page s ≡ first_fit (lowest_free s.max_page 0 (marks s.bitmap)) s
unfolding pmm_alloc_page
pmm_alloc_page-first_fit s h =
    let words = (s.max_page + 31) % 2 ^ 32 / 32 in
    let over = words * 32 - s.max_page in
    let split =
      lowest_free-append (marks s.bitmap) s.max_page over (words * 32) 0 s.max_page (omega arith)
        (omega arith) in
    alloc_loop-limited words 0 (words * 32) 0 s refl refl
    ∙ rw split (elim (Option-cases (lowest_free s.max_page 0 (marks s.bitmap))) [
      | inl e ↦ rw e (limited-beyond over s)
      | inr (c, e) ↦ ground (arith, e, lowest_free-some (marks s.bitmap) s.max_page 0 c 0 e)
    ])

-- What a call of pmm_alloc_page that returns an address has done.
pub record Allocated (s : Pmm) (address : ℕ) (s' : Pmm) : Type 0 where
  pub page_in : address / page_size < s.max_page
  pub aligned : address % page_size ≡ 0
  pub was_free : bitmap_test (address / page_size) s.bitmap ≡ false
  pub one_ref : pmm_get_refcount address s' ≡ 1
  pub marked :
      (j : ℕ)
      → bitmap_test j s'.bitmap
        ≡ (if j == address / page_size then true else bitmap_test j s.bitmap)
  pub counts : (j : ℕ) → s'.refcounts j ≡ (if j == address / page_size then 1 else s.refcounts j)

claim-Allocated :
    (i : ℕ) (s : Pmm)
    → s.max_page ≤ pmm_max_pages
    → i < s.max_page
    → bitmap_test i s.bitmap ≡ false
    → Allocated s (claim i s).0 (claim i s).1
unfolding pmm_get_refcount
claim-Allocated i s h k e =
    let page : i * page_size % 2 ^ 32 / page_size ≡ i = omega arith in
    let whole : i * page_size % 2 ^ 32 % page_size ≡ 0 = omega arith in
    record {
      page_in = omega arith;
      aligned = whole;
      was_free = rw page e;
      one_ref = rw (page, whole) (ground arith);
      marked = λ j. rw page (test-set s.bitmap i j);
      counts = λ j. rw page;
    }

-- An address that pmm_alloc_page returns is that of a page of the pool that was free; it is now in
-- use with one reference, and no other page has changed. No page is handed out twice.
pub pmm_alloc_page-Allocated :
    (s : Pmm)
    → s.max_page ≤ pmm_max_pages
    → (pmm_alloc_page s).0 ≢ 0
    → Allocated s (pmm_alloc_page s).0 (pmm_alloc_page s).1
pmm_alloc_page-Allocated s h n =
    let fit = pmm_alloc_page-first_fit s h in
    elim (Option-cases (lowest_free s.max_page 0 (marks s.bitmap))) [
      | inl e ↦ absurd (n (ap (λ r. r.0) (rw e at fit)))
      | inr (c, e) ↦
          let (_, high, free, _) = lowest_free-some (marks s.bitmap) s.max_page 0 c 0 e in
          rw (fit, e) (claim-Allocated c s h (omega arith) free)
    ]

pub pmm_alloc_page-max_page :
    (s : Pmm) → s.max_page ≤ pmm_max_pages → (pmm_alloc_page s).1.max_page ≡ s.max_page
pmm_alloc_page-max_page s h =
    let fit = pmm_alloc_page-first_fit s h in
    elim (Option-cases (lowest_free s.max_page 0 (marks s.bitmap))) [
      | inl e ↦ ap (λ r. r.1.max_page) (rw e at fit)
      | inr (c, e) ↦ ap (λ r. r.1.max_page) (rw e at fit)
    ]

-- While page 0 is reserved, pmm_alloc_page returns 0 only if every page of the pool is in use, and
-- then it changes nothing.
pub pmm_alloc_page-full :
    (s : Pmm) (j : ℕ)
    → s.max_page ≤ pmm_max_pages
    → bitmap_test 0 s.bitmap ≡ true
    → (pmm_alloc_page s).0 ≡ 0
    → j < s.max_page
    → ((pmm_alloc_page s).1 ≡ s) × (bitmap_test j s.bitmap ≡ true)
pmm_alloc_page-full s j h z e m =
    let fit = pmm_alloc_page-first_fit s h in
    elim (Option-cases (lowest_free s.max_page 0 (marks s.bitmap))) [
      | inl k ↦ (
        ap (λ r. r.1) (rw k at fit),
        lowest_free-none (marks s.bitmap) s.max_page 0 j k (omega arith) (omega arith),
      )
      | inr (c, k) ↦
          let (_, high, free, _) = lowest_free-some (marks s.bitmap) s.max_page 0 c 0 k in
          let address = ap (λ r. r.0) (rw k at fit) in
          let first : c ≡ 0 = omega arith in absurd (cc (first, free, z))
    ]
