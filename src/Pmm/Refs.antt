-- ===== src/Pmm/Refs.antt =====
-- The reference counts of pmm.c.
use native.Mathlib.Nat.{add-zero}
use enclave_os.Prelude.{
  ℕ, zero, suc, ◌+◌, ◌-◌, ◌*◌, ◌/◌, ◌%◌, ◌≡◌, ◌≤◌, ◌<◌, ap, true, false, arith, inl, inr, ◌⊎◌,
}
use enclave_os.Pmm.{
  Pmm, page_size, bitmap_test, write_count, pmm_free_page, pmm_inc_ref, pmm_dec_ref,
  pmm_get_refcount,
}

-- The address is that of a page of the pool.
abbrev pub IsPage : ℕ → Pmm → Type 0
IsPage a s = (a % page_size ≡ 0) × (a / page_size < s.max_page)

-- The page is in use with `n` references.
pub record Held (a n : ℕ) (s : Pmm) : Type 0 where
  pub page : IsPage a s
  pub marked : bitmap_test (a / page_size) s.bitmap ≡ true
  pub refs : s.refcounts (a / page_size) ≡ n

-- The page is back in the pool, with no reference.
pub record Freed (a : ℕ) (s : Pmm) : Type 0 where
  pub page : IsPage a s
  pub unmarked : bitmap_test (a / page_size) s.bitmap ≡ false
  pub refs : s.refcounts (a / page_size) ≡ 0

-- pmm_free_page of a page in use frees it, whatever its references are.
pub pmm_free_page-Freed : (a n : ℕ) (s : Pmm) → Held a n s → Freed a (pmm_free_page a s)
unfolding pmm_free_page
pmm_free_page-Freed a n s h = ground (arith, h.page, h.marked)

free_idle : (a : ℕ) (s : Pmm) → bitmap_test (a / page_size) s.bitmap ≡ false → pmm_free_page a s ≡ s
unfolding pmm_free_page
free_idle a s h = ground arith

free_cases :
    (a : ℕ) (s : Pmm)
    → (pmm_free_page a s ≡ s) ⊎ (bitmap_test (a / page_size) (pmm_free_page a s).bitmap ≡ false)
unfolding pmm_free_page
free_cases a s = ground arith

-- A second pmm_free_page of the same address changes nothing.
pub pmm_free_page-again :
    (a : ℕ) (s : Pmm) → pmm_free_page a (pmm_free_page a s) ≡ pmm_free_page a s
pmm_free_page-again a s = elim (free_cases a s) [
  | inl e ↦ ap (pmm_free_page a) e
  | inr e ↦ free_idle a (pmm_free_page a s) e
]

module _ (a n : ℕ) (s : Pmm) where
  pub pmm_inc_ref-Held : Held a n s → n < 0xFFFF → Held a (n + 1) (pmm_inc_ref a s)
  unfolding pmm_inc_ref
  pmm_inc_ref-Held h k = ground (arith, h.page, h.marked, h.refs)

  pub pmm_dec_ref-Held : Held a (suc (suc n)) s → Held a (suc n) (pmm_dec_ref a s)
  unfolding pmm_dec_ref
  pmm_dec_ref-Held h = ground (arith, h.page, h.marked, h.refs)

  pub pmm_dec_ref-Freed : Held a 1 s → Freed a (pmm_dec_ref a s)
  unfolding pmm_dec_ref
  pmm_dec_ref-Freed h = ground (arith, h.page, h.marked, h.refs)

-- A count that pmm_get_refcount returns is that of a page of the pool.
pub pmm_get_refcount-page :
    (f : ℕ) (s : Pmm)
    → 1 ≤ pmm_get_refcount (f * page_size) s
    → (f < s.max_page) × (pmm_get_refcount (f * page_size) s ≡ s.refcounts f)
unfolding pmm_get_refcount
pmm_get_refcount-page f s h =
    let page : f * page_size / page_size ≡ f = omega arith in
    let whole : f * page_size % page_size ≡ 0 = omega arith in
    let h' = rw (page, whole) at h in rw (page, whole) (ground (arith, h'))

pub pmm_get_refcount-le : (f : ℕ) (s : Pmm) → pmm_get_refcount (f * page_size) s ≤ s.refcounts f
unfolding pmm_get_refcount
pmm_get_refcount-le f s =
    let page : f * page_size / page_size ≡ f = omega arith in rw page (ground arith)

pub pmm_inc_ref-pages :
    (a : ℕ) (s : Pmm)
    → ((pmm_inc_ref a s).bitmap ≡ s.bitmap) × ((pmm_inc_ref a s).max_page ≡ s.max_page)
unfolding pmm_inc_ref
pmm_inc_ref-pages a s = ground arith

-- A page with more than one reference loses one and stays in use.
pub pmm_dec_ref-shared :
    (f : ℕ) (s : Pmm)
    → f < s.max_page
    → 2 ≤ s.refcounts f
    → pmm_dec_ref (f * page_size) s
      ≡ record s { refcounts = write_count s.refcounts f (s.refcounts f - 1) }
unfolding pmm_dec_ref
pmm_dec_ref-shared f s p h =
    let page : f * page_size / page_size ≡ f = omega arith in
    let whole : f * page_size % page_size ≡ 0 = omega arith in
    rw (page, whole) (ground (arith, p, h))

-- At 0xFFFF references the count stays, and so a later pmm_dec_ref takes back a reference that was
-- never counted: the pair does not restore the count.
pub pmm_inc_ref-saturated :
    (a : ℕ) (s : Pmm)
    → Held a 0xFFFF s
    → (pmm_inc_ref a s ≡ s) × Held a 0xFFFE (pmm_dec_ref a (pmm_inc_ref a s))
unfolding pmm_inc_ref pmm_dec_ref
pmm_inc_ref-saturated a s h = ground (arith, h.page, h.marked, h.refs)

-- `n` calls of an operation.
unfoldable pub repeat : ℕ → (Pmm → Pmm) → Pmm → Pmm
repeat zero f s = s
repeat (suc n) f s = repeat n f (f s)

-- `n` more references are counted, while they fit in 16 bits.
pub repeat-pmm_inc_ref :
    (n a m : ℕ) (s : Pmm)
    → Held a m s
    → m + n ≤ 0xFFFF
    → Held a (m + n) (repeat n (pmm_inc_ref a) s)
unfolding repeat
repeat-pmm_inc_ref zero a m s h k = rw add-zero h
repeat-pmm_inc_ref (suc n) a m s h k =
    let next : m + suc n ≡ m + 1 + n = omega arith in
    rw next (
      repeat-pmm_inc_ref n a (m + 1) (pmm_inc_ref a s) (pmm_inc_ref-Held a m s h (omega arith))
        (omega arith))

-- A page with `n + 1` references is still in use after `n` calls of pmm_dec_ref, and the next call
-- frees it.
pub repeat-pmm_dec_ref :
    (n a : ℕ) (s : Pmm)
    → Held a (suc n) s
    → Held a 1 (repeat n (pmm_dec_ref a) s) × Freed a (pmm_dec_ref a (repeat n (pmm_dec_ref a) s))
unfolding repeat
repeat-pmm_dec_ref zero a s h = (h, pmm_dec_ref-Freed a 0 s h)
repeat-pmm_dec_ref (suc n) a s h =
    repeat-pmm_dec_ref n a (pmm_dec_ref a s) (pmm_dec_ref-Held a n s h)
