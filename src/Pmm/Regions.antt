-- ===== src/Pmm/Regions.antt =====
-- pmm_free_region and pmm_reserve_region: the pages that they mark, and the counters.
use enclave_os.Prelude.{
  ℕ, zero, suc, ◌+◌, ◌-◌, ◌*◌, ◌/◌, ◌%◌, ◌^◌, ◌≡◌, ◌≤◌, ◌<◌, ap, Bool, true, false, arith, ltb, leb,
  ◌==◌, ◌&&◌, ◌||◌, if◌then◌else◌, Bool-cases, inl, inr,
}
use enclave_os.Pmm.{
  Pmm, page_size, pmm_max_pages, bitmap_set, bitmap_clear, bitmap_test, free_loop, reserve_loop,
  pmm_free_region, pmm_reserve_region, min_page, align64,
}
use enclave_os.Pmm.Bits.{test-clear, test-set, marks}
use enclave_os.Pmm.Account.{IsBalanced, mark-bitmap, clear-bitmap, count_free, count_free-le}

-- No page is counted as used yet: the state in which the regions are set up.
pub record IsSetup (max : ℕ) (s : Pmm) : Type 0 where
  pub limit : max ≤ pmm_max_pages
  pub max_page : s.max_page ≡ max
  pub unused : s.used_pages ≡ 0
  pub total : s.total_available_pages ≡ count_free max (marks s.bitmap)

pub IsSetup-IsBalanced : (max : ℕ) (s : Pmm) → IsSetup max s → IsBalanced s
IsSetup-IsBalanced max s b =
    let few = count_free-le max (marks s.bitmap) in
    record {
      limit = omega arith;
      total = rw (b.max_page, b.unused) (omega arith);
      small = omega arith;
    }

abbrev pub in_pages : ℕ → ℕ → ℕ → Bool
in_pages i n j = leb i j && ltb j (i + n)

abbrev reserve_page : ℕ → Pmm → Pmm
reserve_page i s = if bitmap_test i s.bitmap then s else record s {
  bitmap = bitmap_set i s.bitmap;
  total_available_pages = s.total_available_pages - 1;
}

abbrev free_page : ℕ → Pmm → Pmm
free_page i s =
    if bitmap_test i s.bitmap
    then record s {
      bitmap = bitmap_clear i s.bitmap;
      total_available_pages = (s.total_available_pages + 1) % 2 ^ 32;
    }
    else s

reserve_page-IsSetup :
    (max i : ℕ) (s : Pmm) → IsSetup max s → i < max → IsSetup max (reserve_page i s)
reserve_page-IsSetup max i s b h = elim (Bool-cases (bitmap_test i s.bitmap)) [
  | inl e ↦ rw e b
  | inr e ↦
      let count = mark-bitmap max i s.bitmap e h in
      rw e
        (record { limit = b.limit; max_page = b.max_page; unused = b.unused; total = omega arith })
]

free_page-IsSetup : (max i : ℕ) (s : Pmm) → IsSetup max s → i < max → IsSetup max (free_page i s)
free_page-IsSetup max i s b h = elim (Bool-cases (bitmap_test i s.bitmap)) [
  | inl e ↦
      let count = clear-bitmap max i s.bitmap e h in
      let few = count_free-le max (marks s.bitmap) in
      rw e
        (record { limit = b.limit; max_page = b.max_page; unused = b.unused; total = omega arith })
  | inr e ↦ rw e b
]

reserve_page-marks :
    (i j : ℕ) (s : Pmm)
    → bitmap_test j (reserve_page i s).bitmap ≡ (if j == i then true else bitmap_test j s.bitmap)
reserve_page-marks i j s = ground (arith, test-set s.bitmap i j, same)
  where
    same : j ≡ i → marks s.bitmap j ≡ marks s.bitmap i
    same q = ap (marks s.bitmap) q

free_page-marks :
    (i j : ℕ) (s : Pmm)
    → bitmap_test j (free_page i s).bitmap ≡ (if j == i then false else bitmap_test j s.bitmap)
free_page-marks i j s = ground (arith, test-clear s.bitmap i j, same)
  where
    same : j ≡ i → marks s.bitmap j ≡ marks s.bitmap i
    same q = ap (marks s.bitmap) q

reserve_loop-marks :
    (n i j : ℕ) (s : Pmm)
    → bitmap_test j (reserve_loop n i s).bitmap
      ≡ (if in_pages i n j then true else bitmap_test j s.bitmap)
unfolding reserve_loop
reserve_loop-marks zero i j s = ground arith
reserve_loop-marks (suc n) i j s =
    ground (arith, reserve_loop-marks n (i + 1) j (reserve_page i s), reserve_page-marks i j s)

free_loop-marks :
    (n i j : ℕ) (s : Pmm)
    → bitmap_test j (free_loop n i s).bitmap
      ≡ (if in_pages i n j then false else bitmap_test j s.bitmap)
unfolding free_loop
free_loop-marks zero i j s = ground arith
free_loop-marks (suc n) i j s =
    ground (arith, free_loop-marks n (i + 1) j (free_page i s), free_page-marks i j s)

reserve_loop-IsSetup :
    (max n i : ℕ) (s : Pmm) → IsSetup max s → i + n ≤ max → IsSetup max (reserve_loop n i s)
unfolding reserve_loop
reserve_loop-IsSetup max zero i s b h = b
reserve_loop-IsSetup max (suc n) i s b h =
    reserve_loop-IsSetup max n (i + 1) (reserve_page i s)
      (reserve_page-IsSetup max i s b (omega arith)) (omega arith)

free_loop-IsSetup :
    (max n i : ℕ) (s : Pmm) → IsSetup max s → i + n ≤ max → IsSetup max (free_loop n i s)
unfolding free_loop
free_loop-IsSetup max zero i s b h = b
free_loop-IsSetup max (suc n) i s b h =
    free_loop-IsSetup max n (i + 1) (free_page i s) (free_page-IsSetup max i s b (omega arith))
      (omega arith)

-- The range is not empty, and the page `j` holds an address of it.
abbrev pub Touches : ℕ → ℕ → ℕ → Type 0
Touches base end j = (base < end) × (base < (j + 1) * page_size) × (j * page_size < end)

-- pmm_reserve_region keeps the pool set up; it marks each page of the pool that holds an address of
-- the region, and no other page loses its mark.
pub pmm_reserve_region-marks :
    (max base end : ℕ) (s : Pmm)
    → IsSetup max s
    → end < 2 ^ 43
    → IsSetup max (pmm_reserve_region base end s)
      × ((j : ℕ)
          → j < max
          → Touches base end j
          → bitmap_test j (pmm_reserve_region base end s).bitmap ≡ true)
      × ((j : ℕ)
          → bitmap_test j s.bitmap ≡ true
          → bitmap_test j (pmm_reserve_region base end s).bitmap ≡ true)
unfolding pmm_reserve_region
pmm_reserve_region-marks max base end s b h =
    elim (Bool-cases (leb end base || leb s.max_page first)) [
      | inl e ↦ rw e (b, λ j m t. absurd (ground (arith, e)), λ j m. m)
      | inr e ↦ rw e (
        reserve_loop-IsSetup max rounds first s b (ground (arith, e)),
        λ j m t. ground (arith, reserve_loop-marks rounds first j s),
        λ j m. ground (arith, reserve_loop-marks rounds first j s),
      )
    ]
  where
    first : ℕ
    first = base / page_size % 2 ^ 32

    rounds : ℕ
    rounds = min_page s.max_page ((end + page_size - 1) % 2 ^ 64 / page_size % 2 ^ 32) - first

-- pmm_free_region keeps the pool set up, and it takes the mark only from pages that lie in the
-- region as a whole.
pub pmm_free_region-marks :
    (max base len : ℕ) (s : Pmm)
    → IsSetup max s
    → base + len < 2 ^ 43
    → IsSetup max (pmm_free_region base len s)
      × ((j : ℕ)
          → bitmap_test j s.bitmap ≡ true
          → bitmap_test j (pmm_free_region base len s).bitmap ≡ false
          → (base ≤ j * page_size) × ((j + 1) * page_size ≤ base + len))
unfolding pmm_free_region
pmm_free_region-marks max base len s b h =
    elim (Bool-cases
      (leb (align64 (base + len)) (align64 (base + page_size - 1)) || leb s.max_page first)) [
        | inl e ↦ rw e (b, λ j m t. cc)
        | inr e ↦ rw e (
          free_loop-IsSetup max rounds first s b (ground (arith, e)),
          λ j m t. ground (arith, free_loop-marks rounds first j s),
        )
      ]
  where
    first : ℕ
    first = align64 (base + page_size - 1) / page_size % 2 ^ 32

    rounds : ℕ
    rounds = min_page s.max_page (align64 (base + len) / page_size % 2 ^ 32) - first
