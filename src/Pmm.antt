-- ===== src/Pmm.antt =====
-- pmm.c: the bitmap allocator of physical pages with reference counts. Interrupts are off in each
-- operation, so an operation is one step.
pub mod Bits
pub mod Alloc
pub mod Refs
pub mod Account
pub mod Regions
pub mod Init
mod Tests
use mathlib.Core.Option
use enclave_os.Prelude.{
  ℕ, zero, suc, ◌+◌, ◌-◌, ◌*◌, ◌/◌, ◌%◌, ◌^◌, Bool, true, false, not, ◌&&◌, ◌||◌, Option, none,
  some, List, [], ◌∷◌, ltb, leb, ◌==◌, if◌then◌else◌,
}

-- `pmm_bitmap`: bit `b` of byte `k`.
abbrev pub Bitmap : Type 0
Bitmap = ℕ → ℕ → Bool

pub record Pmm : Type 0 where
  pub bitmap : Bitmap
  pub refcounts : ℕ → ℕ
  pub total_available_pages : ℕ
  pub used_pages : ℕ
  pub max_page : ℕ
  pub total_allocs : ℕ
  pub total_frees : ℕ

abbrev pub page_size : ℕ
page_size = 4096

abbrev pub pmm_max_pages : ℕ
pmm_max_pages = 1048576

abbrev pub write_bit : Bitmap → ℕ → ℕ → Bool → Bitmap
write_bit bm byte bit v = λ k b. if k == byte && b == bit then v else bm k b

abbrev pub bitmap_set : ℕ → Bitmap → Bitmap
bitmap_set bit bm = write_bit bm (bit / 8) (bit % 8) true

abbrev pub bitmap_clear : ℕ → Bitmap → Bitmap
bitmap_clear bit bm = write_bit bm (bit / 8) (bit % 8) false

abbrev pub bitmap_test : ℕ → Bitmap → Bool
bitmap_test bit bm = bm (bit / 8) (bit % 8)

abbrev pub write_count : (ℕ → ℕ) → ℕ → ℕ → (ℕ → ℕ)
write_count counts page n = λ i. if i == page then n else counts i

-- The loops of pmm_free_region and pmm_reserve_region over `n` pages from `i` on.
free_loop : ℕ → ℕ → Pmm → Pmm
free_loop zero i s = s
free_loop (suc n) i s = free_loop n (i + 1) (
    if bitmap_test i s.bitmap
    then record s {
      bitmap = bitmap_clear i s.bitmap;
      total_available_pages = (s.total_available_pages + 1) % 2 ^ 32;
    }
    else s)

reserve_loop : ℕ → ℕ → Pmm → Pmm
reserve_loop zero i s = s
reserve_loop (suc n) i s = reserve_loop n (i + 1) (
    if bitmap_test i s.bitmap then s else record s {
      bitmap = bitmap_set i s.bitmap;
      total_available_pages = s.total_available_pages - 1;
    })

-- `x & ~(uint64_t)(PMM_PAGE_SIZE - 1)` on uint64_t, and the sums modulo 2^64
abbrev pub align64 : ℕ → ℕ
align64 x = x % 2 ^ 64 / page_size * page_size

abbrev pub min_page : ℕ → ℕ → ℕ
min_page max page = if ltb max page then max else page

pub pmm_free_region : ℕ → ℕ → Pmm → Pmm
unfolding free_loop
pmm_free_region base len s =
    let align_base = align64 (base + page_size - 1) in
    let align_end = align64 (base + len) in
    let start_page = align_base / page_size % 2 ^ 32 in
    let end_page = align_end / page_size % 2 ^ 32 in
    if leb align_end align_base || leb s.max_page start_page
    then s
    else free_loop (min_page s.max_page end_page - start_page) start_page s

pub pmm_reserve_region : ℕ → ℕ → Pmm → Pmm
unfolding reserve_loop
pmm_reserve_region base end s =
    let start_page = base / page_size % 2 ^ 32 in
    let end_page = (end + page_size - 1) % 2 ^ 64 / page_size % 2 ^ 32 in
    if leb end base || leb s.max_page start_page
    then s
    else reserve_loop (min_page s.max_page end_page - start_page) start_page s

-- Bit `b` of `bitmap_words[w]`: the words are little-endian views of four bytes.
abbrev pub word_bit : Bitmap → ℕ → ℕ → Bool
word_bit bm w b = bm (4 * w + b / 8) (b % 8)

-- __builtin_ctz(~word) for bits `b` on, of which there are `n`; none if they are all set, which for
-- all 32 is the test of the word against 0xFFFFFFFF.
unfoldable pub lowest_clear : ℕ → ℕ → Bitmap → ℕ → Option ℕ
lowest_clear zero b bm w = none
lowest_clear (suc n) b bm w =
    let rest = lowest_clear n (b + 1) bm w in if word_bit bm w b then rest else some b

-- What the loop does with the first clear bit that it meets.
unfoldable pub take_page : ℕ → ℕ → Pmm → ℕ × Pmm
take_page w b s =
    let bit_index = w * 32 + b in
    if leb s.max_page bit_index then (0, s) else (
      bit_index * page_size % 2 ^ 32,
      record s {
        bitmap = write_bit s.bitmap (4 * w + b / 8) (b % 8) true;
        used_pages = (s.used_pages + 1) % 2 ^ 32;
        total_allocs = (s.total_allocs + 1) % 2 ^ 32;
        refcounts = write_count s.refcounts bit_index 1;
      },
    )

unfoldable pub alloc_loop : ℕ → ℕ → Pmm → ℕ × Pmm
alloc_loop zero w s = (0, s)
alloc_loop (suc n) w s = elim (lowest_clear 32 0 s.bitmap w) [
  | none ↦ alloc_loop n (w + 1) s
  | some b ↦ take_page w b s
]

-- The physical address, or 0.
unfoldable pub pmm_alloc_page : Pmm → ℕ × Pmm
unfolding alloc_loop
pmm_alloc_page s = alloc_loop ((s.max_page + 31) % 2 ^ 32 / 32) 0 s

pub pmm_free_page : ℕ → Pmm → Pmm
pmm_free_page phys_addr s =
    let page_index = phys_addr / page_size in
    if not (phys_addr % page_size == 0) || leb s.max_page page_index
    then s
    else if bitmap_test page_index s.bitmap
    then record s {
      bitmap = bitmap_clear page_index s.bitmap;
      used_pages = s.used_pages - 1;
      total_frees = (s.total_frees + 1) % 2 ^ 32;
      refcounts = write_count s.refcounts page_index 0;
    }
    else s

pub pmm_inc_ref : ℕ → Pmm → Pmm
pmm_inc_ref phys_addr s =
    let page_index = phys_addr / page_size in
    if not (phys_addr % page_size == 0) || leb s.max_page page_index
    then s
    else if ltb (s.refcounts page_index) 0xFFFF
    then record s { refcounts = write_count s.refcounts page_index (s.refcounts page_index + 1) }
    else s

pub pmm_dec_ref : ℕ → Pmm → Pmm
unfolding pmm_free_page
pmm_dec_ref phys_addr s =
    let page_index = phys_addr / page_size in
    let count = s.refcounts page_index in
    let lower = record s { refcounts = write_count s.refcounts page_index (count - 1) } in
    if not (phys_addr % page_size == 0) || leb s.max_page page_index
    then s
    else if ltb 0 count
    then (if count - 1 == 0 then pmm_free_page phys_addr lower else lower)
    else s

unfoldable pub pmm_get_refcount : ℕ → Pmm → ℕ
pmm_get_refcount phys_addr s =
    let page_index = phys_addr / page_size in
    if not (phys_addr % page_size == 0) || leb s.max_page page_index
    then 0
    else s.refcounts page_index

pub pmm_get_free_pages : Pmm → ℕ
pmm_get_free_pages s = (s.total_available_pages + 2 ^ 32 - s.used_pages) % 2 ^ 32

pub pmm_get_used_pages : Pmm → ℕ
pmm_get_used_pages s = s.used_pages

pub pmm_get_total_pages : Pmm → ℕ
pmm_get_total_pages s = s.total_available_pages

pub pmm_get_max_pages : Pmm → ℕ
pmm_get_max_pages s = s.max_page

pub pmm_get_alloc_count : Pmm → ℕ
pmm_get_alloc_count s = s.total_allocs

pub pmm_get_free_count : Pmm → ℕ
pmm_get_free_count s = s.total_frees

-- The int as its 32 bits.
pub pmm_check_balance : Pmm → ℕ
pmm_check_balance s = (s.total_allocs + 2 ^ 32 - s.total_frees) % 2 ^ 32
