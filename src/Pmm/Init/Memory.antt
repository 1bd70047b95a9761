-- ===== src/Pmm/Init/Memory.antt =====
-- What pmm_init takes out of the boot loader's memory map.
use enclave_os.Prelude.{
  ℕ, zero, suc, ◌+◌, ◌*◌, ◌/◌, ◌^◌, ◌≡◌, ◌≤◌, ◌<◌, refl, sym, ap, Bool, true, false, Option, none,
  some, arith, ◌==◌, if◌then◌else◌, Bool-cases, inl, inr, List, [], ◌∷◌, ◌⊎◌, ==_iff,
}
use enclave_os.Pmm.{Pmm, page_size, pmm_max_pages, bitmap_test, pmm_free_region}
use enclave_os.Pmm.Account.{count_free}
use enclave_os.Pmm.Regions.{IsSetup, pmm_free_region-marks}
use enclave_os.Pmm.Init.{Entry, Multiboot, has_map, free_available, blank, map_pages, free_memory}

-- Available entries end below 2^43.
abbrev pub AreBounded : List Entry → Type 0
AreBounded [] = Unit
AreBounded (e ∷ es) = (e.addr + e.len < 2 ^ 43) × AreBounded es

-- The page lies in an available entry as a whole.
abbrev pub IsRam : List Entry → ℕ → Type 0
IsRam [] j = ⊥
IsRam (e ∷ es) j =
    ((e.kind ≡ 1) × (e.addr ≤ j * page_size) × ((j + 1) * page_size ≤ e.addr + e.len)) ⊎ IsRam es j

count_free-blank : (n : ℕ) → count_free n (λ i. true) ≡ 0
unfolding count_free
count_free-blank zero = refl
count_free-blank (suc n) = omega (arith, count_free-blank n)

blank-IsSetup : (max : ℕ) → max ≤ pmm_max_pages → IsSetup max (blank max)
unfolding blank
blank-IsSetup max h = record {
  limit = h;
  max_page = refl;
  unused = refl;
  total = sym (count_free-blank max);
}

free_available-IsSetup :
    (max : ℕ) (es : List Entry) (s : Pmm)
    → IsSetup max s
    → AreBounded es
    → IsSetup max (free_available es s)
unfolding free_available
free_available-IsSetup max [] s b h = b
free_available-IsSetup max (e ∷ es) s b h = elim (Bool-cases (e.kind == 1)) [
  | inl k ↦
      rw k (free_available-IsSetup max es _ (pmm_free_region-marks max e.addr e.len s b h.0).0 h.1)
  | inr k ↦ rw k (free_available-IsSetup max es s b h.1)
]

free_available-cons :
    (e : Entry) (es : List Entry) (s : Pmm) {b : Bool}
    → (e.kind == 1) ≡ b
    → free_available (e ∷ es) s
      ≡ free_available es (if b then pmm_free_region e.addr e.len s else s)
unfolding free_available
free_available-cons e es s k =
    ap (λ b. free_available es (if b then pmm_free_region e.addr e.len s else s)) k

free_available-IsRam :
    (max : ℕ) (es : List Entry) (s : Pmm) (j : ℕ)
    → IsSetup max s
    → AreBounded es
    → bitmap_test j s.bitmap ≡ true
    → bitmap_test j (free_available es s).bitmap ≡ false
    → IsRam es j
free_available-IsRam max [] s j b h m t = unfold free_available in cc
free_available-IsRam max (e ∷ es) s j b h m t = elim (Bool-cases (e.kind == 1)) [
  | inl k ↦
      let (b', freed) = pmm_free_region-marks max e.addr e.len s b h.0 in
      elim (Bool-cases (bitmap_test j (pmm_free_region e.addr e.len s).bitmap)) [
        | inl m' ↦
            inr (free_available-IsRam max es _ j b' h.1 m' (rw (free_available-cons e es s k) at t))
        | inr t' ↦ let (low, high) = freed j m t' in inl ((==_iff e.kind 1).0 k, low, high)
      ]
  | inr k ↦ inr (free_available-IsRam max es s j b h.1 m (rw (free_available-cons e es s k) at t))
]

-- The size of the pool.
abbrev pub pool_pages : Option Multiboot → ℕ
pool_pages none = 256 * 1024 * 1024 / page_size
pool_pages (some m) = if has_map m then map_pages m.entries else 256 * 1024 * 1024 / page_size

-- The bounds of the modules are uint32_t.
abbrev pub AreShort : List (ℕ × ℕ) → Type 0
AreShort [] = Unit
AreShort ((start, end) ∷ rest) = (end < 2 ^ 32) × AreShort rest

-- The boot loader's data is as its types say, and no entry of its map runs past 2^43.
abbrev pub IsReadable : Option Multiboot → Type 0
IsReadable none = Unit
IsReadable (some m) = AreBounded m.entries × AreShort m.modules

abbrev fallback_pages : ℕ
fallback_pages = 256 * 1024 * 1024 / page_size

fallback :
    IsSetup fallback_pages (pmm_free_region 0x00100000 (256 * 1024 * 1024) (blank fallback_pages))
fallback =
    (pmm_free_region-marks fallback_pages 0x00100000 (256 * 1024 * 1024) (blank fallback_pages)
      (blank-IsSetup fallback_pages (omega arith)) (omega arith)).0

map_pages-le : (es : List Entry) → map_pages es ≤ pmm_max_pages
unfolding map_pages
map_pages-le es = ground arith

pub free_memory-IsSetup :
    (info : Option Multiboot) → IsReadable info → IsSetup (pool_pages info) (free_memory info)
unfolding free_memory
free_memory-IsSetup none r = fallback
free_memory-IsSetup (some m) r = elim (Bool-cases (has_map m)) [
  | inl e ↦ rw e (
      free_available-IsSetup (map_pages m.entries) m.entries _
        (blank-IsSetup (map_pages m.entries) few) r.0)
  | inr e ↦ rw e fallback
]
  where
    few : map_pages m.entries ≤ pmm_max_pages
    few = map_pages-le m.entries

-- Before the reservations a page that is not marked lies in an available entry of the map.
pub free_memory-IsRam :
    (m : Multiboot) (j : ℕ)
    → IsReadable (some m)
    → has_map m ≡ true
    → bitmap_test j (free_memory (some m)).bitmap ≡ false
    → IsRam m.entries j
unfolding free_memory
free_memory-IsRam m j r e t =
    free_available-IsRam (map_pages m.entries) m.entries (blank (map_pages m.entries)) j
      (blank-IsSetup (map_pages m.entries) (map_pages-le m.entries)) r.0 (unfold blank in refl)
      (rw e at t)
