-- ===== src/Paging/Space/Directory.antt =====
-- paging.c: a new page directory.
use enclave_os.Prelude.{
  ℕ, zero, suc, ◌+◌, ◌/◌, ◌%◌, ◌≡◌, ◌≢◌, ◌≤◌, ◌<◌, refl, sym, ap, ◌∙◌, true, false, ◌&&◌, arith,
  ◌==◌, leb, ltb, Bool-cases, inl, inr, ==_iff, some,
}
use enclave_os.Pmm.{page_size, pmm_alloc_page, pmm_max_pages}
use enclave_os.Paging.{Vmm, zero_entry, set_entry}
use enclave_os.Paging.Walk.{
  is_used, set_entry_self, set_entry-frame, set_entry-index, set_entry-pmm, set_entry-boot,
}
use enclave_os.Paging.Fresh.{Filled}
use enclave_os.Paging.Space.{kernel_loop, new_directory}
use enclave_os.Paging.Space.Single.{fresh_state, fresh_page}

-- The entries from `lo` to `hi` of the directory are those of boot_page_directory.
pub record Kernel (lo hi pd : ℕ) (s s' : Vmm) : Type 0 where
  pub inside : (d : ℕ) → lo ≤ d → d < hi → s'.words pd d ≡ s.words s.boot_pd d
  pub outside : (d : ℕ) → (leb lo d && ltb d hi) ≡ false → s'.words pd d ≡ s.words pd d
  pub words : (g j : ℕ) → g ≢ pd → s'.words g j ≡ s.words g j
  pub pmm : s'.pmm ≡ s.pmm
  pub boot : s'.boot_pd ≡ s.boot_pd

kernel_loop-suc :
    (n i pd : ℕ) (s : Vmm)
    → kernel_loop (suc n) i pd s ≡ kernel_loop n (i + 1) pd (set_entry pd i (s.words s.boot_pd i) s)
unfolding kernel_loop
kernel_loop-suc n i pd s = refl

Kernel-next :
    (i hi pd : ℕ) (s s' : Vmm)
    → s.boot_pd ≢ pd
    → i < hi
    → Kernel (i + 1) hi pd (set_entry pd i (s.words s.boot_pd i) s) s'
    → Kernel i hi pd s s'
Kernel-next i hi pd s s' b h k =
    let e = s.words s.boot_pd i in
    let s1 = set_entry pd i e s in
    let boot = set_entry-boot pd i e s in
    record {
      inside = λ d l m. elim (Bool-cases (d == i)) [
        | inl same ↦
            let q = (==_iff d i).0 same in
            k.outside d (ground (arith, q))
            ∙ ap (s1.words pd) q
            ∙ set_entry_self pd i e s
            ∙ ap (s.words s.boot_pd) (sym q)
        | inr other ↦
            let q : d ≢ i = λ q. absurd (ground (arith, other, q)) in
            k.inside d (omega (arith, l, q)) m
            ∙ ap (λ f. s1.words f d) boot
            ∙ set_entry-frame pd i e s s.boot_pd d b
      ];
      outside = λ d q.
          let n : d ≢ i = λ x. absurd (ground (arith, q, x, h)) in
          k.outside d (ground (arith, q)) ∙ set_entry-index pd i e s d n;
      words = λ g j q. k.words g j q ∙ set_entry-frame pd i e s g j q;
      pmm = k.pmm ∙ set_entry-pmm pd i e s;
      boot = k.boot ∙ boot;
    }

pub kernel_loop-Kernel :
    (n i hi pd : ℕ) (s : Vmm)
    → hi ≡ i + n
    → s.boot_pd ≢ pd
    → Kernel i hi pd s (kernel_loop n i pd s)
kernel_loop-Kernel zero i hi pd s e b =
    let same : hi ≡ i = omega arith in
    rw same (
      unfold kernel_loop in
      record {
        inside = λ d l m. absurd (omega (arith, l, m));
        outside = λ d q. refl;
        words = λ g j q. refl;
        pmm = refl;
        boot = refl;
      })
kernel_loop-Kernel (suc n) i hi pd s e b =
    let w = s.words s.boot_pd i in
    let still : (set_entry pd i w s).boot_pd ≢ pd = λ q. b (sym (set_entry-boot pd i w s) ∙ q) in
    rw (kernel_loop-suc n i pd s) (
      Kernel-next i hi pd s _ b (omega arith)
        (kernel_loop-Kernel n (i + 1) hi pd (set_entry pd i w s) (omega arith) still))

-- The directory is a page that was free; its entries below 768 are zero, and those from 768 on are
-- those of boot_page_directory. No other frame has changed, and no page has become free.
pub record NewDirectory (pd : ℕ) (s s' : Vmm) : Type 0 where
  pub filled : Filled pd s s'
  pub used : is_used pd s' ≡ true
  pub user : (d : ℕ) → d < 768 → s'.words pd d ≡ zero_entry
  pub kernel : (d : ℕ) → 768 ≤ d → d < 1024 → s'.words pd d ≡ s.words s.boot_pd d
  pub boot : s'.boot_pd ≡ s.boot_pd

new_directory-made :
    (pd : ℕ) (s : Vmm)
    → (new_directory s).0 ≡ some pd
    → ((pmm_alloc_page s.pmm).0 ≢ 0)
      × ((pmm_alloc_page s.pmm).0 / page_size ≡ pd)
      × ((new_directory s).1
          ≡ kernel_loop 256 768 ((pmm_alloc_page s.pmm).0 / page_size) (fresh_state s))
unfolding new_directory
new_directory-made pd s h = ground (arith, h)

made-NewDirectory :
    (pd : ℕ) (s s1 s2 : Vmm)
    → is_used s.boot_pd s ≡ true
    → Filled pd s s1
    → ((j : ℕ) → s1.words pd j ≡ zero_entry)
    → is_used pd s1 ≡ true
    → s1.boot_pd ≡ s.boot_pd
    → Kernel 768 1024 pd s1 s2
    → NewDirectory pd s s2
made-NewDirectory pd s s1 s2 b f empty u boot k =
    let not_boot : s.boot_pd ≢ pd = λ q. absurd (cc (f.fresh, b, q)) in
    record {
      filled = record {
        fresh = f.fresh;
        words = λ g j q. k.words g j q ∙ f.words g j q;
        used = λ g q. ap (λ m. m.bitmap (g / 8) (g % 8)) k.pmm ∙ f.used g q;
        pages = ap (λ m. m.max_page) k.pmm ∙ f.pages;
      };
      used = ap (λ m. m.bitmap (pd / 8) (pd % 8)) k.pmm ∙ u;
      user = λ d h. k.outside d (ground (arith, h)) ∙ empty d;
      kernel = λ d l h. k.inside d l h ∙ ap (λ g. s1.words g d) boot ∙ f.words s.boot_pd d not_boot;
      boot = k.boot ∙ boot;
    }

pub new_directory-NewDirectory :
    (pd : ℕ) (s : Vmm)
    → s.pmm.max_page ≤ pmm_max_pages
    → is_used s.boot_pd s ≡ true
    → (new_directory s).0 ≡ some pd
    → NewDirectory pd s (new_directory s).1
new_directory-NewDirectory pd s l b h =
    let (n, same, e) = new_directory-made pd s h in
    let (filled, empty, got) = fresh_page s l n in
    let f = (pmm_alloc_page s.pmm).0 / page_size in
    let not_boot : s.boot_pd ≢ f = λ q. absurd (cc (filled.fresh, b, q)) in
    let k = kernel_loop-Kernel 256 768 1024 f (fresh_state s) (omega arith) not_boot in
    rw (e, ← same)
      (made-NewDirectory f s (fresh_state s) (kernel_loop 256 768 f (fresh_state s)) b filled empty
        got refl k)
