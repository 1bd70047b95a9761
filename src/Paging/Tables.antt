-- ===== src/Paging/Tables.antt =====
-- paging.c: a new page table in a directory.
pub mod Keep
use enclave_os.Prelude.{
  ℕ, ◌/◌, ◌≡◌, ◌≢◌, ◌≤◌, refl, sym, ap, ◌∙◌, true, false, arith, ◌==◌, if◌then◌else◌, Bool-cases,
  Option, none, inl, inr,
}
use enclave_os.Pmm.{page_size, pmm_max_pages, pmm_alloc_page}
use enclave_os.Pmm.Alloc.{Allocated, pmm_alloc_page-Allocated, pmm_alloc_page-max_page}
use enclave_os.Paging.{
  Entry, Vmm, zero_entry, table_flags, clear_frame, set_entry, dir_index, table_index, entry_of,
  new_table, ensure_table,
}
use enclave_os.Paging.Walk.{
  IsTree, is_present, is_used, lookup, walk, shown, walk-present, walk-absent, set_entry_self,
  set_entry-frame, set_entry-index, set_entry-pmm,
}

-- The directory's entry `d` has got the frame `f`, which was free, as an empty page table.
pub record Grown (pd d f : ℕ) (s s' : Vmm) : Type 0 where
  pub fresh : is_used f s ≡ false
  pub here : s'.words pd d ≡ record { frame = f; flags = table_flags }
  pub roots : (d' : ℕ) → d' ≢ d → s'.words pd d' ≡ s.words pd d'
  pub empty : (j : ℕ) → s'.words f j ≡ zero_entry
  pub rest : (g j : ℕ) → g ≢ pd → g ≢ f → s'.words g j ≡ s.words g j
  pub used : (g : ℕ) → is_used g s' ≡ (if g == f then true else is_used g s)
  pub counts : (g : ℕ) → s'.pmm.refcounts g ≡ (if g == f then 1 else s.pmm.refcounts g)
  pub pages : s'.pmm.max_page ≡ s.pmm.max_page
  pub boot : s'.boot_pd ≡ s.boot_pd

clear_frame_self : (f j : ℕ) (s : Vmm) → clear_frame s.words f f j ≡ zero_entry
clear_frame_self f j s = ground arith

clear_frame-other : (f g j : ℕ) (s : Vmm) → g ≢ f → clear_frame s.words f g j ≡ s.words g j
clear_frame-other f g j s h = ground (arith, h)

new_table-address :
    (pd d : ℕ) (s : Vmm) → (new_table pd d s).0 ≡ true → (pmm_alloc_page s.pmm).0 ≢ 0
unfolding new_table
new_table-address pd d s h z = ground (arith, h, z)

new_table-state :
    (pd d : ℕ) (s : Vmm)
    → (pmm_alloc_page s.pmm).0 ≢ 0
    → (new_table pd d s).1
      ≡ set_entry pd d
          (record { frame = (pmm_alloc_page s.pmm).0 / page_size; flags = table_flags })
          (record s {
            pmm = (pmm_alloc_page s.pmm).1;
            words = clear_frame s.words ((pmm_alloc_page s.pmm).0 / page_size);
          })
unfolding new_table
new_table-state pd d s h = ground (arith, h)

grown :
    (pd d a : ℕ) (s s' : Vmm)
    → s.pmm.max_page ≤ pmm_max_pages
    → is_used pd s ≡ true
    → s'.words ≡ clear_frame s.words (a / page_size)
    → s'.boot_pd ≡ s.boot_pd
    → s'.pmm.max_page ≡ s.pmm.max_page
    → Allocated s.pmm a s'.pmm
    → Grown pd d
        (a / page_size)
        s
        (set_entry pd d (record { frame = a / page_size; flags = table_flags }) s')
unfolding set_entry
grown pd d a s s' l u w b m got =
    let f = a / page_size in
    let apart : pd ≢ f = λ q. absurd (cc (got.was_free, u, q)) in
    record {
      fresh = got.was_free;
      here = set_entry_self pd d _ s';
      roots = λ d' q.
          set_entry-index pd d _ s' d' q ∙ ap (λ m. m pd d') w ∙ clear_frame-other f pd d' s apart;
      empty = λ j.
          set_entry-frame pd d _ s' f j (λ q. apart (sym q))
          ∙ ap (λ m. m f j) w
          ∙ clear_frame_self f j s;
      rest = λ g j p q.
          set_entry-frame pd d _ s' g j p ∙ ap (λ m. m g j) w ∙ clear_frame-other f g j s q;
      used = got.marked;
      counts = got.counts;
      pages = m;
      boot = b;
    }

-- A page table that new_table has made.
pub new_table-Grown :
    (pd d : ℕ) (s : Vmm)
    → s.pmm.max_page ≤ pmm_max_pages
    → is_used pd s ≡ true
    → (new_table pd d s).0 ≡ true
    → Grown pd d ((pmm_alloc_page s.pmm).0 / page_size) s (new_table pd d s).1
new_table-Grown pd d s l u h =
    let n = new_table-address pd d s h in
    let f = (pmm_alloc_page s.pmm).0 / page_size in
    rw (new_table-state pd d s n) (
      grown pd d (pmm_alloc_page s.pmm).0 s
        (record s { pmm = (pmm_alloc_page s.pmm).1; words = clear_frame s.words f }) l u refl refl
        (pmm_alloc_page-max_page s.pmm l) (pmm_alloc_page-Allocated s.pmm l n))
