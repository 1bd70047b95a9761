-- ===== src/Paging/Space/Single.antt =====
-- paging.c: one entry of the directory when an address space is cloned.
use mathlib.Core.Option
use enclave_os.Prelude.{
  ℕ, ◌+◌, ◌/◌, ◌%◌, ◌≡◌, ◌≢◌, ◌≤◌, ◌<◌, refl, sym, ap, ◌∙◌, true, false, arith, if◌then◌else◌,
  Bool-cases, inl, inr, none,
}
use enclave_os.Pmm.{page_size, pmm_alloc_page, pmm_max_pages}
use enclave_os.Pmm.Alloc.{Allocated, pmm_alloc_page-Allocated, pmm_alloc_page-max_page}
use enclave_os.Paging.{
  Entry, Vmm, zero_entry, table_flags, set_entry, clear_frame, dir_index, table_index,
}
use enclave_os.Paging.Walk.{
  is_used, is_present, lookup, walk, shown, walk-present, walk-absent, shown-present, shown-absent,
  set_entry_self, set_entry-frame, set_entry-index, set_entry-pmm, set_entry-boot,
}
use enclave_os.Paging.Fresh.{Filled}
use enclave_os.Paging.Space.{cow_entry, share_loop, share_entry}
use enclave_os.Paging.Space.Share.{parent_entry, child_entry, Shared, share_loop-Shared}
use enclave_os.Paging.Space.Entries.{Pair, Confined, Own, Confined-same}

parent_entry-shown : (e : Entry) → shown (parent_entry e) ≡ Option.map cow_entry (shown e)
parent_entry-shown e = elim (Bool-cases e.flags.present) [
  | inl h ↦
      ap shown (ap (λ b. if b then cow_entry e else e) h)
      ∙ shown-present (cow_entry e) h
      ∙ ap (Option.map cow_entry) (sym (shown-present e h))
  | inr h ↦
      ap shown (ap (λ b. if b then cow_entry e else e) h)
      ∙ shown-absent e h
      ∙ ap (Option.map cow_entry) (sym (shown-absent e h))
]

child_entry-shown : (e : Entry) → shown (child_entry e zero_entry) ≡ Option.map cow_entry (shown e)
child_entry-shown e = elim (Bool-cases e.flags.present) [
  | inl h ↦
      ap shown (ap (λ b. if b then cow_entry e else zero_entry) h)
      ∙ shown-present (cow_entry e) h
      ∙ ap (Option.map cow_entry) (sym (shown-present e h))
  | inr h ↦
      ap shown (ap (λ b. if b then cow_entry e else zero_entry) h)
      ∙ shown-absent zero_entry refl
      ∙ ap (Option.map cow_entry) (sym (shown-absent e h))
]

-- The walks of the two processes for the addresses of the directory's entry `i`: the page that the
-- parent's showed, without PAGE_WRITE and with PAGE_COW.
pub record Entered (i parent child : ℕ) (s s' : Vmm) : Type 0 where
  pub confined : Confined i (i + 1) parent child s s'
  pub of_parent :
      (v : ℕ) → dir_index v ≡ i → lookup parent v s' ≡ Option.map cow_entry (lookup parent v s)
  pub of_child :
      (v : ℕ) → dir_index v ≡ i → lookup child v s' ≡ Option.map cow_entry (lookup parent v s)
  pub own : is_present child i s' ≡ true → Own i parent child s'

-- The child's new table is the frame `c`.
module _ (i parent child c : ℕ) (s s1 s2 : Vmm) (p : Pair parent child s)
    (here : is_present parent i s ≡ true) (filled : Filled c s s1)
    (empty : (j : ℕ) → s1.words c j ≡ zero_entry) (boot : s1.boot_pd ≡ s.boot_pd)
    (got : is_used c s1 ≡ true) (shared : Shared 0 1024 (s.words parent i).frame c s1 s2) where
  pt : ℕ
  pt = (s.words parent i).frame

  new_entry : Entry
  new_entry = record { frame = c; flags = table_flags }

  after : Vmm
  after = set_entry child i new_entry s2

  not_new : (g : ℕ) → is_used g s ≡ true → g ≢ c
  not_new g u q = absurd (cc (filled.fresh, u, q))

  -- Every frame in use but the parent's table and the child's directory.
  after-words : (g j : ℕ) → is_used g s ≡ true → g ≢ child → g ≢ pt → after.words g j ≡ s.words g j
  unfolding after pt
  after-words g j u q r =
      set_entry-frame child i new_entry s2 g j q
      ∙ shared.rest g j r (not_new g u)
      ∙ filled.words g j (not_new g u)

  after-root : (d : ℕ) → after.words parent d ≡ s.words parent d
  unfolding pt
  after-root d =
      after-words parent d p.tree.root (λ e. p.differ (sym e)) (λ e. p.tree.below i here (sym e))

  after-entry : after.words child i ≡ new_entry
  unfolding after
  after-entry = set_entry_self child i new_entry s2

  after-used : (g : ℕ) → is_used g after ≡ is_used g s1
  unfolding after
  after-used g =
      ap (λ m. m.bitmap (g / 8) (g % 8)) (set_entry-pmm child i new_entry s2) ∙ shared.used g

  after-child_out : (d : ℕ) → d ≢ i → after.words child d ≡ s.words child d
  unfolding after
  after-child_out d q =
      set_entry-index child i new_entry s2 d q
      ∙ shared.rest child d (λ e. p.no_table i here (sym e)) (not_new child p.child_used)
      ∙ filled.words child d (not_new child p.child_used)

  after-parent_table : (k : ℕ) → k < 1024 → after.words pt k ≡ parent_entry (s.words pt k)
  unfolding after pt
  after-parent_table k h =
      set_entry-frame child i new_entry s2 pt k (p.no_table i here)
      ∙ shared.parent k (omega arith) h
      ∙ ap parent_entry (filled.words pt k (not_new pt (p.tree.tables i here)))

  after-child_table : (k : ℕ) → k < 1024 → after.words c k ≡ child_entry (s.words pt k) zero_entry
  unfolding after pt
  after-child_table k h =
      set_entry-frame child i new_entry s2 c k (λ e. not_new child p.child_used (sym e))
      ∙ shared.child k (omega arith) h
      ∙ ap (λ e. child_entry e (s1.words c k))
          (filled.words pt k (not_new pt (p.tree.tables i here)))
      ∙ ap (child_entry (s.words pt k)) (empty k)

  after-Confined : Confined i (i + 1) parent child s after
  unfolding after pt
  after-Confined = record {
    root = after-root;
    child_out = λ d q. after-child_out d (λ e. absurd (ground (arith, q, e)));
    words = λ g j u n r. after-words g j u n (λ e. r i (omega arith) (omega arith) here (sym e));
    used = λ g u. after-used g ∙ filled.used g u;
    pages = ap (λ m. m.max_page) (set_entry-pmm child i new_entry s2) ∙ shared.pages ∙ filled.pages;
    boot = set_entry-boot child i new_entry s2 ∙ shared.boot ∙ boot;
  }

  table_pages : (v : ℕ) → table_index v < 1024
  table_pages v = omega arith

  after-Entered : Entered i parent child s after
  unfolding pt new_entry
  after-Entered = record {
    confined = after-Confined;
    of_parent = λ v q.
        let k = table_index v in
        let pde = s.words parent i in
        ap (λ d. walk (after.words parent d) (after.words (after.words parent d).frame k)) q
        ∙ ap (λ e. walk e (after.words e.frame k)) (after-root i)
        ∙ walk-present pde (after.words pde.frame k) here
        ∙ ap shown (after-parent_table k (table_pages v))
        ∙ parent_entry-shown (s.words pde.frame k)
        ∙ ap (Option.map cow_entry) (sym (walk-present pde (s.words pde.frame k) here))
        ∙ ap
            (λ d.
              Option.map cow_entry (walk (s.words parent d) (s.words (s.words parent d).frame k)))
            (sym q);
    of_child = λ v q.
        let k = table_index v in
        let pde = s.words parent i in
        ap (λ d. walk (after.words child d) (after.words (after.words child d).frame k)) q
        ∙ ap (λ e. walk e (after.words e.frame k)) after-entry
        ∙ walk-present new_entry (after.words c k) refl
        ∙ ap shown (after-child_table k (table_pages v))
        ∙ child_entry-shown (s.words pde.frame k)
        ∙ ap (Option.map cow_entry) (sym (walk-present pde (s.words pde.frame k) here))
        ∙ ap
            (λ d.
              Option.map cow_entry (walk (s.words parent d) (s.words (s.words parent d).frame k)))
            (sym q);
    own = λ _.
        let frame : (after.words child i).frame ≡ c = ap (λ e. e.frame) after-entry in
        record {
          used = ap (λ g. is_used g after) frame ∙ after-used c ∙ got;
          not_child = λ e. not_new child p.child_used (sym e ∙ frame);
          not_table = λ e r f.
              let was = ap (λ w. w.flags.present) (sym (after-root e)) ∙ r in
              not_new (s.words parent e).frame (p.tree.tables e was)
                (ap (λ w. w.frame) (sym (after-root e)) ∙ f ∙ frame);
        };
  }

share_entry-absent :
    (parent child i : ℕ) (s : Vmm)
    → is_present parent i s ≡ false
    → share_entry parent child i s ≡ (true, s)
unfolding share_entry
share_entry-absent parent child i s h = rw h refl

abbrev pub fresh_state : Vmm → Vmm
fresh_state s = record s {
  pmm = (pmm_alloc_page s.pmm).1;
  words = clear_frame s.words ((pmm_alloc_page s.pmm).0 / page_size);
}

share_entry-made :
    (parent child i : ℕ) (s : Vmm)
    → is_present parent i s ≡ true
    → (s.words parent i).flags.ps ≡ false
    → (share_entry parent child i s).0 ≡ true
    → ((pmm_alloc_page s.pmm).0 ≢ 0)
      × (share_entry parent child i s ≡ (
        true,
        set_entry child i
            (record { frame = (pmm_alloc_page s.pmm).0 / page_size; flags = table_flags })
            (share_loop 1024 0
              (s.words parent i).frame
              ((pmm_alloc_page s.pmm).0 / page_size)
              (fresh_state s)),
      ))
unfolding share_entry
share_entry-made parent child i s p q h = ground (arith, p, q, h)

fresh-Filled :
    (a : ℕ) (s s1 : Vmm)
    → Allocated s.pmm a s1.pmm
    → s1.pmm.max_page ≡ s.pmm.max_page
    → s1.words ≡ clear_frame s.words (a / page_size)
    → Filled (a / page_size) s s1
      × ((j : ℕ) → s1.words (a / page_size) j ≡ zero_entry)
      × (is_used (a / page_size) s1 ≡ true)
fresh-Filled a s s1 got m w = (
  record {
    fresh = got.was_free;
    words = λ g j q. ap (λ k. k g j) w ∙ other g j q;
    used = λ g u. ground (arith, got.marked g, u);
    pages = m;
  },
  λ j. ap (λ k. k (a / page_size) j) w ∙ self j,
  ground (arith, got.marked (a / page_size)),
)
  where
    other : (g j : ℕ) → g ≢ a / page_size → clear_frame s.words (a / page_size) g j ≡ s.words g j
    other g j q = ground (arith, q)

    self : (j : ℕ) → clear_frame s.words (a / page_size) (a / page_size) j ≡ zero_entry
    self j = ground arith

pub fresh_page :
    (s : Vmm)
    → s.pmm.max_page ≤ pmm_max_pages
    → (pmm_alloc_page s.pmm).0 ≢ 0
    → Filled ((pmm_alloc_page s.pmm).0 / page_size) s (fresh_state s)
      × ((j : ℕ) → (fresh_state s).words ((pmm_alloc_page s.pmm).0 / page_size) j ≡ zero_entry)
      × (is_used ((pmm_alloc_page s.pmm).0 / page_size) (fresh_state s) ≡ true)
fresh_page s l n =
    fresh-Filled (pmm_alloc_page s.pmm).0 s (fresh_state s) (pmm_alloc_page-Allocated s.pmm l n)
      (pmm_alloc_page-max_page s.pmm l) refl

Entered-absent :
    (i parent child : ℕ) (s : Vmm)
    → is_present parent i s ≡ false
    → is_present child i s ≡ false
    → Entered i parent child s s
Entered-absent i parent child s p q = record {
  confined = Confined-same i (i + 1) parent child s;
  of_parent = λ v e.
      nothing parent v (ap (λ d. is_present parent d s) e ∙ p)
      ∙ ap (Option.map cow_entry) (sym (nothing parent v (ap (λ d. is_present parent d s) e ∙ p)));
  of_child = λ v e.
      nothing child v (ap (λ d. is_present child d s) e ∙ q)
      ∙ ap (Option.map cow_entry) (sym (nothing parent v (ap (λ d. is_present parent d s) e ∙ p)));
  own = λ h. absurd (cc (h, q));
}
  where
    nothing : (pd v : ℕ) → is_present pd (dir_index v) s ≡ false → lookup pd v s ≡ none
    nothing pd v h =
        walk-absent (s.words pd (dir_index v))
          (s.words (s.words pd (dir_index v)).frame (table_index v)) h

-- One entry that is not a page of 4 MB and that the child does not have yet.
pub share_entry-Entered :
    (parent child i : ℕ) (s : Vmm)
    → Pair parent child s
    → (s.words parent i).flags.ps ≡ false
    → is_present child i s ≡ false
    → (share_entry parent child i s).0 ≡ true
    → Entered i parent child s (share_entry parent child i s).1
unfolding new_entry
share_entry-Entered parent child i s p q r h = elim (Bool-cases (is_present parent i s)) [
  | inl here ↦
      let (n, e) = share_entry-made parent child i s here q h in
      let (filled, empty, got) = fresh_page s p.tree.limit n in
      let c = (pmm_alloc_page s.pmm).0 / page_size in
      let pt = (s.words parent i).frame in
      let differ : pt ≢ c = λ f. absurd (cc (filled.fresh, p.tree.tables i here, f)) in
      let all =
        after-Entered i parent child c s (fresh_state s) (share_loop 1024 0 pt c (fresh_state s)) p
          here filled empty refl got
          (share_loop-Shared 1024 0 1024 pt c (fresh_state s) differ (omega arith)) in
      rw e (unfold after in all)
  | inr gone ↦
      rw (share_entry-absent parent child i s gone) (Entered-absent i parent child s gone r)
]
