-- ===== src/Paging/Tables/Keep.antt =====
-- paging.c: what a new page table leaves as it was.
use enclave_os.Prelude.{
  ℕ, ◌≡◌, ◌≢◌, refl, sym, ap, ◌∙◌, true, false, arith, ◌==◌, Bool-cases, inl, inr, if-true,
  if-false, ==_iff,
}
use enclave_os.Paging.{
  Vmm, zero_entry, table_flags, dir_index, table_index, entry_of, ensure_table, new_table,
}
use enclave_os.Paging.Walk.{
  IsTree, is_present, is_used, lookup, walk, shown, shown-absent, walk-present, walk-absent,
}
use enclave_os.Paging.Tables.{Grown, new_table-Grown}

-- Between the two states the directory `pd` has kept what its walk shows and has still different
-- tables; the other frames in use have kept their words, and the pages in use their references.
pub record Kept (pd : ℕ) (s s' : Vmm) : Type 0 where
  pub tree : IsTree pd s'
  pub lookups : (v : ℕ) → lookup pd v s' ≡ lookup pd v s
  pub tables : (d : ℕ) → is_present pd d s ≡ true → s'.words pd d ≡ s.words pd d
  pub words : (g j : ℕ) → is_used g s ≡ true → g ≢ pd → s'.words g j ≡ s.words g j
  pub used : (g : ℕ) → is_used g s ≡ true → is_used g s' ≡ true
  pub counts : (g : ℕ) → is_used g s ≡ true → s'.pmm.refcounts g ≡ s.pmm.refcounts g
  pub pages : s'.pmm.max_page ≡ s.pmm.max_page
  pub boot : s'.boot_pd ≡ s.boot_pd

Kept-same : (pd : ℕ) (s : Vmm) → IsTree pd s → Kept pd s s
Kept-same pd s t = record {
  tree = t;
  lookups = λ v. refl;
  tables = λ d p. refl;
  words = λ g j u n. refl;
  used = λ g u. u;
  counts = λ g u. refl;
  pages = refl;
  boot = refl;
}

module _ (pd d f : ℕ) (s s' : Vmm) (t : IsTree pd s) (absent : is_present pd d s ≡ false)
    (g : Grown pd d f s s') where
  -- A frame in use is not the new one.
  not_fresh : (h : ℕ) → is_used h s ≡ true → h ≢ f
  not_fresh h u q = absurd (cc (u, g.fresh, q))

  still_used : (h : ℕ) → is_used h s ≡ true → is_used h s' ≡ true
  still_used h u = ground (arith, g.used h, u)

  still_there : (d' : ℕ) → is_present pd d' s ≡ true → s'.words pd d' ≡ s.words pd d'
  still_there d' p = g.roots d' (λ q. absurd (cc (absent, p, q)))

  -- An entry of the directory is the new one, or one that was there before.
  was_there : (d' : ℕ) → d' ≢ d → is_present pd d' s' ≡ true → is_present pd d' s ≡ true
  was_there d' q p = ap (λ e. e.flags.present) (sym (g.roots d' q)) ∙ p

  new_here : (s'.words pd d).frame ≡ f
  new_here = ap (λ e. e.frame) g.here

  old_frame : (d' : ℕ) → d' ≢ d → (s'.words pd d').frame ≡ (s.words pd d').frame
  old_frame d' q = ap (λ e. e.frame) (g.roots d' q)

  tables_used : (d' : ℕ) → is_present pd d' s' ≡ true → is_used (s'.words pd d').frame s' ≡ true
  tables_used d' p = elim (Bool-cases (d' == d)) [
    | inl same ↦
        let q = (==_iff d' d).0 same in
        ap (λ k. is_used (s'.words pd k).frame s') q
        ∙ ap (λ k. is_used k s') new_here
        ∙ g.used f
        ∙ if-true _ _ ((==_iff f f).1 refl)
    | inr other ↦
        let q : d' ≢ d = λ q. absurd (ground (arith, other, q)) in
        ap (λ k. is_used k s') (old_frame d' q)
        ∙ still_used (s.words pd d').frame (t.tables d' (was_there d' q p))
  ]

  tables_below : (d' : ℕ) → is_present pd d' s' ≡ true → (s'.words pd d').frame ≢ pd
  tables_below d' p = elim (Bool-cases (d' == d)) [
    | inl same ↦
        let q = (==_iff d' d).0 same in
        λ e. not_fresh pd t.root (sym e ∙ ap (λ k. (s'.words pd k).frame) q ∙ new_here)
    | inr other ↦
        let q : d' ≢ d = λ q. absurd (ground (arith, other, q)) in
        λ e. t.below d' (was_there d' q p) (sym (old_frame d' q) ∙ e)
  ]

  -- The new table is none of the old ones.
  tables_new : (d' : ℕ) → d' ≢ d → is_present pd d' s' ≡ true → (s'.words pd d').frame ≢ f
  tables_new d' q p e =
      not_fresh (s.words pd d').frame (t.tables d' (was_there d' q p)) (sym (old_frame d' q) ∙ e)

  tables_once :
      (d1 d2 : ℕ)
      → is_present pd d1 s' ≡ true
      → is_present pd d2 s' ≡ true
      → (s'.words pd d1).frame ≡ (s'.words pd d2).frame
      → d1 ≡ d2
  tables_once d1 d2 p1 p2 e = elim (Bool-cases (d1 == d)) [
    | inl same1 ↦ elim (Bool-cases (d2 == d)) [
      | inl same2 ↦ ground (arith, same1, same2)
      | inr other2 ↦
          let q : d2 ≢ d = λ q. absurd (ground (arith, other2, q)) in
          let at : d1 ≡ d = (==_iff d1 d).0 same1 in
          absurd (tables_new d2 q p2 (sym e ∙ ap (λ k. (s'.words pd k).frame) at ∙ new_here))
    ]
    | inr other1 ↦ elim (Bool-cases (d2 == d)) [
      | inl same2 ↦
          let q : d1 ≢ d = λ q. absurd (ground (arith, other1, q)) in
          let at : d2 ≡ d = (==_iff d2 d).0 same2 in
          absurd (tables_new d1 q p1 (e ∙ ap (λ k. (s'.words pd k).frame) at ∙ new_here))
      | inr other2 ↦
          let q1 : d1 ≢ d = λ q. absurd (ground (arith, other1, q)) in
          let q2 : d2 ≢ d = λ q. absurd (ground (arith, other2, q)) in
          t.once d1 d2 (was_there d1 q1 p1) (was_there d2 q2 p2)
            (sym (old_frame d1 q1) ∙ e ∙ old_frame d2 q2)
    ]
  ]

  grown_lookup_new : (v : ℕ) → dir_index v ≡ d → lookup pd v s' ≡ lookup pd v s
  grown_lookup_new v q =
      let pde = s.words pd (dir_index v) in
      let gone : pde.flags.present ≡ false = ap (λ k. is_present pd k s) q ∙ absent in
      let i = table_index v in
      let at : s'.words pd (dir_index v) ≡ record { frame = f; flags = table_flags } =
        ap (s'.words pd) q ∙ g.here in
      ap (λ e. walk e (s'.words e.frame i)) at
      ∙ walk-present (record { frame = f; flags = table_flags }) (s'.words f i) refl
      ∙ ap shown (g.empty i)
      ∙ shown-absent zero_entry refl
      ∙ sym (walk-absent pde (entry_of pd v s) gone)

  grown_lookup_old : (v : ℕ) → dir_index v ≢ d → lookup pd v s' ≡ lookup pd v s
  grown_lookup_old v q =
      let pde = s.words pd (dir_index v) in
      let i = table_index v in
      ap (λ e. walk e (s'.words e.frame i)) (g.roots (dir_index v) q)
      ∙ elim (Bool-cases pde.flags.present) [
        | inl here ↦
            let u = t.tables (dir_index v) here in
            ap (walk pde) (g.rest pde.frame i (t.below (dir_index v) here) (not_fresh pde.frame u))
        | inr gone ↦ walk-absent pde _ gone ∙ sym (walk-absent pde _ gone)
      ]

  Grown-Kept : Kept pd s s'
  Grown-Kept = record {
    tree = record {
      limit = let m = g.pages in let l = t.limit in rw m l;
      root = still_used pd t.root;
      tables = tables_used;
      below = tables_below;
      once = tables_once;
    };
    lookups = λ v. elim (Bool-cases (dir_index v == d)) [
      | inl same ↦ grown_lookup_new v ((==_iff (dir_index v) d).0 same)
      | inr other ↦ grown_lookup_old v (λ q. absurd (ground (arith, other, q)))
    ];
    tables = still_there;
    words = λ h j u n. g.rest h j n (not_fresh h u);
    used = still_used;
    counts = λ h u. g.counts h ∙ if-false _ _ (differ h u);
    pages = g.pages;
    boot = g.boot;
  }
    where
      differ : (h : ℕ) → is_used h s ≡ true → (h == f) ≡ false
      differ h u = ground (arith, not_fresh h u)

ensure-there : (pd d : ℕ) (s : Vmm) → is_present pd d s ≡ true → ensure_table pd d s ≡ (true, s)
unfolding ensure_table
ensure-there pd d s h = rw h refl

ensure-new :
    (pd d : ℕ) (s : Vmm) → is_present pd d s ≡ false → ensure_table pd d s ≡ new_table pd d s
unfolding ensure_table
ensure-new pd d s h = rw h refl

-- ensure_table that succeeds keeps the directory, and its entry is present afterwards.
pub ensure_table-Kept :
    (pd d : ℕ) (s : Vmm)
    → IsTree pd s
    → (ensure_table pd d s).0 ≡ true
    → Kept pd s (ensure_table pd d s).1 × (is_present pd d (ensure_table pd d s).1 ≡ true)
ensure_table-Kept pd d s t h = elim (Bool-cases (is_present pd d s)) [
  | inl here ↦ let e = ensure-there pd d s here in rw e (Kept-same pd s t, here)
  | inr gone ↦
      let e = ensure-new pd d s gone in
      let g = new_table-Grown pd d s t.limit t.root (sym (ap (λ r. r.0) e) ∙ h) in
      rw e (Grown-Kept pd d _ s (new_table pd d s).1 t gone g, ap (λ w. w.flags.present) g.here)
]

-- ensure_table that fails leaves every word of the memory.
pub ensure_table-words :
    (pd d : ℕ) (s : Vmm)
    → (ensure_table pd d s).0 ≡ false
    → ((ensure_table pd d s).1.words ≡ s.words) × (is_present pd d s ≡ false)
unfolding ensure_table new_table
ensure_table-words pd d s h = ground arith
