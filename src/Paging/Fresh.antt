-- ===== src/Paging/Fresh.antt =====
-- paging.c: a page from the allocator is none of the pages of an address space.
use enclave_os.Prelude.{ℕ, ◌≡◌, ◌≢◌, sym, ap, ◌∙◌, true, false, Bool-cases, inl, inr}
use enclave_os.Paging.{Vmm, dir_index, table_index, entry_of}
use enclave_os.Paging.Walk.{IsTree, is_present, is_used, lookup, walk, walk-absent}

-- Only the frame `f`, which was free, has other words, and no page has become free.
pub record Filled (f : ℕ) (s s' : Vmm) : Type 0 where
  pub fresh : is_used f s ≡ false
  pub words : (g j : ℕ) → g ≢ f → s'.words g j ≡ s.words g j
  pub used : (g : ℕ) → is_used g s ≡ true → is_used g s' ≡ true
  pub pages : s'.pmm.max_page ≡ s.pmm.max_page

module _ (pd f : ℕ) (s s' : Vmm) (t : IsTree pd s) (n : Filled f s s') where
  in_use_differs : (g : ℕ) → is_used g s ≡ true → g ≢ f
  in_use_differs g u q = absurd (cc (n.fresh, u, q))

  pub Filled-root : (d : ℕ) → s'.words pd d ≡ s.words pd d
  Filled-root d = n.words pd d (in_use_differs pd t.root)

  pub Filled-table :
      (d j : ℕ)
      → is_present pd d s ≡ true
      → s'.words (s.words pd d).frame j ≡ s.words (s.words pd d).frame j
  Filled-table d j p = n.words (s.words pd d).frame j (in_use_differs _ (t.tables d p))

  pub Filled-lookup : (v : ℕ) → lookup pd v s' ≡ lookup pd v s
  Filled-lookup v =
      let pde = s.words pd (dir_index v) in
      let i = table_index v in
      ap (λ e. walk e (s'.words e.frame i)) (Filled-root (dir_index v))
      ∙ elim (Bool-cases pde.flags.present) [
        | inl here ↦ ap (walk pde) (Filled-table (dir_index v) i here)
        | inr gone ↦
            walk-absent pde (s'.words pde.frame i) gone
            ∙ sym (walk-absent pde (entry_of pd v s) gone)
      ]

  back : (d : ℕ) → is_present pd d s' ≡ true → is_present pd d s ≡ true
  back d p = ap (λ e. e.flags.present) (sym (Filled-root d)) ∙ p

  same_frame : (d : ℕ) → (s'.words pd d).frame ≡ (s.words pd d).frame
  same_frame d = ap (λ e. e.frame) (Filled-root d)

  pub Filled-IsTree : IsTree pd s'
  Filled-IsTree = record {
    limit = let m = n.pages in let l = t.limit in rw m l;
    root = n.used pd t.root;
    tables = λ d p. ap (λ k. is_used k s') (same_frame d) ∙ n.used _ (t.tables d (back d p));
    below = λ d p e. t.below d (back d p) (sym (same_frame d) ∙ e);
    once =
        λ d d' p p' e. t.once d d' (back d p) (back d' p') (sym (same_frame d) ∙ e ∙ same_frame d');
  }
