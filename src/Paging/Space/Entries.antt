-- ===== src/Paging/Space/Entries.antt =====
-- paging.c: the loop over the directory's entries when an address space is cloned.

use enclave_os.Prelude.{
  ℕ, ◌≡◌, ◌≢◌, ◌≤◌, ◌<◌, refl, sym, ap, ◌∙◌, true, false, ◌&&◌, arith, leb, ltb, Bool-cases, inl,
  inr,
}
use enclave_os.Paging.{Vmm, dir_index, table_index}
use enclave_os.Paging.Walk.{IsTree, is_used, is_present, lookup, walk, walk-absent}

-- A parent whose tables are different and none of them the child's directory, which is another one.
pub record Pair (parent child : ℕ) (s : Vmm) : Type 0 where
  pub tree : IsTree parent s
  pub child_used : is_used child s ≡ true
  pub differ : child ≢ parent
  pub no_table : (d : ℕ) → is_present parent d s ≡ true → (s.words parent d).frame ≢ child

-- The step is for the directory's entries from `lo` to `hi`: it leaves the parent's directory, the
-- other entries of the child's, and the frames in use other than the parent's tables of these entries.
pub record Confined (lo hi parent child : ℕ) (s s' : Vmm) : Type 0 where
  pub root : (d : ℕ) → s'.words parent d ≡ s.words parent d
  pub child_out : (d : ℕ) → (leb lo d && ltb d hi) ≡ false → s'.words child d ≡ s.words child d
  pub words :
      (g j : ℕ)
      → is_used g s ≡ true
      → g ≢ child
      → ((d : ℕ) → lo ≤ d → d < hi → is_present parent d s ≡ true → (s.words parent d).frame ≢ g)
      → s'.words g j ≡ s.words g j
  pub used : (g : ℕ) → is_used g s ≡ true → is_used g s' ≡ true
  pub pages : s'.pmm.max_page ≡ s.pmm.max_page
  pub boot : s'.boot_pd ≡ s.boot_pd

pub Confined-same : (lo hi parent child : ℕ) (s : Vmm) → Confined lo hi parent child s s
Confined-same lo hi parent child s = record {
  root = λ d. refl;
  child_out = λ d q. refl;
  words = λ g j u n r. refl;
  used = λ g u. u;
  pages = refl;
  boot = refl;
}

-- The entry `d` has been dealt with: the child has no table there, or one of its own, which is in use
-- and is neither directory and none of the parent's tables.
pub record Own (d parent child : ℕ) (s : Vmm) : Type 0 where
  pub used : is_used (s.words child d).frame s ≡ true
  pub not_child : (s.words child d).frame ≢ child
  pub not_table :
      (e : ℕ) → is_present parent e s ≡ true → (s.words parent e).frame ≢ (s.words child d).frame

module _ (lo hi parent child : ℕ) (s s' : Vmm) (c : Confined lo hi parent child s s') where
  pub Confined-Pair : Pair parent child s → Pair parent child s'
  Confined-Pair p =
      let t = p.tree in
      let frame : (d : ℕ) → (s'.words parent d).frame ≡ (s.words parent d).frame =
        λ d. ap (λ e. e.frame) (c.root d) in
      let was : (d : ℕ) → is_present parent d s' ≡ true → is_present parent d s ≡ true =
        λ d q. ap (λ e. e.flags.present) (sym (c.root d)) ∙ q in
      record {
        tree = record {
          limit = let m = c.pages in let l = t.limit in rw m l;
          root = c.used parent t.root;
          tables = λ d q. ap (λ k. is_used k s') (frame d) ∙ c.used _ (t.tables d (was d q));
          below = λ d q e. t.below d (was d q) (sym (frame d) ∙ e);
          once = λ d d' q q' e. t.once d d' (was d q) (was d' q') (sym (frame d) ∙ e ∙ frame d');
        };
        child_used = c.used child p.child_used;
        differ = p.differ;
        no_table = λ d q e. p.no_table d (was d q) (sym (frame d) ∙ e);
      }

  -- What the two walks show for the entries outside the step's stays.
  pub Confined-parent :
      (v : ℕ)
      → Pair parent child s
      → (leb lo (dir_index v) && ltb (dir_index v) hi) ≡ false
      → lookup parent v s' ≡ lookup parent v s
  Confined-parent v p q =
      let d = dir_index v in
      let pde = s.words parent d in
      let i = table_index v in
      ap (λ e. walk e (s'.words e.frame i)) (c.root d) ∙ elim (Bool-cases pde.flags.present) [
        | inl here ↦ ap (walk pde) (
            c.words pde.frame i (p.tree.tables d here) (p.no_table d here)
              (λ e l h r f. absurd (ground (arith, p.tree.once e d r here f, l, h, q))))
        | inr gone ↦
            walk-absent pde (s'.words pde.frame i) gone
            ∙ sym (walk-absent pde (s.words pde.frame i) gone)
      ]

  pub Confined-child :
      (v : ℕ)
      → (is_present child (dir_index v) s ≡ true → Own (dir_index v) parent child s)
      → (leb lo (dir_index v) && ltb (dir_index v) hi) ≡ false
      → lookup child v s' ≡ lookup child v s
  Confined-child v own q =
      let d = dir_index v in
      let pde = s.words child d in
      let i = table_index v in
      ap (λ e. walk e (s'.words e.frame i)) (c.child_out d q)
      ∙ elim (Bool-cases pde.flags.present) [
        | inl here ↦
            let o = own here in
            ap (walk pde) (c.words pde.frame i o.used o.not_child (λ e l h r. o.not_table e r))
        | inr gone ↦
            walk-absent pde (s'.words pde.frame i) gone
            ∙ sym (walk-absent pde (s.words pde.frame i) gone)
      ]

  pub Confined-Own :
      (d : ℕ) → (leb lo d && ltb d hi) ≡ false → Own d parent child s → Own d parent child s'
  Confined-Own d q o =
      let frame = ap (λ e. e.frame) (c.child_out d q) in
      record {
        used = ap (λ k. is_used k s') frame ∙ c.used _ o.used;
        not_child = λ e. o.not_child (sym frame ∙ e);
        not_table = λ e r f.
            o.not_table e (ap (λ w. w.flags.present) (sym (c.root e)) ∙ r)
              (ap (λ w. w.frame) (sym (c.root e)) ∙ f ∙ frame);
      }
