-- ===== src/Paging/Walk.antt =====
-- paging.c: the walk through a directory and its tables, and what a change of one entry does to it. It
-- is the walk of the hardware for entries of the directory without PAGE_PS, which the kernel never sets.
use enclave_os.Prelude.{
  ℕ, ◌/◌, ◌≡◌, ◌≢◌, ◌≤◌, refl, sym, ap, ◌∙◌, Bool, true, false, Option, none, some, arith, ◌==◌,
  if◌then◌else◌, Bool-cases, inl, inr, if-true, if-false,
}
use enclave_os.Pmm.{pmm_max_pages, bitmap_test}
use enclave_os.Paging.{Entry, Vmm, set_entry, dir_index, table_index, table_of, entry_of}

-- An entry as the walk sees it.
pub shown : Entry → Option Entry
shown e = if e.flags.present then some e else none

-- What the walk returns for the two entries of an address.
pub walk : Entry → Entry → Option Entry
walk pde pte = if pde.flags.present then shown pte else none

-- The entry that the walk from the directory finds for the address, whatever PAGE_PS is.
abbrev pub lookup : ℕ → ℕ → Vmm → Option Entry
lookup pd virt s = walk (s.words pd (dir_index virt)) (entry_of pd virt s)

pub shown-present : (e : Entry) → e.flags.present ≡ true → shown e ≡ some e
unfolding shown
shown-present e h = rw h refl

pub shown-absent : (e : Entry) → e.flags.present ≡ false → shown e ≡ none
unfolding shown
shown-absent e h = rw h refl

module _ (pde pte : Entry) where
  pub walk-present : pde.flags.present ≡ true → walk pde pte ≡ shown pte
  unfolding walk
  walk-present h = rw h refl

  pub walk-absent : pde.flags.present ≡ false → walk pde pte ≡ none
  unfolding walk
  walk-absent h = rw h refl

abbrev pub is_present : ℕ → ℕ → Vmm → Bool
is_present pd d s = (s.words pd d).flags.present

-- The frame is in use in the page allocator.
abbrev pub is_used : ℕ → Vmm → Bool
is_used f s = bitmap_test f s.pmm.bitmap

-- The directory and its tables are pages in use, and they are different pages.
pub record IsTree (pd : ℕ) (s : Vmm) : Type 0 where
  pub limit : s.pmm.max_page ≤ pmm_max_pages
  pub root : is_used pd s ≡ true
  pub tables : (d : ℕ) → is_present pd d s ≡ true → is_used (s.words pd d).frame s ≡ true
  pub below : (d : ℕ) → is_present pd d s ≡ true → (s.words pd d).frame ≢ pd
  pub once :
      (d d' : ℕ)
      → is_present pd d s ≡ true
      → is_present pd d' s ≡ true
      → (s.words pd d).frame ≡ (s.words pd d').frame
      → d ≡ d'

-- No table is the directory, and they are different.
pub record IsShaped (pd : ℕ) (s : Vmm) : Type 0 where
  pub apart : (d : ℕ) → is_present pd d s ≡ true → (s.words pd d).frame ≢ pd
  pub single :
      (d d' : ℕ)
      → is_present pd d s ≡ true
      → is_present pd d' s ≡ true
      → (s.words pd d).frame ≡ (s.words pd d').frame
      → d ≡ d'

pub shape : (pd : ℕ) (s : Vmm) → IsTree pd s → IsShaped pd s
shape pd s t = record { apart = t.below; single = t.once }

module _ (f i : ℕ) (e : Entry) (s : Vmm) where
  pub set_entry_self : (set_entry f i e s).words f i ≡ e
  unfolding set_entry
  set_entry_self = ground arith

  pub set_entry-frame : (g j : ℕ) → g ≢ f → (set_entry f i e s).words g j ≡ s.words g j
  unfolding set_entry
  set_entry-frame g j h = ground (arith, h)

  pub set_entry-index : (j : ℕ) → j ≢ i → (set_entry f i e s).words f j ≡ s.words f j
  unfolding set_entry
  set_entry-index j h = ground (arith, h)

  pub set_entry-pmm : (set_entry f i e s).pmm ≡ s.pmm
  unfolding set_entry
  set_entry-pmm = refl

  pub set_entry-boot : (set_entry f i e s).boot_pd ≡ s.boot_pd
  unfolding set_entry
  set_entry-boot = refl

pages_differ :
    (v virt : ℕ)
    → v / 4096 ≢ virt / 4096
    → dir_index v ≡ dir_index virt
    → table_index v ≢ table_index virt
pages_differ v virt h d t = h (omega arith)

module _ (pd virt : ℕ) (e : Entry) (s : Vmm) (t : IsShaped pd s)
    (p : is_present pd (dir_index virt) s ≡ true) where
  changed : Vmm
  changed = set_entry (table_of pd virt s) (table_index virt) e s

  changed-root : (d : ℕ) → changed.words pd d ≡ s.words pd d
  unfolding changed
  changed-root d =
      set_entry-frame (table_of pd virt s) (table_index virt) e s pd d
        (λ q. t.apart (dir_index virt) p (sym q))

  changed-same :
      (v : ℕ) → v / 4096 ≡ virt / 4096 → changed.words (table_of pd v s) (table_index v) ≡ e
  unfolding changed
  changed-same v q =
      let d : dir_index v ≡ dir_index virt = omega arith in
      let i : table_index v ≡ table_index virt = omega arith in
      ap (λ d'. changed.words (s.words pd d').frame (table_index v)) d
      ∙ ap (changed.words (table_of pd virt s)) i
      ∙ set_entry_self (table_of pd virt s) (table_index virt) e s

  changed-other :
      (v : ℕ)
      → is_present pd (dir_index v) s ≡ true
      → v / 4096 ≢ virt / 4096
      → changed.words (table_of pd v s) (table_index v) ≡ entry_of pd v s
  unfolding changed
  changed-other v here q = elim (Bool-cases (dir_index v == dir_index virt)) [
    | inl same ↦
        let d : dir_index v ≡ dir_index virt = ground (arith, same) in
        let index =
          set_entry-index (table_of pd virt s) (table_index virt) e s (table_index v)
            (pages_differ v virt q d) in
        ap (λ d'. changed.words (s.words pd d').frame (table_index v)) d
        ∙ index
        ∙ ap (λ d'. s.words (s.words pd d').frame (table_index v)) (sym d)
    | inr other ↦
        set_entry-frame (table_of pd virt s) (table_index virt) e s (table_of pd v s)
          (table_index v)
          (λ f. absurd (ground (arith, other, t.single (dir_index v) (dir_index virt) here p f)))
  ]

-- After a change of the entry for `virt`, the walk shows the new entry for its page, and what it has
-- shown before for every other address.
pub lookup-set_entry :
    (pd virt : ℕ) (e : Entry) (s : Vmm) (v : ℕ)
    → IsShaped pd s
    → is_present pd (dir_index virt) s ≡ true
    → lookup pd v (set_entry (table_of pd virt s) (table_index virt) e s)
      ≡ (if v / 4096 == virt / 4096 then shown e else lookup pd v s)
unfolding changed
lookup-set_entry pd virt e s v t p =
    let s' = set_entry (table_of pd virt s) (table_index virt) e s in
    let pde = s.words pd (dir_index v) in
    let root : lookup pd v s' ≡ walk pde (s'.words pde.frame (table_index v)) =
      ap (λ w. walk w (s'.words w.frame (table_index v)))
        (changed-root pd virt e s t p (dir_index v)) in
    elim (Bool-cases (v / 4096 == virt / 4096)) [
      | inl same ↦
          let q : v / 4096 ≡ virt / 4096 = ground (arith, same) in
          let d : dir_index v ≡ dir_index virt = omega arith in
          let here : is_present pd (dir_index v) s ≡ true = ap (λ d'. is_present pd d' s) d ∙ p in
          root
          ∙ ap (walk pde) (changed-same pd virt e s t p v q)
          ∙ walk-present pde e here
          ∙ sym (if-true _ _ same)
      | inr other ↦ elim (Bool-cases (is_present pd (dir_index v) s)) [
        | inl here ↦
            let q : v / 4096 ≢ virt / 4096 = λ q. absurd (ground (arith, other, q)) in
            root ∙ ap (walk pde) (changed-other pd virt e s t p v here q) ∙ sym (if-false _ _ other)
        | inr gone ↦
            root
            ∙ walk-absent pde (s'.words pde.frame (table_index v)) gone
            ∙ sym (walk-absent pde (entry_of pd v s) gone)
            ∙ sym (if-false _ _ other)
      ]
    ]

-- A change of an entry of a table leaves the directory.
pub set_entry-IsShaped :
    (pd virt : ℕ) (e : Entry) (s s' : Vmm)
    → s'.words ≡ s.words
    → IsShaped pd s
    → is_present pd (dir_index virt) s ≡ true
    → IsShaped pd (set_entry (table_of pd virt s) (table_index virt) e s')
set_entry-IsShaped pd virt e s s' h t p =
    let f = table_of pd virt s in
    let s2 = set_entry f (table_index virt) e s' in
    let root : (d : ℕ) → s2.words pd d ≡ s.words pd d = λ d.
      set_entry-frame f (table_index virt) e s' pd d (λ q. t.apart (dir_index virt) p (sym q))
      ∙ ap (λ m. m pd d) h in
    let was : (d : ℕ) → is_present pd d s2 ≡ true → is_present pd d s ≡ true =
      λ d q. ap (λ w. w.flags.present) (sym (root d)) ∙ q in
    let frame : (d : ℕ) → (s2.words pd d).frame ≡ (s.words pd d).frame =
      λ d. ap (λ w. w.frame) (root d) in
    record {
      apart = λ d q x. t.apart d (was d q) (sym (frame d) ∙ x);
      single = λ d d' q q' x. t.single d d' (was d q) (was d' q') (sym (frame d) ∙ x ∙ frame d');
    }
