-- ===== src/Paging/Map.antt =====
-- paging.c: mapping and unmapping a page of a user's address space.
use enclave_os.Prelude.{
  ℕ, ◌/◌, ◌≡◌, refl, ap, ◌∙◌, true, false, arith, ◌==◌, if◌then◌else◌, Bool-cases, inl, inr, Option,
}
use enclave_os.Paging.{
  Flags, Entry, Vmm, Mapped, mapped, no_table, halted, set_entry, free_old, dir_index, table_index,
  table_of, entry_of, ensure_table, vmm_map_page_in_pd,
}
use enclave_os.Paging.Walk.{
  IsShaped, shape, IsTree, is_present, lookup, walk, shown, lookup-set_entry,
}
use enclave_os.Paging.Tables.Keep.{ensure_table-Kept, ensure_table-words}

-- The walk from `pd` shows `new` for the page of `virt`, and otherwise what it has shown in `s`.
abbrev pub Shows : ℕ → ℕ → Option Entry → Vmm → Vmm → Type 0
Shows pd virt new s s' =
    (v : ℕ) → lookup pd v s' ≡ (if v / 4096 == virt / 4096 then new else lookup pd v s)

-- What the three results of vmm_map_page_in_pd say.
abbrev pub MapResult : ℕ → ℕ → Entry → Vmm → Mapped → Type 0
MapResult pd virt e s (mapped s') = Shows pd virt (shown e) s s'
MapResult pd virt e s (no_table s') =
    (s'.words ≡ s.words) × (is_present pd (dir_index virt) s ≡ false)
MapResult pd virt e s halted = (s.words pd (dir_index virt)).flags.ps ≡ true

free_old-words : (pte : Entry) (s : Vmm) → (free_old pte s).words ≡ s.words
unfolding free_old
free_old-words pte s = ground arith

-- The allocator does not matter to a write of an entry.
set_entry-words :
    (f i : ℕ) (e : Entry) (s s' : Vmm)
    → s'.words ≡ s.words
    → (set_entry f i e s').words ≡ (set_entry f i e s).words
unfolding set_entry
set_entry-words f i e s s' h = rw h

-- The walk reads the words only.
pub lookup-words : (pd v : ℕ) (s s' : Vmm) → s'.words ≡ s.words → lookup pd v s' ≡ lookup pd v s
lookup-words pd v s s' h =
    ap (λ w. walk (w pd (dir_index v)) (w (w pd (dir_index v)).frame (table_index v))) h

-- A write of the entry for `virt` in a state that differs from `s` in the allocator at most.
pub Shows-set_entry :
    (pd virt : ℕ) (e : Entry) (s s' : Vmm)
    → s'.words ≡ s.words
    → IsShaped pd s
    → is_present pd (dir_index virt) s ≡ true
    → Shows pd virt (shown e) s (set_entry (table_of pd virt s) (table_index virt) e s')
Shows-set_entry pd virt e s s' h t p v =
    let f = table_of pd virt s in
    let i = table_index virt in
    lookup-words pd v (set_entry f i e s) (set_entry f i e s') (set_entry-words f i e s s' h)
    ∙ lookup-set_entry pd virt e s v t p

map_cases :
    (pd virt frame : ℕ) (flags : Flags) (s : Vmm)
    → ((s.words pd (dir_index virt)).flags.ps ≡ true
        → vmm_map_page_in_pd pd virt frame flags s ≡ halted)
      × ((s.words pd (dir_index virt)).flags.ps ≡ false
          → (ensure_table pd (dir_index virt) s).0 ≡ false
          → vmm_map_page_in_pd pd virt frame flags s
            ≡ no_table (ensure_table pd (dir_index virt) s).1)
      × ((s.words pd (dir_index virt)).flags.ps ≡ false
          → (ensure_table pd (dir_index virt) s).0 ≡ true
          → vmm_map_page_in_pd pd virt frame flags s
            ≡ mapped (
                set_entry
                  (table_of pd virt (ensure_table pd (dir_index virt) s).1)
                  (table_index virt)
                  (record { frame = frame; flags = flags })
                  (free_old
                    (entry_of pd virt (ensure_table pd (dir_index virt) s).1)
                    (ensure_table pd (dir_index virt) s).1)))
unfolding vmm_map_page_in_pd
map_cases pd virt frame flags s = (λ p. rw p refl, λ p q. rw (p, q) refl, λ p q. rw (p, q) refl)

-- From a directory with different tables, vmm_map_page_in_pd that succeeds makes the walk show the
-- new entry for the page, and changes what it shows for no other address, whether the table was
-- there or not; that fails has changed no word, and the table was missing; and it halts only if
-- the directory's entry is a page of 4 MB.
pub vmm_map_page_in_pd-MapResult :
    (pd virt frame : ℕ) (flags : Flags) (s : Vmm)
    → IsTree pd s
    → MapResult pd virt
        (record { frame = frame; flags = flags })
        s
        (vmm_map_page_in_pd pd virt frame flags s)
vmm_map_page_in_pd-MapResult pd virt frame flags s t =
    let (halt, fail, good) = map_cases pd virt frame flags s in
    let d = dir_index virt in
    let s1 = (ensure_table pd d s).1 in
    let e : Entry = record { frame = frame; flags = flags } in
    elim (Bool-cases (s.words pd d).flags.ps) [
      | inl ps ↦ rw (halt ps) ps
      | inr small ↦ elim (Bool-cases (ensure_table pd d s).0) [
        | inl found ↦
            let (k, p) = ensure_table-Kept pd d s t found in
            let old = entry_of pd virt s1 in
            let shows =
              Shows-set_entry pd virt e s1 (free_old old s1) (free_old-words old s1)
                (shape pd s1 k.tree) p in
            rw (good small found) (λ v.
              shows v ∙ ap (λ o. if v / 4096 == virt / 4096 then shown e else o) (k.lookups v))
        | inr lost ↦ rw (fail small lost) (ensure_table-words pd d s lost)
      ]
    ]
