-- ===== src/Paging/Unmap.antt =====
-- paging.c: unmapping a page, and changing its rights.
use enclave_os.Prelude.{
  not, ◌&&◌, ◌||◌, Changed, Changed-map, Bool, ℕ, ◌*◌, ◌/◌, ◌≡◌, refl, sym, ap, ◌∙◌, true, false,
  arith, ◌==◌, if◌then◌else◌, Bool-cases, inl, inr, Option, none, some, if-true, if-false,
}
use mathlib.Core.Option
use enclave_os.Pmm.{Pmm, page_size, pmm_free_page}
use enclave_os.Paging.{
  Flags, Entry, Vmm, zero_entry, set_entry, dir_index, table_index, table_of, entry_of, is_mapped,
  vmm_unmap_and_free_page_in_pd, vmm_protect_page_in_pd, protected,
}
use enclave_os.Paging.Walk.{
  set_entry-IsShaped, IsShaped, is_present, lookup, walk, shown, set_entry-pmm, shown-absent,
  shown-present, walk-present, walk-absent,
}
use enclave_os.Paging.Map.{Shows, Shows-set_entry}

pub lookup-page :
    (pd v virt : ℕ) (s : Vmm) → v / 4096 ≡ virt / 4096 → lookup pd v s ≡ lookup pd virt s
lookup-page pd v virt s q =
    let d : dir_index v ≡ dir_index virt = omega arith in
    let i : table_index v ≡ table_index virt = omega arith in
    ap (λ k. walk (s.words pd k) (s.words (s.words pd k).frame (table_index v))) d
    ∙ ap (λ k. walk (s.words pd (dir_index virt)) (s.words (table_of pd virt s) k)) i

Shows-same : (pd virt : ℕ) (s : Vmm) → Shows pd virt (lookup pd virt s) s s
Shows-same pd virt s v = elim (Bool-cases (v / 4096 == virt / 4096)) [
  | inl same ↦
      let q : v / 4096 ≡ virt / 4096 = ground (arith, same) in
      lookup-page pd v virt s q ∙ sym (if-true _ _ same)
  | inr other ↦ sym (if-false _ _ other)
]

module _ (pd virt : ℕ) (s : Vmm) where
  pub mapped-present :
      is_mapped pd virt s ≡ true
      → (is_present pd (dir_index virt) s ≡ true) × ((entry_of pd virt s).flags.present ≡ true)
  mapped-present h = ground (arith, h)

  pub lookup-mapped : is_mapped pd virt s ≡ true → lookup pd virt s ≡ some (entry_of pd virt s)
  lookup-mapped h =
      let (p, q) = mapped-present h in
      walk-present (s.words pd (dir_index virt)) (entry_of pd virt s) p
      ∙ shown-present (entry_of pd virt s) q

  pub lookup-unmapped : is_mapped pd virt s ≡ false → lookup pd virt s ≡ none
  lookup-unmapped h =
      let pde = s.words pd (dir_index virt) in
      elim (Bool-cases pde.flags.present) [
        | inl p ↦
            let q : (entry_of pd virt s).flags.present ≡ false = ground (arith, p, h) in
            walk-present pde (entry_of pd virt s) p ∙ shown-absent (entry_of pd virt s) q
        | inr p ↦ walk-absent pde (entry_of pd virt s) p
      ]

-- The pages of an entry that the walk shows go back to the pool.
abbrev pub freed : Option Entry → Pmm → Pmm
freed none p = p
freed (some e) p = pmm_free_page (e.frame * page_size) p

unmap_mapped :
    (pd virt : ℕ) (s : Vmm)
    → is_mapped pd virt s ≡ true
    → vmm_unmap_and_free_page_in_pd pd virt s
      ≡ set_entry
          (table_of pd virt s)
          (table_index virt)
          zero_entry
          (record s { pmm = pmm_free_page ((entry_of pd virt s).frame * page_size) s.pmm })
unfolding vmm_unmap_and_free_page_in_pd
unmap_mapped pd virt s h = rw h refl

unmap_idle :
    (pd virt : ℕ) (s : Vmm)
    → is_mapped pd virt s ≡ false
    → vmm_unmap_and_free_page_in_pd pd virt s ≡ s
unfolding vmm_unmap_and_free_page_in_pd
unmap_idle pd virt s h = rw h refl

-- On a directory whose tables are different from each other and from the directory,
-- vmm_unmap_and_free_page_in_pd makes the walk show nothing for the page and leaves what it shows for
-- every other address; the page that was shown is given to pmm_free_page, and nothing else.
pub vmm_unmap_and_free_page_in_pd-Shows :
    (pd virt : ℕ) (s : Vmm)
    → IsShaped pd s
    → Shows pd virt none s (vmm_unmap_and_free_page_in_pd pd virt s)
      × ((vmm_unmap_and_free_page_in_pd pd virt s).pmm ≡ freed (lookup pd virt s) s.pmm)
vmm_unmap_and_free_page_in_pd-Shows pd virt s t = elim (Bool-cases (is_mapped pd virt s)) [
  | inl h ↦
      let s1 = record s { pmm = pmm_free_page ((entry_of pd virt s).frame * page_size) s.pmm } in
      let (p, q) = mapped-present pd virt s h in
      let shows = Shows-set_entry pd virt zero_entry s s1 refl t p in
      let nothing = shown-absent zero_entry refl in
      rw (unmap_mapped pd virt s h) (
        λ v. shows v ∙ ap (λ o. if v / 4096 == virt / 4096 then o else lookup pd v s) nothing,
        set_entry-pmm (table_of pd virt s) (table_index virt) zero_entry s1
            ∙ ap (λ o. freed o s.pmm) (sym (lookup-mapped pd virt s h)),
      )
  | inr h ↦
      let nothing = lookup-unmapped pd virt s h in
      rw (unmap_idle pd virt s h) (
        λ v.
            Shows-same pd virt s v
            ∙ ap (λ o. if v / 4096 == virt / 4096 then o else lookup pd v s) nothing,
        ap (λ o. freed o s.pmm) (sym nothing),
      )
]

-- The entry with the rights that vmm_protect_page_in_pd gives it.
abbrev pub with_rights : Flags → Entry → Entry
with_rights flags e = record { frame = e.frame; flags = protected flags e.flags }

protect_mapped :
    (pd virt : ℕ) (flags : Flags) (s : Vmm)
    → is_mapped pd virt s ≡ true
    → vmm_protect_page_in_pd pd virt flags s
      ≡ set_entry (table_of pd virt s) (table_index virt) (with_rights flags (entry_of pd virt s)) s
unfolding vmm_protect_page_in_pd
protect_mapped pd virt flags s h = rw h refl

protect_idle :
    (pd virt : ℕ) (flags : Flags) (s : Vmm)
    → is_mapped pd virt s ≡ false
    → vmm_protect_page_in_pd pd virt flags s ≡ s
unfolding vmm_protect_page_in_pd
protect_idle pd virt flags s h = rw h refl

protected-present : (flags old : Flags) → (protected flags old).present ≡ flags.present
unfolding protected
protected-present flags old = refl

pub vmm_protect_page_in_pd-Shows :
    (pd virt : ℕ) (flags : Flags) (s : Vmm)
    → IsShaped pd s
    → flags.present ≡ true
    → Shows pd virt
        (Option.map (with_rights flags) (lookup pd virt s))
        s
        (vmm_protect_page_in_pd pd virt flags s)
      × ((vmm_protect_page_in_pd pd virt flags s).pmm ≡ s.pmm)
vmm_protect_page_in_pd-Shows pd virt flags s t f = elim (Bool-cases (is_mapped pd virt s)) [
  | inl h ↦
      let e = with_rights flags (entry_of pd virt s) in
      let (p, q) = mapped-present pd virt s h in
      let shows = Shows-set_entry pd virt e s s refl t p in
      let new : shown e ≡ Option.map (with_rights flags) (lookup pd virt s) =
        shown-present e (protected-present flags (entry_of pd virt s).flags ∙ f)
        ∙ ap (Option.map (with_rights flags)) (sym (lookup-mapped pd virt s h)) in
      rw (protect_mapped pd virt flags s h) (
        λ v. shows v ∙ ap (λ o. if v / 4096 == virt / 4096 then o else lookup pd v s) new,
        set_entry-pmm (table_of pd virt s) (table_index virt) e s,
      )
  | inr h ↦
      let nothing = lookup-unmapped pd virt s h in
      let new : lookup pd virt s ≡ Option.map (with_rights flags) (lookup pd virt s) =
        nothing ∙ ap (Option.map (with_rights flags)) (sym nothing) in
      rw (protect_idle pd virt flags s h) (
        λ v.
            Shows-same pd virt s v
            ∙ ap (λ o. if v / 4096 == virt / 4096 then o else lookup pd v s) new,
        refl,
      )
]

-- The entry `new` shows the page of `old` with the rights of `flags`: PAGE_WRITE only if `old` has not
-- PAGE_COW, and PAGE_COW and the caching bits of `old` besides those of `flags`.
pub record IsRestricted (flags : Flags) (old new : Entry) : Type 0 where
  pub frame : new.frame ≡ old.frame
  pub write : new.flags.write ≡ (if old.flags.cow then false else flags.write)
  pub cow : new.flags.cow ≡ (if old.flags.cow then true else flags.cow)
  pub pwt : new.flags.pwt ≡ (if old.flags.pwt then true else flags.pwt)
  pub pcd : new.flags.pcd ≡ (if old.flags.pcd then true else flags.pcd)
  pub global : new.flags.global ≡ (if old.flags.global then true else flags.global)
  pub present : new.flags.present ≡ flags.present
  pub user : new.flags.user ≡ flags.user
  pub accessed : new.flags.accessed ≡ flags.accessed
  pub dirty : new.flags.dirty ≡ flags.dirty
  pub ps : new.flags.ps ≡ flags.ps
  pub bit_10 : new.flags.bit_10 ≡ flags.bit_10
  pub bit_11 : new.flags.bit_11 ≡ flags.bit_11

or_if : (a b : Bool) → (a || b) ≡ (if b then true else a)
or_if a b = ground arith

and_if : (a b : Bool) → (a && not b) ≡ (if b then false else a)
and_if a b = ground arith

pub with_rights-IsRestricted :
    (flags : Flags) (e : Entry) → IsRestricted flags e (with_rights flags e)
unfolding protected
with_rights-IsRestricted flags e = record {
  frame = refl;
  write = and_if flags.write e.flags.cow;
  cow = or_if flags.cow e.flags.cow;
  pwt = or_if flags.pwt e.flags.pwt;
  pcd = or_if flags.pcd e.flags.pcd;
  global = or_if flags.global e.flags.global;
  present = refl;
  user = refl;
  accessed = refl;
  dirty = refl;
  ps = refl;
  bit_10 = refl;
  bit_11 = refl;
}

-- On a directory whose tables are different from each other and from the directory, and with
-- PAGE_PRESENT among the new flags, vmm_protect_page_in_pd makes the walk show at each address of the
-- page the entry that it has shown there with the new flags, in which PAGE_COW, PAGE_PWT, PAGE_PCD and
-- PAGE_GLOBAL are kept and PAGE_WRITE is out if the entry had PAGE_COW, or nothing if it has shown
-- nothing; what the walk shows for every other address and the allocator stay.
pub vmm_protect_page_in_pd-cow :
    (pd virt v : ℕ) (flags : Flags) (s : Vmm)
    → IsShaped pd s
    → flags.present ≡ true
    → Changed
        (v / 4096 == virt / 4096)
        (IsRestricted flags)
        (lookup pd v s)
        (lookup pd v (vmm_protect_page_in_pd pd virt flags s))
      × ((vmm_protect_page_in_pd pd virt flags s).pmm ≡ s.pmm)
vmm_protect_page_in_pd-cow pd virt v flags s t f =
    let (shows, same) = vmm_protect_page_in_pd-Shows pd virt flags s t f in
    let f = with_rights flags in
    let here : lookup pd v (vmm_protect_page_in_pd pd virt flags s)
        ≡ (if v / 4096 == virt / 4096 then Option.map f (lookup pd v s) else lookup pd v s) =
      elim (Bool-cases (v / 4096 == virt / 4096)) [
        | inl e ↦
            let q : v / 4096 ≡ virt / 4096 = ground (arith, e) in
            shows v
            ∙ if-true _ _ e
            ∙ ap (Option.map f) (sym (lookup-page pd v virt s q))
            ∙ sym (if-true _ _ e)
        | inr e ↦ shows v ∙ if-false _ _ e ∙ sym (if-false _ _ e)
      ] in
    (
      Changed-map (IsRestricted flags) f (with_rights-IsRestricted flags) (v / 4096 == virt / 4096)
          (lookup pd v s) _ here,
      same,
    )

pub vmm_unmap_and_free_page_in_pd-IsShaped :
    (pd virt : ℕ) (s : Vmm) → IsShaped pd s → IsShaped pd (vmm_unmap_and_free_page_in_pd pd virt s)
vmm_unmap_and_free_page_in_pd-IsShaped pd virt s t = elim (Bool-cases (is_mapped pd virt s)) [
  | inl h ↦
      let s1 = record s { pmm = pmm_free_page ((entry_of pd virt s).frame * page_size) s.pmm } in
      rw (unmap_mapped pd virt s h)
        (set_entry-IsShaped pd virt zero_entry s s1 refl t (mapped-present pd virt s h).0)
  | inr h ↦ rw (unmap_idle pd virt s h) t
]

pub vmm_protect_page_in_pd-IsShaped :
    (pd virt : ℕ) (flags : Flags) (s : Vmm)
    → IsShaped pd s
    → IsShaped pd (vmm_protect_page_in_pd pd virt flags s)
vmm_protect_page_in_pd-IsShaped pd virt flags s t = elim (Bool-cases (is_mapped pd virt s)) [
  | inl h ↦ rw (protect_mapped pd virt flags s h) (
      set_entry-IsShaped pd virt (with_rights flags (entry_of pd virt s)) s s refl t
        (mapped-present pd virt s h).0)
  | inr h ↦ rw (protect_idle pd virt flags s h) t
]
