-- ===== src/Paging/Fault/Private.antt =====
-- paging.c: what the write fault resolver has done when it returns PF_RESOLVED.
use enclave_os.Prelude.{
  Bool-cases, ◌⊎◌, ◌==◌, inl, inr, ℕ, ◌*◌, ◌/◌, ◌≡◌, ◌≢◌, ◌≤◌, refl, sym, ap, ◌∙◌, true, false,
  arith, ◌==◌, if◌then◌else◌, inl, inr, ◌⊎◌, some,
}
use enclave_os.Pmm.{page_size, pmm_get_refcount}
use enclave_os.Pmm.Refs.{pmm_get_refcount-le}
use enclave_os.Paging.{
  Flags, Entry, Vmm, set_entry, table_of, table_index, dir_index, entry_of, is_mapped,
}
use enclave_os.Paging.Walk.{
  shape, is_present, lookup, shown-present, set_entry-pmm, set_entry-frame,
}
use enclave_os.Paging.Map.{Shows, Shows-set_entry}
use enclave_os.Paging.Unmap.{mapped-present, lookup-mapped}
use enclave_os.Paging.Fresh.{Filled-IsTree, Filled-lookup, Filled-root}
use enclave_os.Paging.Fault.Copy.{Counted, Copied, copied_state, copied_page}
use enclave_os.Paging.Fault.{Space, resolved, fault_present, vmm_handle_user_write_fault}
use enclave_os.Paging.Fault.Cases.{Way, resolved-Way, cow_resolved, present_resolved}

-- The page of `addr` shows a frame that may be written, has at most one reference, and holds what
-- the frame held that was shown before; no other address shows another entry.
pub record Private (pd addr : ℕ) (s s' : Vmm) : Type 0 where
  pub old : Entry
  pub new : Entry
  pub before : lookup pd addr s ≡ some old
  pub after : Shows pd addr (some new) s s'
  pub writable : new.flags.write ≡ true
  pub not_cow : new.flags.cow ≡ false
  pub refs : pmm_get_refcount (new.frame * page_size) s'.pmm ≤ 1
  pub contents : (j : ℕ) → s'.words new.frame j ≡ s.words old.frame j
  pub others : (g j : ℕ) → (g ≡ new.frame) ⊎ (g ≡ table_of pd addr s) ⊎ (s'.words g j ≡ s.words g j)

unless : (g a b : ℕ) (P : Type 0) → (g ≢ a → g ≢ b → P) → (g ≡ a) ⊎ (g ≡ b) ⊎ P
unless g a b P h = elim (Bool-cases (g == a)) [
  | inl e ↦ inl (ground (arith, e))
  | inr na ↦ elim (Bool-cases (g == b)) [
    | inl e ↦ inr (inl (ground (arith, e)))
    | inr nb ↦
        inr (inr (h (λ q. absurd (ground (arith, na, q))) (λ q. absurd (ground (arith, nb, q)))))
  ]
]

-- The entry is written over in place.
in_place :
    (pd addr : ℕ) (flags : Flags) (s : Vmm)
    → Counted pd addr s
    → is_mapped pd addr s ≡ true
    → flags.present ≡ true
    → flags.write ≡ true
    → flags.cow ≡ false
    → pmm_get_refcount ((entry_of pd addr s).frame * page_size) s.pmm ≤ 1
    → Private pd addr s (
        set_entry
          (table_of pd addr s)
          (table_index addr)
          (record { frame = (entry_of pd addr s).frame; flags = flags })
          s)
in_place pd addr flags s c m fp fw fc r =
    let old = entry_of pd addr s in
    let new : Entry = record { frame = old.frame; flags = flags } in
    let pt = table_of pd addr s in
    let i = table_index addr in
    let (p, _) = mapped-present pd addr s m in
    let shows = Shows-set_entry pd addr new s s refl (shape pd s c.tree) p in
    let same = set_entry-pmm pt i new s in
    record {
      old = old;
      new = new;
      before = lookup-mapped pd addr s m;
      after = λ v.
          shows v
          ∙ ap (λ o. if v / 4096 == addr / 4096 then o else lookup pd v s) (shown-present new fp);
      writable = fw;
      not_cow = fc;
      refs = rw same r;
      contents = λ j. set_entry-frame pt i new s old.frame j c.apart;
      others = λ g j. unless g old.frame pt _ (λ n1 n2. set_entry-frame pt i new s g j n2);
    }

in_copy :
    (pd addr to : ℕ) (flags : Flags) (s s1 : Vmm)
    → Counted pd addr s
    → is_mapped pd addr s ≡ true
    → flags.present ≡ true
    → flags.write ≡ true
    → flags.cow ≡ false
    → Copied (entry_of pd addr s).frame to s s1
    → Private pd addr s (
        set_entry (table_of pd addr s) (table_index addr) (record { frame = to; flags = flags }) s1)
in_copy pd addr to flags s s1 c m fp fw fc copy =
    let old = entry_of pd addr s in
    let new : Entry = record { frame = to; flags = flags } in
    let pt = table_of pd addr s in
    let i = table_index addr in
    let (p, _) = mapped-present pd addr s m in
    let d = dir_index addr in
    let tree = Filled-IsTree pd to s s1 c.tree copy.filled in
    let root = Filled-root pd to s s1 c.tree copy.filled d in
    let p1 : is_present pd d s1 ≡ true = ap (λ e. e.flags.present) root ∙ p in
    let pt1 : table_of pd addr s1 ≡ pt = ap (λ e. e.frame) root in
    let raw = Shows-set_entry pd addr new s1 s1 refl (shape pd s1 tree) p1 in
    let shows = rw pt1 at raw in
    let same = set_entry-pmm pt i new s1 in
    let pt_used = c.tree.tables d p in
    let differ : to ≢ pt = λ q. absurd (cc (copy.filled.fresh, pt_used, q)) in
    record {
      old = old;
      new = new;
      before = lookup-mapped pd addr s m;
      after = λ v.
          shows v
          ∙ ap (λ o. if v / 4096 == addr / 4096 then o else lookup pd v s1) (shown-present new fp)
          ∙ ap (λ o. if v / 4096 == addr / 4096 then some new else o)
              (Filled-lookup pd to s s1 c.tree copy.filled v);
      writable = fw;
      not_cow = fc;
      refs = rw same (omega (arith, pmm_get_refcount-le to s1.pmm, copy.one));
      contents = λ j. set_entry-frame pt i new s1 to j differ ∙ copy.copy j;
      others = λ g j.
          unless g to pt _ (λ n1 n2. set_entry-frame pt i new s1 g j n2 ∙ copy.filled.words g j n1);
    }

-- What a resolved fault leaves: a page that could be written already, as it was, or a private one.
abbrev pub Outcome : ℕ → ℕ → Vmm → Vmm → Type 0
Outcome pd addr s s' =
    (s' ≡ s) × ((entry_of pd addr s).flags.write ≡ true) × ((entry_of pd addr s).flags.cow ≡ false)
    ⊎ Private pd addr s s'

present-Outcome :
    (pd addr : ℕ) (s s' : Vmm)
    → Counted pd addr s
    → is_mapped pd addr s ≡ true
    → fault_present pd addr s ≡ (resolved, s')
    → Outcome pd addr s s'
present-Outcome pd addr s s' c m e =
    let pte = entry_of pd addr s in
    let (_, p) = mapped-present pd addr s m in
    let (_, ways) = present_resolved pd addr s (ap (λ r. r.0) e) in
    elim ways [
      | inl (cow, f) ↦
          let h = ap (λ r. r.0) (sym f ∙ e) in
          elim (cow_resolved pd addr s h) [
            | inl (few, g) ↦
                let q = ap (λ r. r.1) (sym e ∙ f ∙ g) in
                rw q (
                  inr (
                    in_place pd addr (record pte.flags { cow = false; write = true }) s c m p refl
                      refl few))
            | inr (two, n, g) ↦
                let q = ap (λ r. r.1) (sym e ∙ f ∙ g) in
                rw q (
                  inr (
                    in_copy pd addr _ (record pte.flags { cow = false; write = true }) s
                      (copied_state pte.frame s) c m p refl refl (copied_page pd addr s c two n)))
          ]
      | inr (inl (plain, w, f)) ↦ inl (ap (λ r. r.1) (sym e ∙ f), w, plain)
      | inr (inr (plain, few, f)) ↦
          let q = ap (λ r. r.1) (sym e ∙ f) in
          rw q (inr (in_place pd addr (record pte.flags { write = true }) s c m p refl plain few))
    ]

-- If the write fault resolver returns PF_RESOLVED, the address is below the kernel and in an area
-- that may be read and written and is not code, and the walk has shown a page of the user. Either
-- that page could be written already and nothing has changed, or the page shows now an entry that
-- may be written and is not copy-on-write, of a frame with at most one reference that holds what the
-- old frame held; what the walk shows elsewhere and all other frames, but for the page table, are
-- the same. The directory must have different tables, no page out of use a reference, and the page
-- must not be its own table.
pub vmm_handle_user_write_fault-Outcome :
    (task : Space) (pd addr : ℕ) (s : Vmm)
    → task.pdir ≡ some pd
    → Counted pd addr s
    → (vmm_handle_user_write_fault task addr s).0 ≡ resolved
    → Way task pd addr s (vmm_handle_user_write_fault task addr s).1
      × Outcome pd addr s (vmm_handle_user_write_fault task addr s).1
vmm_handle_user_write_fault-Outcome task pd addr s q c h =
    let way = resolved-Way task pd addr s q h in
    (
      way,
      present-Outcome pd addr s (vmm_handle_user_write_fault task addr s).1 c way.shown_page
          way.steps,
    )
