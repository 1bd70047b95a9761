-- ===== src/Paging/Space/Fork.antt =====
-- paging.c: the two address spaces after vmm_clone_address_space.
use mathlib.Core.Option
use enclave_os.Prelude.{
  ℕ, zero, suc, ◌+◌, ◌≡◌, ◌≢◌, ◌≤◌, ◌<◌, refl, sym, ap, ◌∙◌, Bool, true, false, ◌&&◌, arith, ◌==◌,
  leb, ltb, Bool-cases, inl, inr, ==_iff, Option, none, some, Matches, Matches-map,
}
use enclave_os.Paging.{Entry, Vmm, dir_index}
use enclave_os.Paging.Walk.{IsTree, is_used, is_present, lookup}
use enclave_os.Paging.Fresh.{Filled-IsTree, Filled-lookup, Filled-root}
use enclave_os.Paging.Space.{
  cow_entry, share_entry, share_entries, new_directory, vmm_clone_address_space, clone_into,
  finish_clone,
}
use enclave_os.Paging.Space.Entries.{
  Pair, Confined, Own, Confined-same, Confined-Pair, Confined-parent, Confined-child,
}
use enclave_os.Paging.Space.Single.{Entered, share_entry-Entered}
use enclave_os.Paging.Space.Directory.{new_directory-NewDirectory}

-- The walks of the two processes for the directory's entries from `lo` to `hi`.
pub record Forked (lo hi parent child : ℕ) (s s' : Vmm) : Type 0 where
  pub confined : Confined lo hi parent child s s'
  pub of_parent :
      (v : ℕ)
      → lo ≤ dir_index v
      → dir_index v < hi
      → lookup parent v s' ≡ Option.map cow_entry (lookup parent v s)
  pub of_child :
      (v : ℕ)
      → lo ≤ dir_index v
      → dir_index v < hi
      → lookup child v s' ≡ Option.map cow_entry (lookup parent v s)

Forked-none : (i parent child : ℕ) (s : Vmm) → Forked i i parent child s s
Forked-none i parent child s = record {
  confined = Confined-same i i parent child s;
  of_parent = λ v l h. absurd (omega (arith, l, h));
  of_child = λ v l h. absurd (omega (arith, l, h));
}

module _ (i hi parent child : ℕ) (s s1 s2 : Vmm) (p : Pair parent child s) (h : i < hi)
    (e : Entered i parent child s s1) (r : Forked (i + 1) hi parent child s1 s2) where
  both-Confined : Confined i hi parent child s s2
  both-Confined =
      let a = e.confined in
      let b = r.confined in
      record {
        root = λ d. b.root d ∙ a.root d;
        child_out = λ d q. b.child_out d (ground (arith, q)) ∙ a.child_out d (ground (arith, q, h));
        words = λ g j u n t.
            b.words g j (a.used g u) n (λ d l m f x.
              t d (omega (arith, l)) m (ap (λ w. w.flags.present) (sym (a.root d)) ∙ f)
                (ap (λ w. w.frame) (sym (a.root d)) ∙ x))
            ∙ a.words g j u n (λ d l m f. t d l (omega (arith, m, h)) f);
        used = λ g u. b.used g (a.used g u);
        pages = b.pages ∙ a.pages;
        boot = b.boot ∙ a.boot;
      }

  first_out : (d : ℕ) → d ≡ i → (leb (i + 1) d && ltb d hi) ≡ false
  first_out d q = ground (arith, q)

  later_out : (d : ℕ) → d ≢ i → (leb i d && ltb d (i + 1)) ≡ false
  later_out d q = ground (arith, q)

  pair1 : Pair parent child s1
  pair1 = Confined-Pair i (i + 1) parent child s s1 e.confined p

  first_child : (v : ℕ) → dir_index v ≡ i → lookup child v s2 ≡ lookup child v s1
  first_child v q =
      Confined-child (i + 1) hi parent child s1 s2 r.confined v own (first_out (dir_index v) q)
    where
      own : is_present child (dir_index v) s1 ≡ true → Own (dir_index v) parent child s1
      own f = rw q (e.own (ap (λ d. is_present child d s1) (sym q) ∙ f))

  Forked-next : Forked i hi parent child s s2
  Forked-next = record {
    confined = both-Confined;
    of_parent = λ v l m. elim (Bool-cases (dir_index v == i)) [
      | inl same ↦
          let q = (==_iff (dir_index v) i).0 same in
          Confined-parent (i + 1) hi parent child s1 s2 r.confined v pair1
            (first_out (dir_index v) q)
          ∙ e.of_parent v q
      | inr other ↦
          let q : dir_index v ≢ i = λ q. absurd (ground (arith, other, q)) in
          r.of_parent v (omega (arith, l, q)) m
          ∙ ap (Option.map cow_entry) (
              Confined-parent i (i + 1) parent child s s1 e.confined v p
                (later_out (dir_index v) q))
    ];
    of_child = λ v l m. elim (Bool-cases (dir_index v == i)) [
      | inl same ↦ let q = (==_iff (dir_index v) i).0 same in first_child v q ∙ e.of_child v q
      | inr other ↦
          let q : dir_index v ≢ i = λ q. absurd (ground (arith, other, q)) in
          r.of_child v (omega (arith, l, q)) m
          ∙ ap (Option.map cow_entry) (
              Confined-parent i (i + 1) parent child s s1 e.confined v p
                (later_out (dir_index v) q))
    ];
  }

entries_first :
    (n i parent child : ℕ) (s : Vmm)
    → (share_entries (suc n) i parent child s).0 ≡ true
    → ((share_entry parent child i s).0 ≡ true)
      × (share_entries (suc n) i parent child s
          ≡ share_entries n (i + 1) parent child (share_entry parent child i s).1)
unfolding share_entries
entries_first n i parent child s h = ground (arith, h)

share_entries-Forked :
    (n i hi parent child : ℕ) (s : Vmm)
    → hi ≡ i + n
    → Pair parent child s
    → ((d : ℕ) → i ≤ d → d < hi → (s.words parent d).flags.ps ≡ false)
    → ((d : ℕ) → i ≤ d → d < hi → is_present child d s ≡ false)
    → (share_entries n i parent child s).0 ≡ true
    → Forked i hi parent child s (share_entries n i parent child s).1
share_entries-Forked zero i hi parent child s x p small gone h =
    let same : hi ≡ i = omega arith in
    rw same (unfold share_entries in Forked-none i parent child s)
share_entries-Forked (suc n) i hi parent child s x p small gone h =
    let (one, e) = entries_first n i parent child s h in
    let s1 = (share_entry parent child i s).1 in
    let first =
      share_entry-Entered parent child i s p (small i (omega arith) (omega arith))
        (gone i (omega arith) (omega arith)) one in
    let c = first.confined in
    let rest =
      share_entries-Forked n (i + 1) hi parent child s1 (omega arith)
        (Confined-Pair i (i + 1) parent child s s1 c p)
        (λ d l m. ap (λ w. w.flags.ps) (c.root d) ∙ small d (omega (arith, l)) m)
        (λ d l m.
          ap (λ w. w.flags.present) (c.child_out d (ground (arith, l)))
          ∙ gone d (omega (arith, l)) m)
        (ap (λ r. r.0) (sym e) ∙ h) in
    rw e (
      Forked-next i hi parent child s s1 (share_entries n (i + 1) parent child s1).1 p (omega arith)
        first rest)

finish_all :
    (c child : ℕ) (r : Bool × Vmm)
    → (finish_clone c r).0 ≡ some child
    → (c ≡ child) × (r.0 ≡ true) × ((finish_clone c r).1 ≡ r.1)
unfolding finish_clone
finish_all c child (true, s) h = (ground (arith, h), refl, refl)
finish_all c child (false, s) h = absurd (ground (arith, h))

clone_made :
    (parent child : ℕ) (d : Option ℕ × Vmm)
    → (clone_into parent d).0 ≡ some child
    → (d.0 ≡ some child)
      × ((share_entries 768 0 parent child d.1).0 ≡ true)
      × ((clone_into parent d).1 ≡ (share_entries 768 0 parent child d.1).1)
unfolding clone_into
clone_made parent child (none, s) h = absurd (ground (arith, h))
clone_made parent child (some c, s) h =
    let (same, all, state) = finish_all c child (share_entries 768 0 parent c s) h in
    (
      ap some same,
      ap (λ k. (share_entries 768 0 parent k s).0) (sym same) ∙ all,
      state ∙ ap (λ k. (share_entries 768 0 parent k s).1) same,
    )

-- The walks of parent and child for an address of the user, against the parent's before the call.
record IsForkAll (parent child : ℕ) (s s' : Vmm) : Type 0 where
  pub new_directory : is_used child s ≡ false
  pub of_parent :
      (v : ℕ) → dir_index v < 768 → lookup parent v s' ≡ Option.map cow_entry (lookup parent v s)
  pub of_child :
      (v : ℕ) → dir_index v < 768 → lookup child v s' ≡ Option.map cow_entry (lookup parent v s)
  pub kernel : (d : ℕ) → 768 ≤ d → d < 1024 → s'.words child d ≡ s.words s.boot_pd d

clone_all :
    (parent child : ℕ) (s : Vmm)
    → IsTree parent s
    → is_used s.boot_pd s ≡ true
    → ((d : ℕ) → d < 768 → (s.words parent d).flags.ps ≡ false)
    → (vmm_clone_address_space parent s).0 ≡ some child
    → IsForkAll parent child s (vmm_clone_address_space parent s).1
unfolding vmm_clone_address_space
clone_all parent child s t b small h =
    let (made, shared, e) = clone_made parent child (new_directory s) h in
    let s1 = (new_directory s).1 in
    let n = new_directory-NewDirectory child s t.limit b made in
    let f = n.filled in
    let root = Filled-root parent child s s1 t f in
    let frame : (d : ℕ) → (s1.words parent d).frame ≡ (s.words parent d).frame =
      λ d. ap (λ w. w.frame) (root d) in
    let pair : Pair parent child s1 = record {
      tree = Filled-IsTree parent child s s1 t f;
      child_used = n.used;
      differ = λ q. absurd (cc (f.fresh, t.root, q));
      no_table = λ d q x.
          let u = t.tables d (ap (λ w. w.flags.present) (sym (root d)) ∙ q) in
          let y = sym (frame d) ∙ x in absurd (cc (u, y, f.fresh));
    } in
    let fork =
      share_entries-Forked 768 0 768 parent child s1 (omega arith) pair
        (λ d l m. ap (λ w. w.flags.ps) (root d) ∙ small d m)
        (λ d l m. ap (λ w. w.flags.present) (n.user d m)) shared in
    let before = Filled-lookup parent child s s1 t f in
    rw e (record {
      new_directory = f.fresh;
      of_parent = λ v m. fork.of_parent v (omega arith) m ∙ ap (Option.map cow_entry) (before v);
      of_child = λ v m. fork.of_child v (omega arith) m ∙ ap (Option.map cow_entry) (before v);
      kernel = λ d l m. fork.confined.child_out d (ground (arith, l)) ∙ n.kernel d l m;
    })

-- The entry `new` shows the page of `old`, without PAGE_WRITE and with PAGE_COW; the other bits are
-- those of `old`.
pub record IsShared (old new : Entry) : Type 0 where
  pub frame : new.frame ≡ old.frame
  pub write : new.flags.write ≡ false
  pub cow : new.flags.cow ≡ true
  pub present : new.flags.present ≡ old.flags.present
  pub user : new.flags.user ≡ old.flags.user
  pub pwt : new.flags.pwt ≡ old.flags.pwt
  pub pcd : new.flags.pcd ≡ old.flags.pcd
  pub accessed : new.flags.accessed ≡ old.flags.accessed
  pub dirty : new.flags.dirty ≡ old.flags.dirty
  pub ps : new.flags.ps ≡ old.flags.ps
  pub global : new.flags.global ≡ old.flags.global
  pub bit_10 : new.flags.bit_10 ≡ old.flags.bit_10
  pub bit_11 : new.flags.bit_11 ≡ old.flags.bit_11

cow_entry-IsShared : (e : Entry) → IsShared e (cow_entry e)
cow_entry-IsShared e = record {
  frame = refl;
  write = refl;
  cow = refl;
  present = refl;
  user = refl;
  pwt = refl;
  pcd = refl;
  accessed = refl;
  dirty = refl;
  ps = refl;
  global = refl;
  bit_10 = refl;
  bit_11 = refl;
}

-- The walks for the address `v`, and the child's entry `d`.
pub record IsFork (parent child v d : ℕ) (s s' : Vmm) : Type 0 where
  pub new_directory : is_used child s ≡ false
  pub of_parent : Matches IsShared (lookup parent v s) (lookup parent v s')
  pub of_child : Matches IsShared (lookup parent v s) (lookup child v s')
  pub same : lookup child v s' ≡ lookup parent v s'
  pub kernel : s'.words child d ≡ s.words s.boot_pd d

-- If vmm_clone_address_space returns a directory, it is a page that was free; at every address below
-- the kernel the walks from both directories show the same, which is the page that the parent's showed
-- before, without PAGE_WRITE, with PAGE_COW and with its other bits, or nothing where it showed
-- nothing; and the child's kernel entries are those of boot_page_directory. The parent must have
-- different tables and below the kernel no pages of 4 MB, and boot_page_directory must be a page in
-- use.
pub vmm_clone_address_space-IsFork :
    (parent child v d : ℕ) (s : Vmm)
    → IsTree parent s
    → is_used s.boot_pd s ≡ true
    → ((e : ℕ) → e < 768 → (s.words parent e).flags.ps ≡ false)
    → (vmm_clone_address_space parent s).0 ≡ some child
    → dir_index v < 768
    → 768 ≤ d
    → d < 1024
    → IsFork parent child v d s (vmm_clone_address_space parent s).1
vmm_clone_address_space-IsFork parent child v d s t b small h user low high =
    let all = clone_all parent child s t b small h in
    let matched = Matches-map IsShared cow_entry cow_entry-IsShared (lookup parent v s) in
    record {
      new_directory = all.new_directory;
      of_parent = matched _ (all.of_parent v user);
      of_child = matched _ (all.of_child v user);
      same = all.of_child v user ∙ sym (all.of_parent v user);
      kernel = all.kernel d low high;
    }
