-- ===== src/Vfs/Share.antt =====
-- vfs.c: one more descriptor for an open file.
use enclave_os.Prelude.{
  ℕ, suc, ◌+◌, ◌^◌, ◌≡◌, ◌≢◌, ◌≤◌, ◌<◌, refl, ◌∙◌, sym, some, List, ◌==◌, if◌then◌else◌, arith,
  length, get_or, set, Bool-cases, inl, inr, length-set,
}
use enclave_os.Vfs.{Vfs, OpenFile, find_file, update_file, write_node, up, more_refs}
use enclave_os.Vfs.Files.{
  refs_of, refs_of-find, users-update, refs_of-update_other, refs_of-update_same,
}
use enclave_os.Vfs.Count.{count, count-set, count-le, Sound}

-- One descriptor `i` of the table changes from `old` to `v`.
pub count-set_from :
    (b old v i : ℕ) (l : List ℕ)
    → i < length l
    → get_or l i 0 ≡ old
    → count b (set l i v) + (if old == b then 1 else 0) ≡ count b l + (if v == b then 1 else 0)
count-set_from b old v i l h e = rw (sym e) (count-set b v l i h)

module _ (k a i : ℕ) (s : Vfs) (h : Sound k s) (na : a ≢ 0) (inside : i < 256)
    (free : get_or s.fd_table i 0 ≡ 0) (named : 1 ≤ count a s.fd_table) (fits : suc k < 2 ^ 32)
    (of : OpenFile) (found : find_file a s.files ≡ some of) where
  unfoldable pub shared : Vfs
  shared = record s {
    files = update_file a (λ f. record f { ref_count = up f.ref_count }) s.files;
    nodes = if of.node == 0 then s.nodes else write_node of.node more_refs s.nodes;
    fd_table = set s.fd_table i a;
  }

  new_count :
      (b : ℕ) → b ≢ 0 → count b shared.fd_table ≡ count b s.fd_table + (if a == b then 1 else 0)
  unfolding shared
  new_count b nb =
      let sized = h.size in
      ground (arith, count-set_from b 0 a i s.fd_table (omega (arith, sized)) free, nb)

  shared-refs :
      (b : ℕ) → b ≢ 0 → refs_of b shared.files ≡ count b shared.fd_table + count b s.elsewhere
  unfolding shared
  shared-refs b nb =
      let g : OpenFile → OpenFile = λ f. record f { ref_count = up f.ref_count } in
      let before = h.refs b nb in
      let counted = new_count b nb in
      elim (Bool-cases (a == b)) [
        | inl same ↦
            let q : b ≡ a = ground (arith, same) in
            let now = refs_of-update_same a g (λ f. refl) (λ f. refl) s.files of found in
            let was = refs_of-find a s.files of found in
            let cap = count-le a (set s.fd_table i a) in
            let cap' = count-le a s.elsewhere in
            let sized = length-set s.fd_table i a ∙ h.size in
            let few = h.few in
            let before' = h.refs a na in
            let counted' = new_count a na in
            rw q (ground (arith, now, was, before', counted', cap, cap', sized, few))
        | inr other ↦
            let q : b ≢ a = λ q. absurd (ground (arith, other, q)) in
            let now = refs_of-update_other a g (λ f. refl) (λ f. refl) b s.files q in
            ground (arith, now, before, counted, other)
      ]

  pub shared-Sound : Sound (suc k) shared
  unfolding shared
  shared-Sound = record {
    size = let z = h.size in length-set s.fd_table i a ∙ z;
    few = h.few;
    refs = shared-refs;
    held = λ n nn.
        let same =
          users-update a (λ f. record f { ref_count = up f.ref_count }) (λ f. refl) (λ f. refl) n
            s.files in
        ground (arith, same, h.held n nn, h.bound n);
    bound = λ n. ground (arith, h.bound n);
    live = λ n nn u.
        let same =
          users-update a (λ f. record f { ref_count = up f.ref_count }) (λ f. refl) (λ f. refl) n
            s.files in
        ground (arith, same, u, h.live n nn);
  }
