-- ===== src/Vfs/Release.antt =====
-- vfs.c: one descriptor less for an open file.
use enclave_os.Prelude.{
  ℕ, suc, ◌+◌, ◌^◌, ◌≡◌, ◌≢◌, ◌≤◌, ◌<◌, refl, ◌∙◌, false, some, ◌==◌, if◌then◌else◌, arith, get_or,
  set, Bool-cases, inl, inr, length-set,
}
use enclave_os.Vfs.{
  Vfs, OpenFile, VfsNode, find_file, update_file, remove_file, write_node, down, drop_node,
}
use enclave_os.Vfs.Share.{count-set_from}
use enclave_os.Vfs.Files.{
  refs_of, users, refs_of-find, users-update, refs_of-update_other, refs_of-update_same,
  refs_of-remove_same, refs_of-remove_other, users-remove, users-remove_found,
}
use enclave_os.Vfs.Count.{count, count-get, count-le, Sound}

drop_node_lem :
    (v : VfsNode) (u' u k : ℕ)
    → suc u' ≤ u
    → u ≤ v.ref_count
    → v.ref_count ≤ k
    → k < 2 ^ 32
    → v.freed ≡ false
    → (u' ≤ (drop_node v).ref_count)
      × ((drop_node v).ref_count ≤ k)
      × (1 ≤ u' → (drop_node v).freed ≡ false)
unfolding drop_node
drop_node_lem v u' u k a b c d e = ground (arith, a, b, c, d, e)

-- A descriptor that named the open file `a` has been taken out of the table.
module _ (k a i : ℕ) (s : Vfs) (h : Sound k s) (na : a ≢ 0) (inside : i < 256)
    (named : get_or s.fd_table i 0 ≡ a) (fits : k < 2 ^ 32) (of : OpenFile)
    (found : find_file a s.files ≡ some of) where
  one_less :
      (b : ℕ)
      → b ≢ 0
      → count b (set s.fd_table i 0) + (if a == b then 1 else 0) ≡ count b s.fd_table
  one_less b nb =
      let sized = h.size in
      ground (arith, count-set_from b a 0 i s.fd_table (omega (arith, sized)) named, nb)

  references : of.ref_count ≡ suc (count a (set s.fd_table i 0)) + count a s.elsewhere
  references =
      let was = refs_of-find a s.files of found in
      let before = h.refs a na in let less = one_less a na in ground (arith, was, before, less)

  small : of.ref_count < 2 ^ 32
  small =
      let cap = count-le a (set s.fd_table i 0) in
      let cap' = count-le a s.elsewhere in
      let sized = length-set s.fd_table i 0 ∙ h.size in
      let few = h.few in
      let c = count-get s.fd_table i a named na in
      let less = one_less a na in
      let whole = count-le a s.fd_table in
      let size = h.size in ground (arith, references, cap, cap', sized, few, less, whole, size)

  unfoldable pub last : Vfs
  last = record s {
    fd_table = set s.fd_table i 0;
    nodes = if of.node == 0 then s.nodes else write_node of.node drop_node s.nodes;
    files = remove_file a s.files;
  }

  last-refs :
      down of.ref_count ≡ 0
      → (b : ℕ) → b ≢ 0
      → refs_of b (remove_file a s.files) ≡ count b (set s.fd_table i 0) + count b s.elsewhere
  last-refs z b nb =
      let less = one_less b nb in
      let before = h.refs b nb in
      elim (Bool-cases (a == b)) [
        | inl same ↦
            let q : b ≡ a = ground (arith, same) in
            let gone = refs_of-remove_same a s.files in
            let r = references in let m = small in rw q (ground (arith, gone, r, m, z))
        | inr other ↦
            let q : b ≢ a = λ q. absurd (ground (arith, other, q)) in
            let kept = refs_of-remove_other a b s.files q in
            ground (arith, kept, before, less, other)
      ]

  last-there : (n : ℕ) → n ≡ of.node → n ≢ 0 → last.nodes n ≡ drop_node (s.nodes n)
  unfolding last
  last-there n q nn = ground (arith, q, nn)

  last-elsewhere : (n : ℕ) → n ≢ of.node → last.nodes n ≡ s.nodes n
  unfolding last
  last-elsewhere n q = ground (arith, q)

  last-node :
      (n : ℕ)
      → n ≢ 0
      → (users n (remove_file a s.files) ≤ (last.nodes n).ref_count)
        × ((last.nodes n).ref_count ≤ k)
        × (1 ≤ users n (remove_file a s.files) → (last.nodes n).freed ≡ false)
  last-node n nn =
      let fewer = users-remove n a s.files in
      let held = h.held n nn in
      let bound = h.bound n in
      elim (Bool-cases (n == of.node)) [
        | inl same ↦
            let q : n ≡ of.node = ground (arith, same) in
            let one0 = users-remove_found a s.files of found in
            let one : suc (users n (remove_file a s.files)) ≤ users n s.files = rw q one0 in
            rw (last-there n q nn) (
              drop_node_lem (s.nodes n) (users n (remove_file a s.files)) (users n s.files) k one
                held bound fits (h.live n nn (omega (arith, one))))
        | inr other ↦
            rw (last-elsewhere n (λ q. absurd (ground (arith, other, q))))
              (omega (arith, fewer, held), bound, λ u. h.live n nn (omega (arith, u, fewer)))
      ]

  pub last-Sound : down of.ref_count ≡ 0 → Sound k last
  unfolding last
  last-Sound z = record {
    size = let z' = h.size in length-set s.fd_table i 0 ∙ z';
    few = h.few;
    refs = last-refs z;
    held = λ n nn. (last-node n nn).0;
    bound = λ n. elim (Bool-cases (n == 0)) [
      | inl zero_node ↦ let b = h.bound n in ground (arith, b, zero_node)
      | inr other ↦ (last-node n (λ q. absurd (ground (arith, other, q)))).1
    ];
    live = λ n nn. (last-node n nn).2;
  }

  unfoldable pub less : Vfs
  less = record s {
    fd_table = set s.fd_table i 0;
    files = update_file a (λ f. record f { ref_count = down f.ref_count }) s.files;
  }

  less-refs :
      down of.ref_count ≢ 0
      → (b : ℕ) → b ≢ 0
      → refs_of b less.files ≡ count b (set s.fd_table i 0) + count b s.elsewhere
  unfolding less
  less-refs z b nb =
      let g : OpenFile → OpenFile = λ f. record f { ref_count = down f.ref_count } in
      let fewer = one_less b nb in
      let before = h.refs b nb in
      elim (Bool-cases (a == b)) [
        | inl same ↦
            let q : b ≡ a = ground (arith, same) in
            let now = refs_of-update_same a g (λ f. refl) (λ f. refl) s.files of found in
            let r = references in let m = small in rw q (ground (arith, now, r, m))
        | inr other ↦
            let q : b ≢ a = λ q. absurd (ground (arith, other, q)) in
            let now = refs_of-update_other a g (λ f. refl) (λ f. refl) b s.files q in
            ground (arith, now, before, fewer, other)
      ]

  pub less-Sound : down of.ref_count ≢ 0 → Sound k less
  unfolding less
  less-Sound z = record {
    size = let z' = h.size in length-set s.fd_table i 0 ∙ z';
    few = h.few;
    refs = less-refs z;
    held = λ n nn.
        let same =
          users-update a (λ f. record f { ref_count = down f.ref_count }) (λ f. refl) (λ f. refl) n
            s.files in
        let held = h.held n nn in rw same held;
    bound = h.bound;
    live = λ n nn u.
        let same =
          users-update a (λ f. record f { ref_count = down f.ref_count }) (λ f. refl) (λ f. refl) n
            s.files in
        h.live n nn (rw same at u);
  }
