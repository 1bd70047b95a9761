-- ===== src/Heap/Release.antt =====
-- kfree of an allocated block.
use enclave_os.Prelude.{
  ℕ, ◌+◌, ◌-◌, ◌/◌, ◌^◌, true, false, ◌≡◌, ◌≢◌, ◌≤◌, ◌<◌, ◌||◌, refl, sym, ap, ◌∙◌, arith, ltb, leb,
  ◌==◌, Bool-cases, inl, inr,
}
use enclave_os.Heap.{
  Node, Heap, unused, alloc, free, max_order, heap_start, heap_end, header_magic, level_loop,
  write_node, merge_loop, kfree,
}
use enclave_os.Heap.Frees.{header_of}
use enclave_os.Heap.Forest.{IsForest, write_same, write_other}
use enclave_os.Heap.Merge.{merge_loop-Merged}

-- The node whose block has the header in front of `ptr`.
abbrev pub node_of : ℕ → Heap → ℕ
node_of ptr h =
    let size = (h.headers (header_of ptr)).size in
    2 ^ (max_order - level_loop max_order 0 size) + (header_of ptr - heap_start) / size

-- The second tree is a forest, and its allocated nodes are those of the first one without `curr`.
pub record Released (curr : ℕ) (tree tree' : ℕ → Node) : Type 0 where
  pub forest : IsForest tree'
  pub gone : tree' curr ≢ alloc
  pub kept : (b : ℕ) → tree b ≡ alloc → b ≢ curr → tree' b ≡ alloc
  pub back : (b : ℕ) → tree' b ≡ alloc → tree b ≡ alloc

free-IsForest :
    (curr : ℕ) (tree : ℕ → Node)
    → IsForest tree
    → tree curr ≡ alloc
    → IsForest (write_node tree curr free)
free-IsForest curr tree f t n h u =
    let used : tree n ≢ unused = λ z. elim (Bool-cases (n == curr)) [
      | inl here ↦
          let e : n ≡ curr = ground (arith, here) in
          let s = sym t ∙ ap tree (sym e) ∙ z in absurd (cc s)
      | inr there ↦
          let e : n ≢ curr = λ e. absurd (ground (arith, there, e)) in
          absurd (u (write_other tree curr n free e ∙ z))
    ] in
    let up = f n h used in
    write_other tree curr (n / 2) free (λ q. let s = sym t ∙ ap tree (sym q) ∙ up in cc s) ∙ up

released :
    (fuel curr : ℕ) (tree : ℕ → Node)
    → IsForest tree
    → tree curr ≡ alloc
    → Released curr tree (merge_loop fuel curr (write_node tree curr free))
released fuel curr tree f t =
    let there = write_same tree curr free in
    let m =
      merge_loop-Merged fuel curr (write_node tree curr free) (free-IsForest curr tree f t) there in
    record {
      forest = m.forest;
      gone = λ e. let s = sym there ∙ m.back curr e in cc s;
      kept = λ b e q. m.kept b (write_other tree curr b free q ∙ e);
      back = λ b e.
          let was = m.back b e in
          let other : b ≢ curr =
            λ q. let s = sym there ∙ ap (write_node tree curr free) (sym q) ∙ was in cc s in
          sym (write_other tree curr b free other) ∙ was;
    }

kfree_valid :
    (ptr : ℕ) (h : Heap)
    → ptr ≢ 0
    → heap_start ≤ header_of ptr
    → header_of ptr < heap_end
    → (h.headers (header_of ptr)).magic ≡ header_magic
    → (kfree ptr h).tree
      ≡ merge_loop max_order (node_of ptr h) (write_node h.tree (node_of ptr h) free)
unfolding kfree
kfree_valid ptr h z low high m =
    let a : (ptr == 0) ≡ false = ground (arith, z) in
    let b : (ltb (header_of ptr) heap_start || leb heap_end (header_of ptr)) ≡ false =
      ground (arith, low, high) in
    let c : ((h.headers (header_of ptr)).magic == header_magic) ≡ true = ground (arith, m) in
    rw (a, b, c) refl

-- On a tree in which the parent of every node in use is split, a kfree of a pointer behind a header in
-- the pool, with the magic number and with an allocated node, leaves such a tree, in which the
-- allocated nodes are those before without the one of the pointer.
pub kfree-Released :
    (ptr : ℕ) (h : Heap)
    → IsForest h.tree
    → ptr ≢ 0
    → heap_start ≤ header_of ptr
    → header_of ptr < heap_end
    → (h.headers (header_of ptr)).magic ≡ header_magic
    → h.tree (node_of ptr h) ≡ alloc
    → Released (node_of ptr h) h.tree (kfree ptr h).tree
kfree-Released ptr h f z low high m t =
    rw (kfree_valid ptr h z low high m) (released max_order (node_of ptr h) h.tree f t)
