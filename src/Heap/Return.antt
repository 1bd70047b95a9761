-- ===== src/Heap/Return.antt =====
-- kfree of what kmalloc has returned.
use native.Mathlib.Nat.{pow-suc, mul-div_cancel}
use enclave_os.Prelude.{
  ℕ, zero, suc, ◌+◌, ◌-◌, ◌*◌, ◌/◌, ◌%◌, ◌^◌, ◌≡◌, ◌≢◌, ◌≤◌, ◌<◌, true, false, refl, sym, ap, ◌∙◌,
  arith, ltb, Bool-cases, inl, inr,
}
use enclave_os.Heap.{
  Node, Heap, alloc, free, max_order, heap_start, heap_size, header_magic, header_size, level_loop,
  block_size, split_loop, place, kmalloc, kfree,
}
use enclave_os.Heap.Frees.{header_of}
use enclave_os.Heap.Bounds.{
  At, pow_positive, get_depth-At, find_free-At, split_loop-At, level_loop-le, block-le,
}
use enclave_os.Heap.Forest.{
  IsForest, write_other, down_one, split_loop-suc, split_loop-zero, find_free-free,
}
use enclave_os.Heap.Separate.{place_address, placed, node_positive, kmalloc_cases}
use enclave_os.Heap.Merge.{Merged}
use enclave_os.Heap.Release.{node_of, kfree-Released}

pow_less : (j k l : ℕ) → l ≡ suc (j + k) → 2 ^ k < 2 ^ l
pow_less zero k l e =
    let e' : l ≡ suc k = omega (arith, e) in rw e' (omega (arith, pow-suc 2 k, pow_positive k))
pow_less (suc j) k l e =
    let m = l - 1 in
    let e' : l ≡ suc m = omega (arith, e) in
    let less = pow_less j k m (omega (arith, e)) in rw e' (omega (arith, pow-suc 2 m, less))

-- The level of a block's own size is the level of the block.
level_loop-block_size : (fuel k l : ℕ) → k ≤ l → l ≤ k + fuel → level_loop fuel k (block_size l) ≡ l
unfolding level_loop
level_loop-block_size zero k l a b = omega (arith, a, b)
level_loop-block_size (suc fuel) k l a b = elim (Bool-cases (ltb k l)) [
  | inl below ↦
      let h : k < l = ground (arith, below) in
      let less : 2 ^ k < 2 ^ l = pow_less (l - suc k) k l (omega (arith, h)) in
      let t : ltb (block_size k) (block_size l) ≡ true = ground (arith, less) in
      rw t (level_loop-block_size fuel (k + 1) l (omega (arith, h)) (omega (arith, b)))
  | inr there ↦
      let e : k ≡ l = ground (arith, there, a) in
      let t : ltb (block_size k) (block_size l) ≡ false = rw e (ground arith) in rw t e
]

down_one-alloc :
    (curr : ℕ) (tree : ℕ → Node) (b : ℕ) → down_one curr tree b ≡ alloc → tree b ≡ alloc
down_one-alloc curr tree b e = ground (arith, e)

split_loop-alloc :
    (levels curr : ℕ) (tree : ℕ → Node) (b : ℕ)
    → (split_loop levels curr tree).1 b ≡ alloc
    → tree b ≡ alloc
split_loop-alloc zero curr tree b e = rw (split_loop-zero curr tree) at e
split_loop-alloc (suc levels) curr tree b e =
    let e' = rw (split_loop-suc levels curr tree) at e in
    down_one-alloc curr tree b (split_loop-alloc levels (curr * 2) (down_one curr tree) b e')

module _ (level node d : ℕ) (h : Heap) (a : At d node) (o : d + level ≤ max_order)
    (there : At (max_order - level) (split_loop (max_order - d - level) node h.tree).0) where
  abbrev index : ℕ
  index = (split_loop (max_order - d - level) node h.tree).0 - 2 ^ (max_order - level)

  abbrev curr : ℕ
  curr = (split_loop (max_order - d - level) node h.tree).0

  narrow : index < 2 ^ (max_order - level)
  narrow = omega (arith, there, pow-suc 2 (max_order - level))

  fits : index * block_size level + block_size level ≤ heap_size
  fits = block-le level (max_order - level) index (omega arith) narrow

  back : 2 ^ (max_order - level) + index ≡ (split_loop (max_order - d - level) node h.tree).0
  back = omega (arith, there)

  place_header :
      (place level node h).1.headers (heap_start + index * block_size level)
      ≡ record { size = block_size level; magic = header_magic }
  unfolding place
  place_header =
      let depth = get_depth-At d node a (omega arith) in
      let depth' = get_depth-At (max_order - level) _ there (omega arith) in
      let short : (heap_start + index * block_size level) % 2 ^ 32
          ≡ heap_start + index * block_size level =
        omega (arith, fits) in
      rw (depth, depth', short) (ground arith)

  place_tree :
      (b : ℕ)
      → (place level node h).1.tree b ≡ alloc
      → b ≢ (split_loop (max_order - d - level) node h.tree).0
      → h.tree b ≡ alloc
  unfolding place
  place_tree b e q =
      let depth = get_depth-At d node a (omega arith) in
      let e' = rw depth at e in
      split_loop-alloc (max_order - d - level) node h.tree b (
        sym (
          write_other (split_loop (max_order - d - level) node h.tree).1
            (split_loop (max_order - d - level) node h.tree).0 b alloc q)
        ∙ e')

  abbrev ptr : ℕ
  ptr = (place level node h).0

  header_of-ptr : header_of ptr ≡ heap_start + index * block_size level
  header_of-ptr = let e = place_address level node d h a o there in rw e (omega (arith, fits))

  node_of-ptr :
      node_of ptr (place level node h).1 ≡ (split_loop (max_order - d - level) node h.tree).0
  node_of-ptr =
      let e = header_of-ptr in
      let l = level_loop-block_size max_order 0 level (omega arith) (omega arith) in
      let p = pow_positive level in
      let q : heap_start + index * block_size level - heap_start ≡ index * block_size level =
        omega arith in
      let r : index * block_size level / block_size level ≡ index =
        mul-div_cancel index (omega (arith, p)) in
      rw (e, place_header, l, q, r) back

  kfree-place :
      IsForest h.tree
      → 1 ≤ node
      → h.tree node ≡ free
      → Merged h.tree (kfree ptr (place level node h).1).tree
  kfree-place f l t =
      let tree1 = (place level node h).1.tree in
      let p = placed 0 level node d 0 0 h f a l o t in
      let e = header_of-ptr in
      let z : ptr ≢ 0 =
        λ q. let e' = place_address level node d h a o there in omega (arith, e', q) in
      let m : ((place level node h).1.headers (header_of ptr)).magic ≡ header_magic =
        rw (e, place_header) refl in
      let used : tree1 (node_of ptr (place level node h).1) ≡ alloc = rw node_of-ptr p.there in
      let r =
        kfree-Released ptr (place level node h).1 p.forest z (omega (arith, e, fits))
          (omega (arith, e, fits, pow_positive level)) m used in
      let gone : (kfree ptr (place level node h).1).tree curr ≢ alloc = rw node_of-ptr at r.gone in
      record {
        forest = r.forest;
        kept = λ b u. r.kept b (p.kept b u) (λ q. p.fresh b u (q ∙ node_of-ptr));
        back = λ b u.
            place_tree b (r.back b u)
              (λ q. absurd (gone (ap (kfree ptr (place level node h).1).tree (sym q) ∙ u)));
      }

-- On a tree in which the parent of every node in use is split, where kmalloc does not return NULL, a
-- kfree of its answer leaves such a tree again, with the same allocated nodes as before the kmalloc.
pub kfree-kmalloc :
    (size : ℕ) (h : Heap)
    → IsForest h.tree
    → (kmalloc size h).0 ≢ 0
    → Merged h.tree (kfree (kmalloc size h).0 (kmalloc size h).1).tree
kfree-kmalloc size h f n = elim (kmalloc_cases size h) [
  | inl (z, _) ↦ absurd (n z)
  | inr (node, found, large, same) ↦
      let level = level_loop max_order 0 (size + header_size) in
      let bounded = level_loop-le max_order 0 (size + header_size) in
      let (d, at, low, high) =
        find_free-At (max_order - level) 0 1 node h.tree (omega arith, omega arith) found in
      let t = find_free-free (max_order - level) 1 node h.tree found in
      let one : 1 ≤ node = node_positive d node at in
      let o : d + level ≤ max_order = omega arith in
      let below : d + (max_order - d - level) ≡ max_order - level = omega arith in
      let raw = split_loop-At (max_order - d - level) d node h.tree at in
      let there : At (max_order - level) (split_loop (max_order - d - level) node h.tree).0 =
        rw below at raw in
      rw same (kfree-place level node d h at o there f one t)
]
