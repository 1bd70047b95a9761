-- ===== src/Heap/Separate.antt =====
-- heap.c: a block from kmalloc among the allocated ones.
use native.Mathlib.Nat.{pow-suc}
use enclave_os.Prelude.{
  ℕ, ◌+◌, ◌-◌, ◌*◌, ◌%◌, ◌^◌, ◌≡◌, ◌≢◌, ◌≤◌, ◌<◌, ◌⊎◌, ◌||◌, refl, sym, arith, ◌==◌, ltb,
  Bool-cases, Option-cases, inl, inr, some,
}
use enclave_os.Heap.{
  Heap, alloc, free, max_order, heap_start, heap_size, header_size, block_size, level_loop,
  find_free, split_loop, place, kmalloc,
}
use enclave_os.Heap.Bounds.{
  At, pow_positive, get_depth-At, find_free-At, split_loop-At, level_loop-le, block-le,
}
use enclave_os.Heap.Forest.{IsForest, Placed, split_loop-Placed, find_free-free}
use enclave_os.Heap.Blocks.{AreApart, alloc-AreApart}

-- The answer is the address behind the header of a block that holds the request; the tree is a forest,
-- the node `b` is still allocated, and its block at the depth `e` has no page of the new one.
pub record Separate (size b e address : ℕ) (h : Heap) : Type 0 where
  pub level : ℕ
  pub index : ℕ
  pub large : size + header_size ≤ block_size level
  pub place_of : address ≡ heap_start + index * block_size level + header_size
  pub forest : IsForest h.tree
  pub kept : h.tree b ≡ alloc
  pub apart : AreApart (max_order - level) (2 ^ (max_order - level) + index) e b

pub place_address :
    (level node d : ℕ) (h : Heap)
    → At d node
    → d + level ≤ max_order
    → At (max_order - level) (split_loop (max_order - d - level) node h.tree).0
    → (place level node h).0
      ≡ heap_start
        + ((split_loop (max_order - d - level) node h.tree).0 - 2 ^ (max_order - level))
          * block_size level
        + header_size
unfolding place
place_address level node d h a o there =
    let k = max_order - level in
    let curr = (split_loop (max_order - d - level) node h.tree).0 in
    let depth = get_depth-At d node a (omega arith) in
    let depth' = get_depth-At k curr there (omega arith) in
    let index = curr - 2 ^ k in
    let narrow : index < 2 ^ k = omega (arith, there, pow-suc 2 k) in
    let fit = block-le level k index (omega arith) narrow in
    let short : (heap_start + index * block_size level) % 2 ^ 32
        ≡ heap_start + index * block_size level =
      omega (arith, fit) in
    rw (depth, depth', short) refl

module _ (size level node d b e : ℕ) (h : Heap) (f : IsForest h.tree) (a : At d node) (l : 1 ≤ node)
    (o : d + level ≤ max_order) (t : h.tree node ≡ free) where
  pub placed :
      Placed node h.tree
        (split_loop (max_order - d - level) node h.tree).0
        (place level node h).1.tree
  unfolding place
  placed =
      let depth = get_depth-At d node a (omega arith) in
      rw depth (split_loop-Placed (max_order - d - level) node h.tree f l t)

  place-Separate :
      size + header_size ≤ block_size level
      → h.tree b ≡ alloc
      → At e b
      → e ≤ max_order
      → Separate size b e (place level node h).0 (place level node h).1
  place-Separate large u g k =
      let top = max_order - level in
      let below : d + (max_order - d - level) ≡ top = omega arith in
      let raw = split_loop-At (max_order - d - level) d node h.tree a in
      let curr = (split_loop (max_order - d - level) node h.tree).0 in
      let there : At top curr = rw below at raw in
      let index = curr - 2 ^ top in
      let back : 2 ^ top + index ≡ curr = omega (arith, there) in
      let p = placed in
      let other : curr ≢ b = λ q. p.fresh b u (sym q) in
      let kept = p.kept b u in
      let blocks =
        alloc-AreApart (place level node h).1.tree top curr e b p.forest there g (omega arith) k
          p.there kept other in
      record {
        level = level;
        index = index;
        large = large;
        place_of = place_address level node d h a o there;
        forest = p.forest;
        kept = kept;
        apart = rw back blocks;
      }

pub node_positive : (d n : ℕ) → At d n → 1 ≤ n
node_positive d n a = omega (arith, a.0, pow_positive d)

pub kmalloc_cases :
    (size : ℕ) (h : Heap)
    → (((kmalloc size h).0 ≡ 0) × ((kmalloc size h).1 ≡ h))
      ⊎ (node : ℕ) × (find_free (max_order - level_loop max_order 0 (size + header_size)) 1 h.tree
          ≡ some node)
        × (size + header_size ≤ block_size (level_loop max_order 0 (size + header_size)))
        × (kmalloc size h ≡ place (level_loop max_order 0 (size + header_size)) node h)
unfolding kmalloc
kmalloc_cases size h =
    let level = level_loop max_order 0 (size + header_size) in
    elim (Option-cases (find_free (max_order - level) 1 h.tree)) [
      | inl e ↦ inl (ground (arith, e))
      | inr (node, e) ↦
          elim (Bool-cases
            (size == 0 || ltb heap_size size || ltb (block_size level) (size + header_size))) [
              | inl x ↦ inl (ground (arith, e, x))
              | inr x ↦ inr (node, e, ground (arith, x), ground (arith, e, x))
            ]
    ]

-- kmalloc keeps the shape of the tree.
pub kmalloc-IsForest : (size : ℕ) (h : Heap) → IsForest h.tree → IsForest (kmalloc size h).1.tree
kmalloc-IsForest size h f = elim (kmalloc_cases size h) [
  | inl (_, same) ↦ rw same f
  | inr (node, found, large, e) ↦
      let level = level_loop max_order 0 (size + header_size) in
      let bounded = level_loop-le max_order 0 (size + header_size) in
      let (d, at, low, high) =
        find_free-At (max_order - level) 0 1 node h.tree (omega arith, omega arith) found in
      let t = find_free-free (max_order - level) 1 node h.tree found in
      let one : 1 ≤ node = node_positive d node at in
      rw e ((placed size level node d 0 0 h f at one (omega arith) t).forest)
]

-- On a tree in which the parent of every node in use is split, which is so after heap_init and is kept,
-- where kmalloc does not return NULL its answer lies behind the header of a block that holds the
-- request, every node that was allocated still is, and its block has no page of the new one.
pub kmalloc-Separate :
    (size b e : ℕ) (h : Heap)
    → IsForest h.tree
    → h.tree b ≡ alloc
    → At e b
    → e ≤ max_order
    → (kmalloc size h).0 ≢ 0
    → Separate size b e (kmalloc size h).0 (kmalloc size h).1
kmalloc-Separate size b e h f u g k n = elim (kmalloc_cases size h) [
  | inl (z, _) ↦ absurd (n z)
  | inr (node, found, large, same) ↦
      let level = level_loop max_order 0 (size + header_size) in
      let bounded = level_loop-le max_order 0 (size + header_size) in
      let (d, at, low, high) =
        find_free-At (max_order - level) 0 1 node h.tree (omega arith, omega arith) found in
      let t = find_free-free (max_order - level) 1 node h.tree found in
      let one : 1 ≤ node = node_positive d node at in
      rw same (place-Separate size level node d b e h f at one (omega arith) t large u g k)
]
