-- ===== src/Heap/Bounds.antt =====
-- kmalloc: where the block lies in the pool, and how large it is.
use native.Mathlib.Nat.{pow-suc}
use enclave_os.Prelude.{
  ℕ, zero, suc, ◌+◌, ◌-◌, ◌*◌, ◌/◌, ◌%◌, ◌^◌, ◌≡◌, ◌≢◌, ◌≤◌, ◌<◌, refl, ◌||◌, Option, none, some,
  arith, ltb, ◌==◌, Bool-cases, Option-cases, inl, inr, ◌⊎◌,
}
use enclave_os.Heap.{
  heap_start, heap_size, max_order, header_size, header_magic, Node, free, split, unused, alloc,
  Heap, write_node, depth_loop, get_depth, find_free, block_size, level_loop, split_loop, place,
  kmalloc,
}

-- The node is at the depth `d`.
abbrev pub At : ℕ → ℕ → Type 0
At d n = (2 ^ d ≤ n) × (n < 2 ^ suc d)

pub pow_positive : (d : ℕ) → 1 ≤ 2 ^ d
pow_positive zero = omega arith
pow_positive (suc d) = omega (arith, pow-suc 2 d, pow_positive d)

depth_loop-At : (fuel d n : ℕ) → At d n → d < fuel → depth_loop fuel n ≡ d
unfolding depth_loop
depth_loop-At zero d n a h = absurd (omega arith)
depth_loop-At (suc fuel) zero n a h = let one : n ≡ 1 = omega arith in rw one refl
depth_loop-At (suc fuel) (suc d) n a h =
    let (low, high) = a in
    let half : At d (n / 2) =
      (omega (arith, low, pow-suc 2 d), omega (arith, high, pow-suc 2 (suc d))) in
    ground (arith, depth_loop-At fuel d (n / 2) half, low, pow-suc 2 d, pow_positive d)

found_here :
    (v : Node) (node n : ℕ)
    → elim v as (λ _. Option ℕ) [ free ↦ some node | _ ↦ none ] ≡ some n
    → n ≡ node
found_here unused node n e = cc
found_here free node n e = ground (arith, e)
found_here alloc node n e = cc
found_here split node n e = cc

found_below :
    (v : Node) (l r : Option ℕ) (node n : ℕ)
    → elim v as (λ _. Option ℕ) [
      | free ↦ some node
      | split ↦ elim l as (λ _. Option ℕ) [ some m ↦ some m | none ↦ r ]
      | _ ↦ none
    ]
      ≡ some n
    → (n ≡ node) ⊎ (l ≡ some n) ⊎ (r ≡ some n)
found_below unused l r node n e = cc
found_below free l r node n e = inl (ground (arith, e))
found_below alloc l r node n e = cc
found_below split (some m) r node n e = inr (inl e)
found_below split none r node n e = inr (inr e)

-- The node that find_free returns is at most `levels` below the one where the search begins.
pub find_free-At :
    (levels d node n : ℕ) (tree : ℕ → Node)
    → At d node
    → find_free levels node tree ≡ some n
    → (e : ℕ) × At e n × (d ≤ e) × (e ≤ d + levels)
unfolding find_free
find_free-At zero d node n tree a f =
    let same = found_here (tree node) node n f in (d, rw same a, omega arith, omega arith)
find_free-At (suc levels) d node n tree a f =
    let left : At (suc d) (node * 2) =
      (omega (arith, a.0, pow-suc 2 d), omega (arith, a.1, pow-suc 2 (suc d))) in
    let right : At (suc d) (node * 2 + 1) = child 1 (omega arith) in
    elim (found_below (tree node) _ _ node n f) [
      | inl same ↦ (d, rw same a, omega arith, omega arith)
      | inr (inl l) ↦
          let (e, at, low, high) = find_free-At levels (suc d) (node * 2) n tree left l in
          (e, at, omega arith, omega arith)
      | inr (inr r) ↦
          let (e, at, low, high) = find_free-At levels (suc d) (node * 2 + 1) n tree right r in
          (e, at, omega arith, omega arith)
    ]
  where
    child : (b : ℕ) → b < 2 → At (suc d) (node * 2 + b)
    child b h = (omega (arith, a.0, pow-suc 2 d), omega (arith, a.1, pow-suc 2 (suc d)))

pub split_loop-At :
    (levels d n : ℕ) (tree : ℕ → Node) → At d n → At (d + levels) (split_loop levels n tree).0
unfolding split_loop
split_loop-At zero d n tree a = let same : d + 0 ≡ d = omega arith in rw same a
split_loop-At (suc levels) d n tree a =
    let below : At (suc d) (n * 2) =
      (omega (arith, a.0, pow-suc 2 d), omega (arith, a.1, pow-suc 2 (suc d))) in
    let there =
      split_loop-At levels (suc d) (n * 2) (write_node (write_node tree n split) (n * 2 + 1) free)
        below in
    let same : d + suc levels ≡ suc d + levels = omega arith in rw same there

pub level_loop-le : (fuel level size : ℕ) → level_loop fuel level size ≤ level + fuel
unfolding level_loop
level_loop-le zero level size = omega arith
level_loop-le (suc fuel) level size = ground (arith, level_loop-le fuel (level + 1) size)

pub get_depth-At : (d n : ℕ) → At d n → d ≤ max_order → get_depth n ≡ d
unfolding get_depth
get_depth-At d n a h = depth_loop-At 32 d n a (omega arith)

doubled : (i b : ℕ) → i * (b * 2) + b * 2 ≡ (2 * i + 1) * b + b
doubled i b = grind arith

-- The blocks of a level fit in the pool.
pub block-le :
    (level k i : ℕ)
    → k + level ≡ max_order
    → i < 2 ^ k
    → i * block_size level + block_size level ≤ heap_size
block-le zero k i e h = let all : k ≡ 15 = omega arith in let h' = rw all at h in omega (arith, h')
block-le (suc level) k i e h =
    let twice : block_size (suc level) ≡ block_size level * 2 = omega (arith, pow-suc 2 level) in
    let child : 2 * i + 1 < 2 ^ suc k = omega (arith, pow-suc 2 k) in
    rw (twice, doubled i (block_size level))
      (block-le level (suc k) (2 * i + 1) (omega arith) child)

-- The address lies behind the header of a block of the pool that is aligned to its size and large
-- enough for `size` bytes; the node of the block is marked, and the header says how large it is.
pub record InPool (size address : ℕ) (h : Heap) : Type 0 where
  pub level : ℕ
  pub index : ℕ
  pub order : level ≤ max_order
  pub large : size + header_size ≤ block_size level
  pub place_of : address ≡ heap_start + index * block_size level + header_size
  pub inside : index * block_size level + block_size level ≤ heap_size
  pub marked : h.tree (2 ^ (max_order - level) + index) ≡ alloc
  pub sized :
      h.headers (heap_start + index * block_size level)
      ≡ record { size = block_size level; magic = header_magic }

place-InPool :
    (size level node d : ℕ) (h : Heap)
    → At d node
    → d + level ≤ max_order
    → size + header_size ≤ block_size level
    → InPool size (place level node h).0 (place level node h).1
unfolding place
place-InPool size level node d h a o l =
    let k = max_order - level in
    let down = max_order - d - level in
    let curr = (split_loop down node h.tree).0 in
    let below : d + down ≡ k = omega arith in
    let raw = split_loop-At down d node h.tree a in
    let there : At k curr = rw below at raw in
    let depth = get_depth-At d node a (omega arith) in
    let depth' = get_depth-At k curr there (omega arith) in
    let index = curr - 2 ^ k in
    let narrow : index < 2 ^ k = omega (arith, there, pow-suc 2 k) in
    let fit = block-le level k index (omega arith) narrow in
    let back : 2 ^ k + index ≡ curr = omega (arith, there) in
    let short : (heap_start + index * block_size level) % 2 ^ 32
        ≡ heap_start + index * block_size level =
      omega (arith, fit) in
    rw (depth, depth', short)
      (record {
        level = level;
        index = index;
        order = omega arith;
        large = l;
        place_of = refl;
        inside = fit;
        marked = rw back (ground arith);
        sized = ground arith;
      })

-- Where kmalloc does not return NULL, its answer is an address behind the header of a block of the
-- pool that is aligned to its size and holds the request; the block lies inside the pool, its node
-- is marked as allocated, and its header has its size and the magic number.
pub kmalloc-InPool :
    (size : ℕ) (h : Heap)
    → (kmalloc size h).0 ≢ 0
    → InPool size (kmalloc size h).0 (kmalloc size h).1
unfolding kmalloc
kmalloc-InPool size h n =
    let level = level_loop max_order 0 (size + header_size) in
    let bounded = level_loop-le max_order 0 (size + header_size) in
    elim (Bool-cases (size == 0 || ltb heap_size size)) [
      | inl bad ↦ absurd (n (rw bad refl))
      | inr good ↦ elim (Bool-cases (ltb (block_size level) (size + header_size))) [
        | inl big ↦ absurd (n (rw (good, big) refl))
        | inr fits ↦ elim (Option-cases (find_free (max_order - level) 1 h.tree)) [
          | inl full ↦ absurd (n (rw (good, fits, full) refl))
          | inr (node, found) ↦
              let (d, at, low, high) =
                find_free-At (max_order - level) 0 1 node h.tree (omega arith, omega arith) found in
              rw (good, fits, found)
                (place-InPool size level node d h at (omega arith) (ground (arith, fits)))
        ]
      ]
    ]
