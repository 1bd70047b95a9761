-- ===== src/Heap.antt =====
-- heap.c: the buddy allocator of the kernel heap. The tree is an implicit binary tree over the node
-- numbers 1 to 65535; node `n` has the children `2 n` and `2 n + 1`. Interrupts are off while an
-- operation touches the tree, so an operation is one step.
pub mod Bounds
pub mod Frees
pub mod Forest
pub mod Separate
pub mod Blocks
pub mod Merge
pub mod Release
pub mod Return
mod Tests
use enclave_os.Prelude.{
  ℕ, zero, suc, ◌+◌, ◌-◌, ◌*◌, ◌/◌, ◌%◌, ◌^◌, Bool, true, false, not, ◌&&◌, ◌||◌, Option, none,
  some, ltb, leb, ◌==◌, if◌then◌else◌,
}

abbrev pub heap_start : ℕ
heap_start = 0xD0000000

abbrev pub heap_size : ℕ
heap_size = 128 * 1024 * 1024

abbrev pub heap_end : ℕ
heap_end = heap_start + heap_size

abbrev pub max_order : ℕ
max_order = 15

abbrev pub header_size : ℕ
header_size = 8

abbrev pub header_magic : ℕ
header_magic = 0xDEADBEEF

pub data Node : Type 0 where
  unused free alloc split : Node

-- `BlockHeader`
pub record Header : Type 0 where
  pub size : ℕ
  pub magic : ℕ

-- The tree, the block headers by their address, and the counters.
pub record Heap : Type 0 where
  pub tree : ℕ → Node
  pub headers : ℕ → Header
  pub total_allocs : ℕ
  pub total_frees : ℕ

abbrev pub write_node : (ℕ → Node) → ℕ → Node → (ℕ → Node)
write_node tree n v = λ i. if i == n then v else tree i

abbrev pub write_header : (ℕ → Header) → ℕ → Header → (ℕ → Header)
write_header headers a v = λ i. if i == a then v else headers i

-- The headers lie in memory that heap_init does not touch.
pub heap_init : (ℕ → Header) → Heap
heap_init headers = record {
  tree = λ i. if i == 1 then free else unused;
  headers = headers;
  total_allocs = 0;
  total_frees = 0;
}

-- The number of halvings down to 1, which is `31 - clz`. 32 rounds are enough for an int.
pub depth_loop : ℕ → ℕ → ℕ
depth_loop zero node = 0
depth_loop (suc fuel) node =
    let rest = depth_loop fuel (node / 2) in if leb node 1 then 0 else rest + 1

pub get_depth : ℕ → ℕ
get_depth node = depth_loop 32 node

-- `levels` is `current_level - target_level`, and none is -1.
pub find_free : ℕ → ℕ → (ℕ → Node) → Option ℕ
find_free zero node tree = elim (tree node) [ free ↦ some node | _ ↦ none ]
find_free (suc levels) node tree =
    let left = find_free levels (node * 2) tree in
    let right = find_free levels (node * 2 + 1) tree in
    elim (tree node) [
      | free ↦ some node
      | split ↦ elim left [ some n ↦ some n | none ↦ right ]
      | _ ↦ none
    ]

abbrev pub block_size : ℕ → ℕ
block_size level = 4096 * 2 ^ level

-- The loop that doubles the block until it holds the request, at most `fuel` times.
pub level_loop : ℕ → ℕ → ℕ → ℕ
level_loop zero level size = level
level_loop (suc fuel) level size =
    let rest = level_loop fuel (level + 1) size in
    if ltb (block_size level) size then rest else level

-- The splits of `levels` levels: the left child is used, the right one becomes free.
pub split_loop : ℕ → ℕ → (ℕ → Node) → ℕ × (ℕ → Node)
split_loop zero curr tree = (curr, tree)
split_loop (suc levels) curr tree =
    split_loop levels (curr * 2) (write_node (write_node tree curr split) (curr * 2 + 1) free)

-- What kmalloc does with the node that it has found.
pub place : ℕ → ℕ → Heap → ℕ × Heap
place level node h =
    let (curr, tree) = split_loop (max_order - get_depth node - level) node h.tree in
    let block_index = curr - 2 ^ get_depth curr in
    let virt_addr = (heap_start + block_index * block_size level) % 2 ^ 32 in
    (
      virt_addr + header_size,
      record {
        tree = write_node tree curr alloc;
        headers =
            write_header h.headers virt_addr
              (record { size = block_size level; magic = header_magic });
        total_allocs = (h.total_allocs + 1) % 2 ^ 32;
        total_frees = h.total_frees;
      },
    )

-- The address of the memory, or 0.
pub kmalloc : ℕ → Heap → ℕ × Heap
kmalloc size h =
    let level = level_loop max_order 0 (size + header_size) in
    if size == 0 || ltb heap_size size
    then (0, h)
    else if ltb (block_size level) (size + header_size)
    then (0, h)
    else elim (find_free (max_order - level) 1 h.tree) [
      | none ↦ (0, h)
      | some node ↦ place level node h
    ]

abbrev pub is_free : Node → Bool
is_free free = true
is_free _ = false

-- `curr ^ 1`
abbrev pub buddy_of : ℕ → ℕ
buddy_of curr = if curr % 2 == 0 then curr + 1 else curr - 1

-- A free node and its free buddy become their parent. A round goes up one level, so 15 are enough.
pub merge_loop : ℕ → ℕ → (ℕ → Node) → (ℕ → Node)
merge_loop zero curr tree = tree
merge_loop (suc fuel) curr tree =
    let buddy = buddy_of curr in
    let parent = curr / 2 in
    let merged = write_node (write_node (write_node tree curr unused) buddy unused) parent free in
    let rest = merge_loop fuel parent merged in
    if leb curr 1 then tree else if is_free (tree buddy) then rest else tree

-- The size in the header is one that kmalloc has written.
pub kfree : ℕ → Heap → Heap
kfree ptr h =
    let virt_addr = (ptr + 2 ^ 32 - header_size) % 2 ^ 32 in
    let header = h.headers virt_addr in
    let offset = virt_addr - heap_start in
    let level = level_loop max_order 0 header.size in
    let curr = 2 ^ (max_order - level) + offset / header.size in
    if ptr == 0
    then h
    else if ltb virt_addr heap_start || leb heap_end virt_addr
    then h
    else if not (header.magic == header_magic)
    then h
    else record {
      tree = merge_loop max_order curr (write_node h.tree curr free);
      headers = write_header h.headers virt_addr (record header { magic = 0 });
      total_allocs = h.total_allocs;
      total_frees = (h.total_frees + 1) % 2 ^ 32;
    }

pub heap_get_alloc_count : Heap → ℕ
heap_get_alloc_count h = h.total_allocs

pub heap_get_free_count : Heap → ℕ
heap_get_free_count h = h.total_frees

-- The int as its 32 bits.
pub heap_check_balance : Heap → ℕ
heap_check_balance h = (h.total_allocs + 2 ^ 32 - h.total_frees) % 2 ^ 32
